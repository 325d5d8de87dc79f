-- ===== src/Pool.antt =====
-- python/src/brain_db_sdk/pool.py: a fixed number of clients, handed out in turn. A client is
-- abstract: the pool asks if it is closed, dials one, and closes it.
pub mod Turns
pub mod Healthy
pub mod Members
mod Runs
use brain_sdk.Prelude.{
  ℕ, zero, suc, ◌+◌, ◌%◌, Bool, true, false, not, Option, none, some, List, [], ◌∷◌, ◌++◌, ltb,
  ◌==◌, if◌then◌else◌, length, get_elem?, set,
}
use brain_sdk.Errors.{Exception, protocol_error, other_error}
use brain_sdk.Mux.{Answer, ok, raises}

-- `has_target` says that host, port and configuration are there to dial a replacement with.
pub record Pool {ℓ} (Client : Type ℓ) : Type ℓ where
  pub clients : List Client
  pub counter : ℕ
  pub has_target : Bool

-- The pool as it is built, from clients alone or by `connect_with`.
abbrev pub new_pool {ℓ} : {Client : Type ℓ} → List Client → Bool → Pool Client
new_pool clients has_target = record { clients = clients; counter = 0; has_target = has_target }

abbrev pub size {ℓ} : {Client : Type ℓ} → Pool Client → ℕ
size pool = length pool.clients

-- `next(self._counter)`
abbrev pub advance {ℓ} : {Client : Type ℓ} → Pool Client → Pool Client
advance pool = record {
  clients = pool.clients;
  counter = suc pool.counter;
  has_target = pool.has_target;
}

-- `idx % len(clients)` and the member there; without a member the modulus is a ZeroDivisionError.
abbrev pub at_index {ℓ} : {Client : Type ℓ} → Option Client → Answer Client
at_index none = raises other_error
at_index (some client) = ok client

abbrev pub slot {ℓ} : {Client : Type ℓ} → Pool Client → ℕ
slot pool = pool.counter % length pool.clients

unfoldable pub get {ℓ} : {Client : Type ℓ} → Pool Client → Answer Client × Pool Client
get pool = (at_index (get_elem? pool.clients (slot pool)), advance pool)

abbrev pub replace {ℓ} : {Client : Type ℓ} → ℕ → Client → Pool Client → Pool Client
replace i client pool = record {
  clients = set pool.clients i client;
  counter = pool.counter;
  has_target = pool.has_target;
}

module _ {ℓ} {Client : Type ℓ} (is_closed : Client → Bool) where
  -- `BrainClient.connect_with`, and what becomes of the slot.
  abbrev pub reconnected : ℕ → Answer Client → Pool Client → Answer Client × Pool Client
  reconnected i (raises e) pool = (raises e, pool)
  reconnected i (ok fresh) pool = (ok fresh, replace i fresh pool)

  -- The member of the slot, if it lives or cannot be replaced, else the one that is dialled.
  abbrev pub healthy_at :
      ℕ → Answer Client → Option Client → Pool Client → Answer Client × Pool Client
  healthy_at i dialled none pool = (raises other_error, pool)
  healthy_at i dialled (some client) pool =
      if not (is_closed client)
      then (ok client, pool)
      else if not pool.has_target
      then (ok client, pool)
      else reconnected i dialled pool

  unfoldable pub get_healthy : Answer Client → Pool Client → Answer Client × Pool Client
  get_healthy dialled pool =
      healthy_at (slot pool) dialled (get_elem? pool.clients (slot pool)) (advance pool)

-- What `connect_with` did: its answer, and the clients that it closed again, in order.
pub record Opening {ℓ} (Client : Type ℓ) : Type ℓ where
  pub answer : Answer (Pool Client)
  pub closed : List Client

module _ {ℓ} {Client : Type ℓ} (dial : ℕ → Answer Client) where
  abbrev pub open_next :
      List Client → Answer Client → (List Client → Opening Client) → Opening Client
  open_next clients (raises e) further = record { answer = raises e; closed = clients }
  open_next clients (ok client) further = further (clients ++ (client ∷ []))

  -- The generator that `clients.extend` runs, with the count of members to go; `dial n` is what the
  -- n-th dialling gives.
  unfoldable pub open_members : ℕ → List Client → Opening Client
  open_members zero clients = record { answer = ok (new_pool clients true); closed = [] }
  open_members (suc count) clients = open_next clients (dial (length clients)) (open_members count)

  unfoldable pub connect_with : ℕ → Opening Client
  connect_with count =
      if ltb count 1
      then record { answer = raises protocol_error; closed = [] }
      else open_members count []

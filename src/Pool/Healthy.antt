-- ===== src/Pool/Healthy.antt =====
-- python/src/brain_db_sdk/pool.py: the client that `get_healthy` hands out.
use brain_sdk.Prelude.{
  ℕ, zero, suc, ◌<◌, ◌≡◌, refl, sym, ap₂, subst, Bool, true, false, not, some, List, [], ◌∷◌, arith,
  length, length-set, get_elem?, set, Bool-cases, inl, inr, if◌then◌else◌,
}
use brain_sdk.Mux.{Answer, ok, raises}
use brain_sdk.Pool.Turns.{member}
use brain_sdk.Pool.{Pool, slot, get_healthy, healthy_at, reconnected, advance, size}

-- The client in hand lives and stands in the slot, or dialling failed and nothing was replaced.
abbrev pub Served {ℓ} :
    {Client : Type ℓ}
    → (Client → Bool)
    → Pool Client
    → Answer Client
    → Answer Client × Pool Client
    → Type ℓ
Served is_closed pool dialled (raises e, pool') =
    (dialled ≡ raises e) × (pool'.clients ≡ pool.clients)
Served is_closed pool dialled (ok client, pool') =
    (is_closed client ≡ false)
    × (get_elem? pool'.clients (slot pool) ≡ some client)
    × (size pool' ≡ size pool)

get_elem?-set {ℓ} :
    {A : Type ℓ} (xs : List A) (i : ℕ) (v : A) → i < length xs → get_elem? (set xs i v) i ≡ some v
get_elem?-set [] i v h = absurd (omega arith)
get_elem?-set (x ∷ xs) zero v h = refl
get_elem?-set (x ∷ xs) (suc i) v h = get_elem?-set xs i v (omega arith)

module _ {ℓ} {Client : Type ℓ} (is_closed : Client → Bool) (pool : Pool Client)
    (some_member : 0 < size pool) (target : pool.has_target ≡ true) where
  reconnected-Served :
      (dialled : Answer Client)
      → ((fresh : Client) → dialled ≡ ok fresh → is_closed fresh ≡ false)
      → Served is_closed pool dialled (reconnected is_closed (slot pool) dialled (advance pool))
  reconnected-Served (raises e) live = (refl, refl)
  reconnected-Served (ok fresh) live = (
    live fresh refl,
    get_elem?-set pool.clients (slot pool) fresh (omega arith),
    length-set pool.clients (slot pool) fresh,
  )

  served :
      (dialled : Answer Client) (client : Client)
      → get_elem? pool.clients (slot pool) ≡ some client
      → ((fresh : Client) → dialled ≡ ok fresh → is_closed fresh ≡ false)
      → Served is_closed pool dialled
          (healthy_at is_closed (slot pool) dialled (some client) (advance pool))
  served dialled client here live = elim (Bool-cases (is_closed client)) [
    | inl dead ↦
        subst (Served is_closed pool dialled) (sym (dialled_slot dead))
          (reconnected-Served dialled live)
    | inr alive ↦ rw alive (alive, here, refl)
  ]
    where
      dialled_slot :
          is_closed client ≡ true
          → healthy_at is_closed (slot pool) dialled (some client) (advance pool)
            ≡ reconnected is_closed (slot pool) dialled (advance pool)
      dialled_slot dead =
          ap₂
            (λ c t.
              if not c
              then (ok client, advance pool)
              else if not t
              then (ok client, advance pool)
              else reconnected is_closed (slot pool) dialled (advance pool))
            dead target

-- On a pool with members that knows where to dial, if a client that was just dialled is not
-- closed, `get_healthy` hands out a client that is not closed and stands in the slot whose turn it
-- is, and the pool keeps its size; or the dialling failed, its error is raised, and no member is
-- replaced.
pub get_healthy-Served {ℓ} :
    {Client : Type ℓ} (is_closed : Client → Bool) (pool : Pool Client) (dialled : Answer Client)
    → 0 < size pool
    → pool.has_target ≡ true
    → ((fresh : Client) → dialled ≡ ok fresh → is_closed fresh ≡ false)
    → Served is_closed pool dialled (get_healthy is_closed dialled pool)
unfolding get_healthy
get_healthy-Served is_closed pool dialled h target live =
    let (client, here) = member pool.clients (slot pool) (omega arith) in
    subst
      (λ o.
        Served is_closed pool dialled (healthy_at is_closed (slot pool) dialled o (advance pool)))
      (sym here) (served is_closed pool h target dialled client here live)

-- ===== src/Pool/Turns.antt =====
-- python/src/brain_db_sdk/pool.py: the turns of the clients.
use brain_sdk.Prelude.{
  ℕ, zero, suc, ◌%◌, ◌<◌, ◌≡◌, refl, ap, ap₂, ◌∙◌, Option, List, [], ◌∷◌, arith, length, get_elem?,
  Bool,
}
use brain_sdk.Mux.{ok}
use brain_sdk.Pool.{Pool, new_pool, get, at_index}

-- The pool after some calls of `get`.
abbrev pub after_gets {ℓ} : {Client : Type ℓ} → ℕ → Pool Client → Pool Client
after_gets zero pool = pool
after_gets (suc n) pool = (get (after_gets n pool)).1

unchanged {ℓ} :
    {Client : Type ℓ} (n : ℕ) (pool : Pool Client) → (after_gets n pool).clients ≡ pool.clients
unfolding get
unchanged zero pool = refl
unchanged (suc n) pool = unchanged n pool

counted {ℓ} :
    {Client : Type ℓ} (n : ℕ) (clients : List Client) (target : Bool)
    → (after_gets n (new_pool clients target)).counter ≡ n
unfolding get
counted zero clients target = refl
counted (suc n) clients target = ap suc (counted n clients target)

pub member {ℓ} :
    {A : Type ℓ} (xs : List A) (i : ℕ) → i < length xs → (x : A) × (get_elem? xs i ≡ Option.some x)
member [] i h = absurd (omega arith)
member (x ∷ xs) zero h = (x, refl)
member (x ∷ xs) (suc i) h = member xs i (omega arith)

-- From a new pool of any size but 0, the n-th call of `get`, from the 0-th, hands out the client
-- at the place n modulo the size.
pub get-nth {ℓ} :
    {Client : Type ℓ} (n : ℕ) (clients : List Client) (target : Bool)
    → 0 < length clients
    → (client : Client) × (get_elem? clients (n % length clients) ≡ Option.some client)
      × ((get (after_gets n (new_pool clients target))).0 ≡ ok client)
unfolding get
get-nth n clients target h =
    let (client, here) = member clients (n % length clients) (omega arith) in
    (
      client,
      here,
      ap₂ (λ cs k. at_index (get_elem? cs (k % length cs))) (unchanged n (new_pool clients target))
            (counted n clients target)
          ∙ ap at_index here,
    )

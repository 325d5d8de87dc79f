-- ===== src/Pool/Members.antt =====
-- python/src/brain_db_sdk/pool.py: the members that `connect_with` opens.
use brain_sdk.Prelude.{
  ℕ, zero, suc, ◌+◌, ◌<◌, ◌≡◌, ◌⊎◌, refl, subst, Bool-cases, inl, inr, ltb, true, List, [], ◌∷◌,
  ◌++◌, arith, length, length-append,
}
use brain_sdk.Errors.{protocol_error}
use brain_sdk.Mux.{Answer, ok, raises}
use brain_sdk.Pool.{Pool, new_pool, Opening, open_next, open_members, connect_with}

module _ {ℓ} {Client : Type ℓ} (dial : ℕ → Answer Client) where
  -- The clients are what the diallings from the n-th on gave, in order.
  abbrev pub Dialled : ℕ → List Client → Type ℓ
  Dialled n [] = Unit
  Dialled n (client ∷ clients) = (dial n ≡ ok client) × Dialled (suc n) clients

  -- A pool of what the diallings gave, and nothing closed; or an error: of the count, or of the first
  -- dialling that failed, where the clients of all before it are closed.
  abbrev pub AllOrNone : ℕ → Opening Client → Answer (Pool Client) → Type ℓ
  AllOrNone count o (ok pool) =
      Dialled 0 pool.clients
      × (length pool.clients ≡ count)
      × (pool ≡ new_pool pool.clients true)
      × (o.closed ≡ [])
  AllOrNone count o (raises e) =
      ((count ≡ 0) × (e ≡ protocol_error) × (o.closed ≡ []))
      ⊎ (Dialled 0 o.closed × (length o.closed < count) × (dial (length o.closed) ≡ raises e))

  Dialled-append :
      (n : ℕ) (clients : List Client) (client : Client)
      → Dialled n clients
      → dial (n + length clients) ≡ ok client
      → Dialled n (clients ++ (client ∷ []))
  Dialled-append n [] client h e =
      (subst (λ k. dial k ≡ ok client) (let s : n + 0 ≡ n = omega arith in s) e, tt)
  Dialled-append n (c ∷ clients) client h e = (
    h.0,
    Dialled-append (suc n) clients client h.1 (
        subst (λ k. dial k ≡ ok client)
          (let s : n + suc (length clients) ≡ suc n + length clients = omega arith in s) e),
  )

  open_next-AllOrNone :
      (count : ℕ) (clients : List Client) (r : Answer Client)
      (further : List Client → Opening Client)
      → dial (length clients) ≡ r
      → Dialled 0 clients
      → length clients < count
      → ((client : Client)
          → Dialled 0 (clients ++ (client ∷ []))
          → AllOrNone count
              (further (clients ++ (client ∷ [])))
              (further (clients ++ (client ∷ []))).answer)
      → AllOrNone count (open_next dial clients r further) (open_next dial clients r further).answer
  open_next-AllOrNone count clients (raises e) further r d few h = inr (d, few, r)
  open_next-AllOrNone count clients (ok client) further r d few h = h client (
      Dialled-append 0 clients client d (
        subst (λ k. dial k ≡ ok client)
          (let s : length clients ≡ 0 + length clients = omega arith in s) r))

  open_members-AllOrNone :
      (togo total : ℕ) (clients : List Client)
      → length clients + togo ≡ total
      → Dialled 0 clients
      → AllOrNone total (open_members dial togo clients) (open_members dial togo clients).answer
  unfolding open_members
  open_members-AllOrNone zero total clients h d = (d, omega (arith, h), refl, refl)
  open_members-AllOrNone (suc togo) total clients h d =
      open_next-AllOrNone total clients (dial (length clients)) (open_members dial togo) refl d
        (omega (arith, h))
        (λ client d'.
          open_members-AllOrNone togo total (clients ++ (client ∷ []))
            (omega (arith, h, length-append clients (client ∷ []))) d')

  -- `connect_with` returns a new pool that knows where to dial, of exactly as many clients as it
  -- was asked for, which are those that the diallings gave, in their order, and it closes none; or
  -- it was asked for none, and raises a `ProtocolError`; or it raises the error of the first
  -- dialling that failed, and has closed the clients that all the diallings before it gave.
  pub connect_with-AllOrNone :
      (count : ℕ) → AllOrNone count (connect_with dial count) (connect_with dial count).answer
  unfolding connect_with
  connect_with-AllOrNone count = elim (Bool-cases (ltb count 1)) [
    | inl few ↦ rw few (inl (ground arith, refl, refl))
    | inr enough ↦ rw enough (open_members-AllOrNone count count [] (omega arith) tt)
  ]

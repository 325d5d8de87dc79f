-- ===== src/Mux/StreamIds.antt =====
-- python/src/brain_db_sdk/mux.py: the ids that a connection hands out.
use brain_sdk.Prelude.{
  ℕ, zero, suc, ◌+◌, ◌*◌, ◌%◌, ◌^◌, ◌<◌, ◌≡◌, ◌≢◌, refl, ap, ◌∙◌, arith, leb, if◌then◌else◌,
}
use brain_sdk.Mux.{MuxConnection, init, take_stream_id}

-- The connection after some calls of `_take_stream_id`.
abbrev pub after_ids : ℕ → MuxConnection → MuxConnection
after_ids zero m = m
after_ids (suc n) m = (take_stream_id (after_ids n m)).1

next_id-mod :
    (n : ℕ)
    → (if leb (1 + 2 * (n % 2 ^ 31) + 2) 0xffff_ffff then 1 + 2 * (n % 2 ^ 31) + 2 else 1)
      ≡ 1 + 2 * (suc n % 2 ^ 31)
next_id-mod n = ground arith

-- The n-th id that a new connection hands out, from the 0-th, is 1 + 2 * (n mod 2^31).
pub take_stream_id-nth : (n : ℕ) → (take_stream_id (after_ids n init)).0 ≡ 1 + 2 * (n % 2 ^ 31)
unfolding take_stream_id
take_stream_id-nth zero = refl
take_stream_id-nth (suc n) =
    ap (λ k. if leb (k + 2) 0xffff_ffff then k + 2 else 1) (take_stream_id-nth n) ∙ next_id-mod n

-- The ids of a new connection are odd, so none is the handshake's, and fit the header's four
-- bytes, and those of any two of the first 2^31 requests, or of a later run of 2^31, differ.
pub take_stream_id-fresh :
    (n k : ℕ)
    → n < k
    → k < n + 2 ^ 31
    → ((take_stream_id (after_ids n init)).0 % 2 ≡ 1)
      × ((take_stream_id (after_ids n init)).0 < 2 ^ 32)
      × ((take_stream_id (after_ids n init)).0 ≢ (take_stream_id (after_ids k init)).0)
take_stream_id-fresh n k h near =
    rw (take_stream_id-nth n, take_stream_id-nth k) (omega arith, omega arith, λ e. clash e)
  where
    clash : 1 + 2 * (n % 2 ^ 31) ≡ 1 + 2 * (k % 2 ^ 31) → ⊥
    clash e = omega arith

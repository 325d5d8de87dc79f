-- ===== src/Wire/Crc32c/Linear.antt =====
-- python/src/brain_db_sdk/wire/crc32c.py: the algebra of the shift register over the polynomial.
use brain_sdk.Prelude.{
  ℕ, zero, suc, ◌+◌, ◌*◌, ◌/◌, ◌%◌, ◌^◌, ◌<◌, bit_xor, ◌≡◌, sym, ap, ◌∙◌, arith, ◌⊎◌, inl, inr,
}
use native.Mathlib.Nat.{pow-suc, zero-add, suc-add}
use native.Mathlib.Decide.{dec_lt}
use brain_sdk.Prelude.Bits.{bit_xor_half, bit_xor_parity, bit_xor_right_comm, bit_xor-lt}
use brain_sdk.Prelude.{bit_and-one}
use brain_sdk.Wire.Crc32c.{poly, shift_step, shift_steps}

pub even_step : (a : ℕ) → a % 2 ≡ 0 → shift_step a ≡ a / 2
unfolding shift_step
even_step a h = ground (arith, bit_and-one a)

pub odd_step : (a : ℕ) → a % 2 ≡ 1 → shift_step a ≡ bit_xor (a / 2) poly
unfolding shift_step
odd_step a h = ground (arith, bit_and-one a)

-- A step does not see the digits above the lowest: they only move down.
pub shift_step-bit_xor : (a h : ℕ) → shift_step (bit_xor a (h * 2)) ≡ bit_xor (shift_step a) h
shift_step-bit_xor a h = elim (parity a) [
  | inl even ↦
      even_step _ (omega (arith, bit_xor_parity a (h * 2)))
      ∙ halves
      ∙ ap (λ t. bit_xor t h) (sym (even_step a even))
  | inr odd ↦
      odd_step _ (omega (arith, bit_xor_parity a (h * 2)))
      ∙ ap (λ t. bit_xor t poly) halves
      ∙ bit_xor_right_comm (a / 2) h poly
      ∙ ap (λ t. bit_xor t h) (sym (odd_step a odd))
]
  where
    parity : (a : ℕ) → (a % 2 ≡ 0) ⊎ (a % 2 ≡ 1)
    parity a = omega arith

    halves : bit_xor a (h * 2) / 2 ≡ bit_xor (a / 2) h
    halves = bit_xor_half a (h * 2) ∙ ap (bit_xor (a / 2)) (omega arith)

pub shift_steps-bit_xor :
    (k a h : ℕ) → shift_steps k (bit_xor a (h * 2 ^ k)) ≡ bit_xor (shift_steps k a) h
unfolding shift_steps
shift_steps-bit_xor zero a h = ap (bit_xor a) (omega arith)
shift_steps-bit_xor (suc k) a h =
    ap (λ t. shift_steps k (shift_step (bit_xor a t))) (doubled h k)
    ∙ ap (shift_steps k) (shift_step-bit_xor a (h * 2 ^ k))
    ∙ shift_steps-bit_xor k (shift_step a) h
  where
    doubled : (h k : ℕ) → h * 2 ^ suc k ≡ h * 2 ^ k * 2
    doubled h k = rw (pow-suc 2 k) (omega arith)

pub shift_steps-add : (k l a : ℕ) → shift_steps (k + l) a ≡ shift_steps l (shift_steps k a)
unfolding shift_steps
shift_steps-add zero l a = rw zero-add
shift_steps-add (suc k) l a = rw suc-add (shift_steps-add k l (shift_step a))

pub shift_step-lt : (a : ℕ) → a < 2 ^ 32 → shift_step a < 2 ^ 32
shift_step-lt a h = elim (dec_lt 0 (a % 2)) [
  | yes odd ↦ rw (odd_step a (omega arith)) (bit_xor-lt 32 (a / 2) poly (omega arith) (omega arith))
  | no even ↦ rw (even_step a (omega arith)) (omega arith)
]

pub shift_steps-lt : (k a : ℕ) → a < 2 ^ 32 → shift_steps k a < 2 ^ 32
unfolding shift_steps
shift_steps-lt zero a h = h
shift_steps-lt (suc k) a h = shift_steps-lt k (shift_step a) (shift_step-lt a h)

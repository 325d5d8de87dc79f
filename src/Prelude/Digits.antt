-- ===== src/Prelude/Digits.antt =====
-- The operations on binary digits at variables: one equation for the lowest digit, from the
-- recursion that a native operation stands for, whatever it does on two digits.
use Prim.Native.Nat.{
  ℕ, zero, suc, ◌+◌, ◌*◌, ◌/◌, ◌%◌, ◌≤◌, ◌<◌, min, bit_and, bit_xor, digits, bitwise, differ,
  bit_and-bitwise, bit_xor-bitwise,
}
use mathlib.Core.Path.{◌≡◌, refl, sym, ap, ◌∙◌}
use native.Mathlib.Omega.{arith}

module _ (last : ℕ → ℕ) (on_digits : ℕ → ℕ → ℕ) where
  -- More rounds than the number has digits change nothing.
  spent : (rounds m : ℕ) → digits last on_digits rounds 0 m ≡ last m
  spent zero m = refl
  spent (suc rounds) m = refl

  rounds_agree :
      (r s n m : ℕ) → n ≤ r → n ≤ s → digits last on_digits r n m ≡ digits last on_digits s n m
  rounds_agree r s zero m _ _ = spent r m ∙ sym (spent s m)
  rounds_agree zero s (suc n) m h _ = absurd (omega arith)
  rounds_agree (suc r) zero (suc n) m _ h = absurd (omega arith)
  rounds_agree (suc r) (suc s) (suc n) m h k =
      ap (λ upper. upper * 2 + on_digits (suc n % 2) (m % 2))
        (rounds_agree r s (suc n / 2) (m / 2) (omega arith) (omega arith))

  bitwise-suc :
      (n m : ℕ)
      → bitwise last on_digits (suc n) m
        ≡ bitwise last on_digits (suc n / 2) (m / 2) * 2 + on_digits (suc n % 2) (m % 2)
  bitwise-suc n m =
      ap (λ upper. upper * 2 + on_digits (suc n % 2) (m % 2))
        (rounds_agree n (suc n / 2) (suc n / 2) (m / 2) (omega arith) (omega arith))

pub zero-bit_xor : (m : ℕ) → bit_xor 0 m ≡ m
zero-bit_xor m = bit_xor-bitwise 0 m

pub zero-bit_and : (m : ℕ) → bit_and 0 m ≡ 0
zero-bit_and m = bit_and-bitwise 0 m

pub bit_and_step : (n m : ℕ) → bit_and n m ≡ bit_and (n / 2) (m / 2) * 2 + min (n % 2) (m % 2)
bit_and_step zero m = omega (arith, zero-bit_and (m / 2), zero-bit_and m)
bit_and_step (suc n) m = omega (
  arith,
  bitwise-suc (λ _. zero) min n m,
  bit_and-bitwise (suc n / 2) (m / 2),
  bit_and-bitwise (suc n) m,
)

differ_digits : (x y : ℕ) → x < 2 → y < 2 → differ x y ≡ (x + y) % 2
differ_digits zero y _ below = omega arith
differ_digits (suc zero) zero _ _ = refl
differ_digits (suc zero) (suc zero) _ _ = refl
differ_digits (suc zero) (suc (suc y)) _ below = absurd (omega arith)
differ_digits (suc (suc x)) y below _ = absurd (omega arith)

pub bit_xor_step : (n m : ℕ) → bit_xor n m ≡ bit_xor (n / 2) (m / 2) * 2 + (n % 2 + m % 2) % 2
bit_xor_step zero m = omega (arith, zero-bit_xor (m / 2), zero-bit_xor m)
bit_xor_step (suc n) m = omega (
  arith,
  differ_digits (suc n % 2) (m % 2) (omega arith) (omega arith),
  bitwise-suc (λ b. b) differ n m,
  bit_xor-bitwise (suc n / 2) (m / 2),
  bit_xor-bitwise (suc n) m,
)

-- Masks.
bit_and-zero_within : (rounds n : ℕ) → n < rounds → bit_and n 0 ≡ 0
bit_and-zero_within zero n h = absurd (omega arith)
bit_and-zero_within (suc rounds) zero h = zero-bit_and 0
bit_and-zero_within (suc rounds) (suc n) h =
    bit_and_step (suc n) 0 ∙ omega (arith, bit_and-zero_within rounds (suc n / 2) (omega arith))

-- A mask with a further one below keeps one more digit.
pub bit_and_mask : (mask n : ℕ) → bit_and n (mask * 2 + 1) ≡ bit_and (n / 2) mask * 2 + n % 2
bit_and_mask mask n = bit_and_step n (mask * 2 + 1) ∙ omega (arith, ap (bit_and (n / 2)) half)
  where
    half : (mask * 2 + 1) / 2 ≡ mask
    half = omega arith

pub bit_and-one : (n : ℕ) → bit_and n 1 ≡ n % 2
bit_and-one n =
    omega (arith, bit_and_mask 0 n, bit_and-zero_within (suc (n / 2)) (n / 2) (omega arith))

bit_and-three : (n : ℕ) → bit_and n 3 ≡ n % 4
bit_and-three n = omega (arith, bit_and_mask 1 n, bit_and-one (n / 2))

pub bit_and-seven : (n : ℕ) → bit_and n 7 ≡ n % 8
bit_and-seven n = omega (arith, bit_and_mask 3 n, bit_and-three (n / 2))

bit_and_15 : (n : ℕ) → bit_and n 15 ≡ n % 16
bit_and_15 n = omega (arith, bit_and_mask 7 n, bit_and-seven (n / 2))

pub bit_and_31 : (n : ℕ) → bit_and n 0x1f ≡ n % 32
bit_and_31 n = omega (arith, bit_and_mask 15 n, bit_and_15 (n / 2))

bit_and_127 : (n : ℕ) → bit_and n 127 ≡ n % 128
bit_and_127 n = omega (arith, bit_and_mask 63 n, bit_and_mask 31 (n / 2), bit_and_31 (n / 2 / 2))

pub bit_and_255 : (n : ℕ) → bit_and n 0xff ≡ n % 256
bit_and_255 n = omega (arith, bit_and_mask 127 n, bit_and_127 (n / 2))

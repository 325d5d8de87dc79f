-- ===== src/Prelude/Bytes.antt =====
-- Byte lists: a byte is a number below 256, and `to_bytes` and `from_bytes` are Python's
-- `int.to_bytes` and `int.from_bytes` in big-endian order.
use Prim.Native.Nat.{ℕ, zero, suc, ◌+◌, ◌*◌, ◌/◌, ◌%◌, ◌^◌, ◌<◌}
use mathlib.Core.Path.{◌≡◌, refl, ap₂}
use mathlib.Core.List.{List, [], ◌∷◌}
use mathlib.Core.Logic.{◌↔◌}
use mathlib.Core.Bool.{Bool, true, false, ◌&&◌}
use brain_sdk.Prelude.Tests.{◌==◌}
use native.Mathlib.Omega.{arith}
use brain_sdk.Prelude.Lists.{length, All}

abbrev pub IsByte : ℕ → Type 0
IsByte b = b < 256

abbrev pub IsBytes : List ℕ → Type 0
IsBytes bs = All IsByte bs

-- The low `k` bytes of `n`, the highest first.
abbrev pub to_bytes : ℕ → ℕ → List ℕ
to_bytes zero n = []
to_bytes (suc k) n = n / 256 ^ k % 256 ∷ to_bytes k n

abbrev from_bytes_loop : ℕ → List ℕ → ℕ
from_bytes_loop acc [] = acc
from_bytes_loop acc (b ∷ bs) = from_bytes_loop (acc * 256 + b) bs

abbrev pub from_bytes : List ℕ → ℕ
from_bytes bs = from_bytes_loop 0 bs

pub length-to_bytes : (k n : ℕ) → length (to_bytes k n) ≡ k
length-to_bytes zero n = refl
length-to_bytes (suc k) n = omega (arith, length-to_bytes k n)

pub to_bytes-IsBytes : (k n : ℕ) → IsBytes (to_bytes k n)
to_bytes-IsBytes zero n = tt
to_bytes-IsBytes (suc k) n = (omega arith, to_bytes-IsBytes k n)

abbrev pub bytes_eq : List ℕ → List ℕ → Bool
bytes_eq [] [] = true
bytes_eq (x ∷ xs) (y ∷ ys) = x == y && bytes_eq xs ys
bytes_eq _ _ = false

pub bytes_eq_iff : (xs ys : List ℕ) → (bytes_eq xs ys ≡ true) ↔ (xs ≡ ys)
bytes_eq_iff [] [] = ground arith
bytes_eq_iff [] (y ∷ ys) = ground arith
bytes_eq_iff (x ∷ xs) [] = ground arith
bytes_eq_iff (x ∷ xs) (y ∷ ys) = ground (arith, bytes_eq_iff xs ys)

pub from_bytes-to_bytes_two : (n : ℕ) → n < 2 ^ 16 → from_bytes (to_bytes 2 n) ≡ n
from_bytes-to_bytes_two n h = omega arith

pub from_bytes-to_bytes_three : (n : ℕ) → n < 2 ^ 24 → from_bytes (to_bytes 3 n) ≡ n
from_bytes-to_bytes_three n h = omega arith

pub from_bytes-to_bytes_four : (n : ℕ) → n < 2 ^ 32 → from_bytes (to_bytes 4 n) ≡ n
from_bytes-to_bytes_four n h = omega arith

-- Reading a field of a known width and writing it again gives its bytes.
pub to_bytes-from_bytes_two :
    (bs : List ℕ) → length bs ≡ 2 → IsBytes bs → to_bytes 2 (from_bytes bs) ≡ bs
to_bytes-from_bytes_two [] e h = absurd (omega arith)
to_bytes-from_bytes_two (a ∷ []) e h = absurd (omega arith)
to_bytes-from_bytes_two (a ∷ b ∷ []) e h = ap₂ ◌∷◌ (omega arith) (ap₂ ◌∷◌ (omega arith) refl)
to_bytes-from_bytes_two (a ∷ b ∷ c ∷ bs) e h = absurd (omega arith)

pub to_bytes-from_bytes_three :
    (bs : List ℕ) → length bs ≡ 3 → IsBytes bs → to_bytes 3 (from_bytes bs) ≡ bs
to_bytes-from_bytes_three [] e h = absurd (omega arith)
to_bytes-from_bytes_three (a ∷ []) e h = absurd (omega arith)
to_bytes-from_bytes_three (a ∷ b ∷ []) e h = absurd (omega arith)
to_bytes-from_bytes_three (a ∷ b ∷ c ∷ []) e h =
    ap₂ ◌∷◌ (omega arith) (ap₂ ◌∷◌ (omega arith) (ap₂ ◌∷◌ (omega arith) refl))
to_bytes-from_bytes_three (a ∷ b ∷ c ∷ d ∷ bs) e h = absurd (omega arith)

pub to_bytes-from_bytes_four :
    (bs : List ℕ) → length bs ≡ 4 → IsBytes bs → to_bytes 4 (from_bytes bs) ≡ bs
to_bytes-from_bytes_four [] e h = absurd (omega arith)
to_bytes-from_bytes_four (a ∷ []) e h = absurd (omega arith)
to_bytes-from_bytes_four (a ∷ b ∷ []) e h = absurd (omega arith)
to_bytes-from_bytes_four (a ∷ b ∷ c ∷ []) e h = absurd (omega arith)
to_bytes-from_bytes_four (a ∷ b ∷ c ∷ d ∷ []) e h =
    ap₂ ◌∷◌ (omega arith)
      (ap₂ ◌∷◌ (omega arith) (ap₂ ◌∷◌ (omega arith) (ap₂ ◌∷◌ (omega arith) refl)))
to_bytes-from_bytes_four (a ∷ b ∷ c ∷ d ∷ x ∷ bs) e h = absurd (omega arith)

pub from_bytes-lt_two : (bs : List ℕ) → length bs ≡ 2 → IsBytes bs → from_bytes bs < 2 ^ 16
from_bytes-lt_two [] e h = absurd (omega arith)
from_bytes-lt_two (a ∷ []) e h = absurd (omega arith)
from_bytes-lt_two (a ∷ b ∷ []) e h = omega arith
from_bytes-lt_two (a ∷ b ∷ c ∷ bs) e h = absurd (omega arith)

pub from_bytes-lt_three : (bs : List ℕ) → length bs ≡ 3 → IsBytes bs → from_bytes bs < 2 ^ 24
from_bytes-lt_three [] e h = absurd (omega arith)
from_bytes-lt_three (a ∷ []) e h = absurd (omega arith)
from_bytes-lt_three (a ∷ b ∷ []) e h = absurd (omega arith)
from_bytes-lt_three (a ∷ b ∷ c ∷ []) e h = omega arith
from_bytes-lt_three (a ∷ b ∷ c ∷ d ∷ bs) e h = absurd (omega arith)

pub from_bytes-lt_four : (bs : List ℕ) → length bs ≡ 4 → IsBytes bs → from_bytes bs < 2 ^ 32
from_bytes-lt_four [] e h = absurd (omega arith)
from_bytes-lt_four (a ∷ []) e h = absurd (omega arith)
from_bytes-lt_four (a ∷ b ∷ []) e h = absurd (omega arith)
from_bytes-lt_four (a ∷ b ∷ c ∷ []) e h = absurd (omega arith)
from_bytes-lt_four (a ∷ b ∷ c ∷ d ∷ []) e h = omega arith
from_bytes-lt_four (a ∷ b ∷ c ∷ d ∷ x ∷ bs) e h = absurd (omega arith)

-- ===== src/Wire/Cbor/Progress.antt =====
-- python/src/brain_db_sdk/wire/cbor.py: the fuel of the scanner.
use brain_sdk.Prelude.{
  ℕ, zero, suc, ◌+◌, ◌-◌, ◌*◌, ◌/◌, ◌≤◌, ◌<◌, bit_and, ◌≢◌, inl, inr, Bool, true, false, List, [],
  ◌∷◌, arith, ltb, ◌==◌, if◌then◌else◌, length, drop, length-drop, Bool-cases,
}
use brain_sdk.Wire.Cbor.{
  out_of_fuel, Result, ok, err, ◌>>=◌, ◌>>◌, need, max_nesting_depth, Head, wide_arg, read_arg,
  read_head, Shape, done, skip, items, items_until_break, pairs_until_break, tagged, unreachable,
  shape, scan, scan_shape, scan_count, scan_break, scan_pairs, cbor_item_end,
}

-- The run was not cut off, and what it leaves is shorter than `n`.
abbrev pub Below : ℕ → Result (List ℕ) → Type 0
Below n (ok rest) = length rest < n
Below n (err e) = e ≢ out_of_fuel

abbrev HeadBelow : ℕ → Result Head → Type 0
HeadBelow n (ok h) = length h.rest < n
HeadBelow n (err e) = e ≢ out_of_fuel

wide_arg-HeadBelow :
    (major k : ℕ) (rest : List ℕ) → HeadBelow (suc (length rest)) (wide_arg major k rest)
unfolding wide_arg
wide_arg-HeadBelow major k rest = elim (Bool-cases (ltb (length rest) k)) [
  | inl e ↦ rw e (λ p. cc)
  | inr e ↦ rw e (omega (arith, length-drop k rest))
]

if_both {ℓ} :
    {A : Type ℓ} (P : A → Type 0) (b : Bool) (x y : A) → P x → P y → P (if b then x else y)
if_both P true x y hx hy = hx
if_both P false x y hx hy = hy

read_arg-HeadBelow :
    (major ai : ℕ) (rest : List ℕ) → HeadBelow (suc (length rest)) (read_arg major ai rest)
unfolding read_arg
read_arg-HeadBelow major ai rest =
    let P = HeadBelow (suc (length rest)) in
    let wide = λ (k : ℕ). wide_arg-HeadBelow major k rest in
    if_both P (ltb ai 24) _ _ (omega arith) (
      if_both P (ai == 24) _ _ (wide 1) (
        if_both P (ai == 25) _ _ (wide 2) (
          if_both P (ai == 26) _ _ (wide 4) (
            if_both P (ai == 27) _ _ (wide 8) (if_both P (ai == 31) _ _ (omega arith) (λ p. cc))))))

read_head-HeadBelow : (rest : List ℕ) → HeadBelow (length rest) (read_head rest)
unfolding read_head
read_head-HeadBelow [] = λ p. cc
read_head-HeadBelow (ib ∷ rest) = read_arg-HeadBelow (ib / 32) (bit_and ib 0x1f) rest

abbrev shape_rest : Shape → List ℕ
shape_rest (done rest) = rest
shape_rest (skip n rest) = rest
shape_rest (items n rest) = rest
shape_rest (items_until_break rest) = rest
shape_rest (pairs_until_break rest) = rest
shape_rest (tagged rest) = rest
shape_rest (unreachable m) = []

shape_rest-shape : (h : Head) → length (shape_rest (shape h)) ≤ length h.rest
unfolding shape
shape_rest-shape h = ground arith

bind-Below :
    (m : ℕ) (n : ℕ) (r : Result (List ℕ)) (f : List ℕ → Result (List ℕ))
    → Below m r
    → ((rest : List ℕ) → length rest < m → Below n (f rest))
    → Below n (r >>= f)
bind-Below m n (ok rest) f h k = k rest h
bind-Below m n (err e) f h k = λ p. h (cc)

Below-mono : {m n : ℕ} (r : Result (List ℕ)) → m ≤ n → Below m r → Below n r
Below-mono (ok rest) h b = omega arith
Below-mono (err e) h b = b

need-Below : (n k : ℕ) (rest : List ℕ) → length rest < n → Below n (need rest k >> ok (drop k rest))
need-Below n k rest h = elim (Bool-cases (ltb (length rest) k)) [
  | inl e ↦ rw e (λ p. cc)
  | inr e ↦ rw e (omega (arith, length-drop k rest))
]

head_then :
    (n : ℕ) (rest : List ℕ) (r : Result Head) (f : Head → Result (List ℕ))
    → HeadBelow (length rest) r
    → ((h : Head) → length h.rest < length rest → Below n (f h))
    → Below n (r >>= f)
head_then n rest (ok h) f b k = k h b
head_then n rest (err e) f b k = λ p. b (cc)

-- Fuel four times the number of bytes, and a little more at the inner calls, is enough.
mutual
  unfolding scan

  scan-Below :
      (fuel depth : ℕ) (rest : List ℕ)
      → 4 * length rest < fuel
      → Below (length rest) (scan fuel depth rest)
  scan-Below zero depth rest h = absurd (omega arith)
  scan-Below (suc fuel) depth rest h = elim (Bool-cases (ltb max_nesting_depth depth)) [
    | inl e ↦ rw e (λ p. cc)
    | inr e ↦ rw e (
        head_then (length rest) rest (read_head rest) (λ r. scan_shape fuel depth (shape r))
          (read_head-HeadBelow rest)
          (λ r hr.
            Below-mono (scan_shape fuel depth (shape r)) (omega (arith, shape_rest-shape r))
              (scan_shape-Below fuel depth (shape r) (omega (arith, shape_rest-shape r)))))
  ]

  scan_shape-Below :
      (fuel depth : ℕ) (s : Shape)
      → 4 * length (shape_rest s) + 2 < fuel
      → Below (suc (length (shape_rest s))) (scan_shape fuel depth s)
  scan_shape-Below fuel depth (done rest) h = omega arith
  scan_shape-Below fuel depth (skip n rest) h = need-Below _ n rest (omega arith)
  scan_shape-Below zero depth (items n rest) h = absurd (omega arith)
  scan_shape-Below zero depth (items_until_break rest) h = absurd (omega arith)
  scan_shape-Below zero depth (pairs_until_break rest) h = absurd (omega arith)
  scan_shape-Below zero depth (tagged rest) h = absurd (omega arith)
  scan_shape-Below zero depth (unreachable m) h = absurd (omega arith)
  scan_shape-Below (suc fuel) depth (items n rest) h =
      scan_count-Below fuel (depth + 1) n rest (omega arith)
  scan_shape-Below (suc fuel) depth (items_until_break rest) h =
      scan_break-Below fuel (depth + 1) rest (omega arith)
  scan_shape-Below (suc fuel) depth (pairs_until_break rest) h =
      scan_pairs-Below fuel (depth + 1) rest (omega arith)
  scan_shape-Below (suc fuel) depth (tagged rest) h =
      Below-mono (scan fuel (depth + 1) rest) (omega arith)
        (scan-Below fuel (depth + 1) rest (omega arith))
  scan_shape-Below (suc fuel) depth (unreachable m) h = λ p. cc

  scan_count-Below :
      (fuel depth n : ℕ) (rest : List ℕ)
      → 4 * length rest + 1 < fuel
      → Below (suc (length rest)) (scan_count fuel depth n rest)
  scan_count-Below fuel depth zero rest h = omega arith
  scan_count-Below zero depth (suc n) rest h = absurd (omega arith)
  scan_count-Below (suc fuel) depth (suc n) rest h =
      bind-Below _ _ (scan fuel depth rest) (scan_count fuel depth n)
        (scan-Below fuel depth rest (omega arith))
        (λ r hr.
          Below-mono (scan_count fuel depth n r) (omega arith)
            (scan_count-Below fuel depth n r (omega arith)))

  scan_break-Below :
      (fuel depth : ℕ) (rest : List ℕ)
      → 4 * length rest + 1 < fuel
      → Below (suc (length rest)) (scan_break fuel depth rest)
  scan_break-Below zero depth rest h = absurd (omega arith)
  scan_break-Below (suc fuel) depth [] h = λ p. cc
  scan_break-Below (suc fuel) depth (b ∷ rest) h = if_both (Below _) (b == 0xff) _ _ (omega arith) (
      bind-Below _ _ (scan fuel depth (b ∷ rest)) (scan_break fuel depth)
        (scan-Below fuel depth (b ∷ rest) (omega arith))
        (λ r hr.
          Below-mono (scan_break fuel depth r) (omega arith)
            (scan_break-Below fuel depth r (omega arith))))

  scan_pairs-Below :
      (fuel depth : ℕ) (rest : List ℕ)
      → 4 * length rest + 1 < fuel
      → Below (suc (length rest)) (scan_pairs fuel depth rest)
  scan_pairs-Below zero depth rest h = absurd (omega arith)
  scan_pairs-Below (suc fuel) depth [] h = λ p. cc
  scan_pairs-Below (suc fuel) depth (b ∷ rest) h = if_both (Below _) (b == 0xff) _ _ (omega arith) (
      bind-Below _ _ (scan fuel depth (b ∷ rest))
        (λ r. do r' ← scan fuel depth r; scan_pairs fuel depth r')
        (scan-Below fuel depth (b ∷ rest) (omega arith))
        (λ r hr.
          bind-Below _ _ (scan fuel depth r) (scan_pairs fuel depth)
            (scan-Below fuel depth r (omega arith))
            (λ r' hr'.
              Below-mono (scan_pairs fuel depth r') (omega arith)
                (scan_pairs-Below fuel depth r' (omega arith)))))

abbrev pub Measures : List ℕ → Result ℕ → Type 0
Measures bytes (ok n) = (0 < n) × (n ≤ length bytes)
Measures bytes (err e) = e ≢ out_of_fuel

-- The scan of any bytes ends: it is never cut off for lack of fuel. It raises, or gives a count of
-- bytes that is at least one and no more than there are.
pub cbor_item_end_total : (bytes : List ℕ) → Measures bytes (cbor_item_end bytes)
unfolding cbor_item_end
cbor_item_end_total bytes =
    go (scan (4 * length bytes + 4) 0 bytes) (scan-Below _ 0 bytes (omega arith))
  where
    go :
        (r : Result (List ℕ))
        → Below (length bytes) r
        → Measures bytes (r >>= λ rest. ok (length bytes - length rest))
    go (ok rest) h = (omega arith, omega arith)
    go (err e) h = h

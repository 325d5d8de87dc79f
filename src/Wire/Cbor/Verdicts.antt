-- ===== src/Wire/Cbor/Verdicts.antt =====
-- python/src/brain_db_sdk/wire/cbor.py: the scanner on the parts of an item, and whether the levels below
-- a depth fit.
use brain_sdk.Prelude.{
  ℕ, suc, ◌+◌, ◌*◌, ◌≤◌, ◌<◌, max, ◌≡◌, refl, ap, ◌∙◌, List, ◌++◌, append_assoc, arith, ltb, leb,
  lt→ltb, le→ltb, if◌then◌else◌, length, length-append, drop-append, Bool-cases, ltb→lt, inl, inr,
  false, true,
}
use brain_sdk.Wire.Cbor.{
  Result, ok, err, ◌>>=◌, nested_too_deep, max_nesting_depth, shape, scan, scan_shape, scan_count,
  read_head, Head, done, skip, items, tagged,
}
use brain_sdk.Wire.Cbor.Items.{
  Item, unsigned, negative, byte_string, text_string, array, map, tag, simple, half, single, double,
  head_bytes, count_items, count_entries, encode, encode_items, encode_entries, length-head_bytes,
}

-- From depth `depth`, `n` levels fit or do not.
abbrev pub verdict {ℓ} : {A : Type ℓ} → ℕ → ℕ → A → Result A
verdict depth n a = if leb (depth + n) (max_nesting_depth + 1) then ok a else err nested_too_deep

pub verdict_fits :
    (depth n : ℕ) (a : List ℕ) → depth + n ≤ max_nesting_depth + 1 → ok a ≡ verdict depth n a
verdict_fits depth n a h = rw (lt→leb h)
  where
    lt→leb : depth + n ≤ 129 → leb (depth + n) 129 ≡ true
    lt→leb h = ground arith

verdict_deep :
    (depth n : ℕ) (a : List ℕ)
    → max_nesting_depth + 1 < depth + n
    → err nested_too_deep ≡ verdict depth n a
verdict_deep depth n a h = rw (too_deep h)
  where
    too_deep : 129 < depth + n → leb (depth + n) 129 ≡ false
    too_deep h = ground arith

verdict-max_right :
    (depth m n : ℕ) (a : List ℕ) → depth + m ≤ 129 → verdict depth n a ≡ verdict depth (max m n) a
verdict-max_right depth m n a h = rw same
  where
    same : leb (depth + n) 129 ≡ leb (depth + max m n) 129
    same = ground arith

leb→le : (a b : ℕ) → leb a b ≡ true → a ≤ b
leb→le a b h = ground arith

leb→lt : (a b : ℕ) → leb a b ≡ false → b < a
leb→lt a b h = ground arith

verdict_then :
    (depth m n : ℕ) (a b : List ℕ) (f : List ℕ → Result (List ℕ))
    → f a ≡ verdict depth n b
    → (verdict depth m a >>= f) ≡ verdict depth (max m n) b
verdict_then depth m n a b f e = elim (Bool-cases (leb (depth + m) 129)) [
  | inl p ↦ rw p (e ∙ verdict-max_right depth m n b (leb→le _ _ p))
  | inr p ↦ rw p (verdict_deep depth (max m n) b (deeper (leb→lt _ _ p)))
]
  where
    deeper : 129 < depth + m → 129 < depth + max m n
    deeper h = ground arith

scan_head :
    (fuel depth : ℕ) (bytes : List ℕ) (h : Head)
    → depth ≤ max_nesting_depth
    → read_head bytes ≡ ok h
    → scan (suc fuel) depth bytes ≡ scan_shape fuel depth (shape h)
unfolding scan
scan_head fuel depth bytes h d e = rw (le→ltb max_nesting_depth depth d, e)

scan_deep :
    (fuel depth : ℕ) (bytes : List ℕ)
    → max_nesting_depth < depth
    → scan (suc fuel) depth bytes ≡ err nested_too_deep
unfolding scan
scan_deep fuel depth bytes d = rw (lt→ltb max_nesting_depth depth d)

-- An item of at least one level, by its head and what follows.
pub scan_by :
    (fuel depth n : ℕ) (bytes rest : List ℕ) (h : Head)
    → 0 < n
    → read_head bytes ≡ ok h
    → (depth ≤ max_nesting_depth → scan_shape fuel depth (shape h) ≡ verdict depth n rest)
    → scan (suc fuel) depth bytes ≡ verdict depth n rest
scan_by fuel depth n bytes rest h pos e k = elim (Bool-cases (ltb max_nesting_depth depth)) [
  | inl p ↦
      scan_deep fuel depth bytes (ltb→lt _ _ p) ∙ verdict_deep depth n rest (deeper (ltb→lt _ _ p))
  | inr p ↦ scan_head fuel depth bytes h (shallow p) e ∙ k (shallow p)
]
  where
    deeper : 128 < depth → 129 < depth + n
    deeper h = omega arith

    shallow : ltb 128 depth ≡ false → depth ≤ 128
    shallow h = ground arith

pub fits_one :
    (depth : ℕ) (rest : List ℕ) → depth ≤ max_nesting_depth → ok rest ≡ verdict depth 1 rest
fits_one depth rest d = verdict_fits depth 1 rest (omega arith)

pub one_down :
    (depth n : ℕ) (rest : List ℕ) → verdict (depth + 1) n rest ≡ verdict depth (suc n) rest
one_down depth n rest = rw same
  where
    same : depth + 1 + n ≡ depth + suc n
    same = omega arith

-- The scanner skips a string of the announced length.
pub scan_string :
    (fuel depth : ℕ) (bs rest : List ℕ)
    → scan_shape fuel depth (skip (length bs) (bs ++ rest)) ≡ ok rest
unfolding scan
scan_string fuel depth bs rest = rw (
  le→ltb (length (bs ++ rest)) (length bs) (omega (arith, length-append bs rest)),
  drop-append bs rest,
)

-- The steps of the scanner.
pub scan_done : (fuel depth : ℕ) (rest : List ℕ) → scan_shape fuel depth (done rest) ≡ ok rest
unfolding scan
scan_done fuel depth rest = refl

pub scan_none : (fuel depth : ℕ) (rest : List ℕ) → scan_count fuel depth 0 rest ≡ ok rest
unfolding scan
scan_none fuel depth rest = refl

pub scan_items :
    (fuel depth n : ℕ) (rest : List ℕ)
    → scan_shape (suc fuel) depth (items n rest) ≡ scan_count fuel (depth + 1) n rest
unfolding scan
scan_items fuel depth n rest = refl

pub scan-tagged :
    (fuel depth : ℕ) (rest : List ℕ)
    → scan_shape (suc fuel) depth (tagged rest) ≡ scan fuel (depth + 1) rest
unfolding scan
scan-tagged fuel depth rest = refl

pub scan_one_of :
    (fuel depth count m n : ℕ) (bytes between rest : List ℕ)
    → scan fuel depth bytes ≡ verdict depth m between
    → scan_count fuel depth count between ≡ verdict depth n rest
    → scan_count (suc fuel) depth (suc count) bytes ≡ verdict depth (max m n) rest
unfolding scan
scan_one_of fuel depth count m n bytes between rest first others =
    ap (λ r. r >>= scan_count fuel depth count) first
    ∙ verdict_then depth m n between rest (scan_count fuel depth count) others

pub length-behind :
    (major n : ℕ) (body rest : List ℕ)
    → length (body ++ rest) < length ((head_bytes major n ++ body) ++ rest)
length-behind major n body rest = omega (
  arith,
  length-head_bytes major n,
  ap length (append_assoc (head_bytes major n) body rest),
  length-append (head_bytes major n) (body ++ rest),
)

pub two_more : (c : ℕ) → 2 * suc c ≡ suc (suc (2 * c))
two_more c = omega arith

pub encode_nonempty : (v : Item) → 0 < length (encode v)
unfolding encode
encode_nonempty (unsigned n) = length-head_bytes 0 n
encode_nonempty (negative n) = length-head_bytes 1 n
encode_nonempty (byte_string bs) =
    omega (arith, length-head_bytes 2 (length bs), length-append (head_bytes 2 (length bs)) bs)
encode_nonempty (text_string bs) =
    omega (arith, length-head_bytes 3 (length bs), length-append (head_bytes 3 (length bs)) bs)
encode_nonempty (array xs) = omega (
  arith,
  length-head_bytes 4 (count_items xs),
  length-append (head_bytes 4 (count_items xs)) (encode_items xs),
)
encode_nonempty (map es) = omega (
  arith,
  length-head_bytes 5 (count_entries es),
  length-append (head_bytes 5 (count_entries es)) (encode_entries es),
)
encode_nonempty (tag n x) =
    omega (arith, length-head_bytes 6 n, length-append (head_bytes 6 n) (encode x))
encode_nonempty (simple n) = omega arith
encode_nonempty (half n) = omega arith
encode_nonempty (single n) = omega arith
encode_nonempty (double n) = omega arith

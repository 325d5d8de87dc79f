-- ===== src/Wire/Cbor/Nesting.antt =====
-- python/src/brain_db_sdk/wire/cbor.py: the scanner on the encoding of an item.
use brain_sdk.Prelude.{
  ℕ, zero, suc, ◌+◌, ◌-◌, ◌*◌, ◌≤◌, ◌<◌, max, ◌≡◌, refl, ap, ap₂, ◌∙◌, List, ◌++◌, append_assoc,
  arith, leb, if◌then◌else◌, length, length-append, Bool-cases, inl, inr,
}
use brain_sdk.Wire.Cbor.{
  ok, err, ◌>>=◌, nested_too_deep, max_nesting_depth, shape, scan, scan_count, cbor_item_end,
  read_head,
}
use brain_sdk.Wire.Cbor.Items.{
  Item, Items, Entries, unsigned, negative, byte_string, text_string, array, map, tag, simple, half,
  single, double, nil, cons, end, entry, head_bytes, count_items, count_entries, encode,
  encode_items, encode_entries, levels, levels_items, levels_entries, IsSized, AreSized,
  EntriesSized, read_head-head_bytes, read_short, read_two, read_four, read_eight,
}
use brain_sdk.Wire.Cbor.Verdicts.{
  verdict, verdict_fits, scan_by, fits_one, one_down, scan_string, scan_done, scan_none, scan_items,
  scan-tagged, scan_one_of, length-behind, two_more, encode_nonempty,
}

mutual
  unfolding encode levels IsSized shape

  scan-encode :
      (fuel depth : ℕ) (v : Item) (rest : List ℕ)
      → IsSized v
      → 4 * length (encode v ++ rest) < fuel
      → scan fuel depth (encode v ++ rest) ≡ verdict depth (levels v) rest
  scan-encode zero depth v rest z h = absurd (omega arith)
  scan-encode (suc fuel) depth (unsigned n) rest z h =
      scan_by fuel depth 1 _ rest _ (omega arith) (read_head-head_bytes 0 n rest z)
        (λ d. scan_done fuel depth rest ∙ fits_one depth rest d)
  scan-encode (suc fuel) depth (negative n) rest z h =
      scan_by fuel depth 1 _ rest _ (omega arith) (read_head-head_bytes 1 n rest z)
        (λ d. scan_done fuel depth rest ∙ fits_one depth rest d)
  scan-encode (suc fuel) depth (byte_string bs) rest z h =
      scan_by fuel depth 1 _ rest _ (omega arith)
        (ap read_head (append_assoc (head_bytes 2 (length bs)) bs rest)
          ∙ read_head-head_bytes 2 (length bs) (bs ++ rest) z)
        (λ d. scan_string fuel depth bs rest ∙ fits_one depth rest d)
  scan-encode (suc fuel) depth (text_string bs) rest z h =
      scan_by fuel depth 1 _ rest _ (omega arith)
        (ap read_head (append_assoc (head_bytes 3 (length bs)) bs rest)
          ∙ read_head-head_bytes 3 (length bs) (bs ++ rest) z)
        (λ d. scan_string fuel depth bs rest ∙ fits_one depth rest d)
  scan-encode (suc fuel) depth (simple n) rest z h =
      scan_by fuel depth 1 _ rest _ (omega arith) (read_short 7 n rest z)
        (λ d. scan_done fuel depth rest ∙ fits_one depth rest d)
  scan-encode (suc fuel) depth (half n) rest z h =
      scan_by fuel depth 1 _ rest _ (omega arith) (read_two 7 n rest z)
        (λ d. scan_done fuel depth rest ∙ fits_one depth rest d)
  scan-encode (suc fuel) depth (single n) rest z h =
      scan_by fuel depth 1 _ rest _ (omega arith) (read_four 7 n rest z)
        (λ d. scan_done fuel depth rest ∙ fits_one depth rest d)
  scan-encode (suc fuel) depth (double n) rest z h =
      scan_by fuel depth 1 _ rest _ (omega arith) (read_eight 7 n rest z)
        (λ d. scan_done fuel depth rest ∙ fits_one depth rest d)
  scan-encode (suc zero) depth (array xs) rest z h =
      absurd (omega (arith, length-behind 4 (count_items xs) (encode_items xs) rest))
  scan-encode (suc (suc fuel)) depth (array xs) rest z h =
      scan_by (suc fuel) depth (suc (levels_items xs)) _ rest _ (omega arith)
        (ap read_head (append_assoc (head_bytes 4 (count_items xs)) (encode_items xs) rest)
          ∙ read_head-head_bytes 4 (count_items xs) (encode_items xs ++ rest) z.0)
        (λ d.
          scan_items fuel depth (count_items xs) (encode_items xs ++ rest)
          ∙ scan_count-encode_items fuel (depth + 1) xs rest z.1 (omega arith)
              (omega (arith, length-behind 4 (count_items xs) (encode_items xs) rest))
          ∙ one_down depth (levels_items xs) rest)
  scan-encode (suc zero) depth (map es) rest z h =
      absurd (omega (arith, length-behind 5 (count_entries es) (encode_entries es) rest))
  scan-encode (suc (suc fuel)) depth (map es) rest z h =
      scan_by (suc fuel) depth (suc (levels_entries es)) _ rest _ (omega arith)
        (ap read_head (append_assoc (head_bytes 5 (count_entries es)) (encode_entries es) rest)
          ∙ read_head-head_bytes 5 (count_entries es) (encode_entries es ++ rest) z.0)
        (λ d.
          scan_items fuel depth (2 * count_entries es) (encode_entries es ++ rest)
          ∙ scan_count-encode_entries fuel (depth + 1) es rest z.1 (omega arith)
              (omega (arith, length-behind 5 (count_entries es) (encode_entries es) rest))
          ∙ one_down depth (levels_entries es) rest)
  scan-encode (suc zero) depth (tag n x) rest z h =
      absurd (omega (arith, length-behind 6 n (encode x) rest))
  scan-encode (suc (suc fuel)) depth (tag n x) rest z h =
      scan_by (suc fuel) depth (suc (levels x)) _ rest _ (omega arith)
        (ap read_head (append_assoc (head_bytes 6 n) (encode x) rest)
          ∙ read_head-head_bytes 6 n (encode x ++ rest) z.0)
        (λ d.
          scan-tagged fuel depth (encode x ++ rest)
          ∙ scan-encode fuel (depth + 1) x rest z.1
              (omega (arith, length-behind 6 n (encode x) rest))
          ∙ one_down depth (levels x) rest)

  scan_count-encode_items :
      (fuel depth : ℕ) (xs : Items) (rest : List ℕ)
      → AreSized xs
      → depth ≤ max_nesting_depth + 1
      → 4 * length (encode_items xs ++ rest) + 1 < fuel
      → scan_count fuel depth (count_items xs) (encode_items xs ++ rest)
        ≡ verdict depth (levels_items xs) rest
  scan_count-encode_items fuel depth nil rest z d h =
      scan_none fuel depth rest ∙ verdict_fits depth 0 rest (omega arith)
  scan_count-encode_items zero depth (cons x xs) rest z d h = absurd (omega arith)
  scan_count-encode_items (suc fuel) depth (cons x xs) rest z d h =
      ap (scan_count (suc fuel) depth (suc (count_items xs)))
        (append_assoc (encode x) (encode_items xs) rest)
      ∙ scan_one_of fuel depth (count_items xs) (levels x) (levels_items xs) _ _ rest
          (scan-encode fuel depth x (encode_items xs ++ rest) z.0
            (omega (arith, ap length (append_assoc (encode x) (encode_items xs) rest))))
          (scan_count-encode_items fuel depth xs rest z.1 d (
            omega (
              arith,
              encode_nonempty x,
              ap length (append_assoc (encode x) (encode_items xs) rest),
              length-append (encode x) (encode_items xs ++ rest),
            )))

  scan_count-encode_entries :
      (fuel depth : ℕ) (es : Entries) (rest : List ℕ)
      → EntriesSized es
      → depth ≤ max_nesting_depth + 1
      → 4 * length (encode_entries es ++ rest) + 1 < fuel
      → scan_count fuel depth (2 * count_entries es) (encode_entries es ++ rest)
        ≡ verdict depth (levels_entries es) rest
  scan_count-encode_entries fuel depth end rest z d h =
      scan_none fuel depth rest ∙ verdict_fits depth 0 rest (omega arith)
  scan_count-encode_entries zero depth (entry k v es) rest z d h = absurd (omega arith)
  scan_count-encode_entries (suc zero) depth (entry k v es) rest z d h = absurd (omega arith)
  scan_count-encode_entries (suc (suc fuel)) depth (entry k v es) rest z d h =
      ap₂ (scan_count (suc (suc fuel)) depth) (two_more (count_entries es)) whole
      ∙ scan_one_of (suc fuel) depth (suc (2 * count_entries es)) (levels k)
          (max (levels v) (levels_entries es)) _ _ rest
          (scan-encode (suc fuel) depth k (encode v ++ (encode_entries es ++ rest)) z.0
            (omega (arith, ap length whole)))
          (scan_one_of fuel depth (2 * count_entries es) (levels v) (levels_entries es) _ _ rest
            (scan-encode fuel depth v (encode_entries es ++ rest) z.1 (
              omega (
                arith,
                ap length whole,
                encode_nonempty k,
                length-append (encode k) (encode v ++ (encode_entries es ++ rest)),
              )))
            (scan_count-encode_entries fuel depth es rest z.2 d (
              omega (
                arith,
                ap length whole,
                encode_nonempty k,
                length-append (encode k) (encode v ++ (encode_entries es ++ rest)),
                encode_nonempty v,
                length-append (encode v) (encode_entries es ++ rest),
              ))))
    where
      whole :
          encode_entries (entry k v es) ++ rest
          ≡ encode k ++ (encode v ++ (encode_entries es ++ rest))
      whole =
          append_assoc (encode k) (encode v ++ encode_entries es) rest
          ∙ ap (λ t. encode k ++ t) (append_assoc (encode v) (encode_entries es) rest)

count_bytes :
    (n : ℕ) (bytes rest : List ℕ)
    → (verdict 0 n rest >>= λ r. ok (length (bytes ++ rest) - length r))
      ≡ (if leb n 129 then ok (length bytes) else err nested_too_deep)
count_bytes n bytes rest =
    rw zero_levels
      (elim (Bool-cases (leb n 129)) [ inl p ↦ rw (p, counted) refl | inr p ↦ rw p refl ])
  where
    zero_levels : 0 + n ≡ n
    zero_levels = omega arith

    counted : length (bytes ++ rest) - length rest ≡ length bytes
    counted = omega (arith, length-append bytes rest)

-- From an item of definite length, whose numbers fit their fields, with any bytes behind it, the
-- scanner reports the length of the item's encoding if the item has at most 129 levels, and
-- otherwise that it is nested too deeply.
pub cbor_item_end-encode :
    (v : Item) (rest : List ℕ)
    → IsSized v
    → cbor_item_end (encode v ++ rest) ≡ (
        if leb (levels v) (max_nesting_depth + 1)
        then ok (length (encode v))
        else err nested_too_deep)
unfolding cbor_item_end
cbor_item_end-encode v rest z =
    ap (λ m. m >>= λ r. ok (length (encode v ++ rest) - length r))
      (scan-encode (4 * length (encode v ++ rest) + 4) 0 v rest z (omega arith))
    ∙ count_bytes (levels v) (encode v) rest

-- ===== src/Wire/Cbor/Items.antt =====
-- CBOR data items of definite length and their encoding with the shortest heads (RFC 8949), as an
-- independent description of what the scanner walks over.
use brain_sdk.Prelude.{
  ℕ, suc, ◌+◌, ◌*◌, ◌/◌, ◌^◌, ◌<◌, max, bit_and, ◌≡◌, ap, ◌∙◌, List, [], ◌∷◌, ◌++◌, some, arith,
  ltb, lt→ltb, le→ltb, if◌then◌else◌, length, length-append, take-append_of, drop-append_of,
  Bool-cases, inl, inr, ltb→lt,
}
use brain_sdk.Prelude.Bytes.{to_bytes, from_bytes, length-to_bytes}
use brain_sdk.Prelude.{bit_and_31}
use brain_sdk.Wire.Cbor.{ok, wide_arg, read_arg, read_head}

-- `half`, `single` and `double` hold the bits of a float, and `simple` is false, true, null and
-- the like.
mutual
  pub data Item : Type 0 where
    unsigned : ℕ → Item
    negative : ℕ → Item
    byte_string : List ℕ → Item
    text_string : List ℕ → Item
    array : Items → Item
    map : Entries → Item
    tag : ℕ → Item → Item
    simple : ℕ → Item
    half : ℕ → Item
    single : ℕ → Item
    double : ℕ → Item

  pub data Items : Type 0 where
    nil : Items
    cons : Item → Items → Items

  pub data Entries : Type 0 where
    end : Entries
    entry : Item → Item → Entries → Entries

unfoldable pub head_bytes : ℕ → ℕ → List ℕ
head_bytes major n =
    if ltb n 24
    then (major * 32 + n) ∷ []
    else if ltb n (2 ^ 8)
    then (major * 32 + 24) ∷ to_bytes 1 n
    else if ltb n (2 ^ 16)
    then (major * 32 + 25) ∷ to_bytes 2 n
    else if ltb n (2 ^ 32)
    then (major * 32 + 26) ∷ to_bytes 4 n
    else (major * 32 + 27) ∷ to_bytes 8 n

abbrev pub count_items : Items → ℕ
count_items nil = 0
count_items (cons x xs) = suc (count_items xs)

abbrev pub count_entries : Entries → ℕ
count_entries end = 0
count_entries (entry k v es) = suc (count_entries es)

unfoldable mutual
  pub encode : Item → List ℕ
  encode (unsigned n) = head_bytes 0 n
  encode (negative n) = head_bytes 1 n
  encode (byte_string bs) = head_bytes 2 (length bs) ++ bs
  encode (text_string bs) = head_bytes 3 (length bs) ++ bs
  encode (array xs) = head_bytes 4 (count_items xs) ++ encode_items xs
  encode (map es) = head_bytes 5 (count_entries es) ++ encode_entries es
  encode (tag n x) = head_bytes 6 n ++ encode x
  encode (simple n) = (7 * 32 + n) ∷ []
  encode (half n) = (7 * 32 + 25) ∷ to_bytes 2 n
  encode (single n) = (7 * 32 + 26) ∷ to_bytes 4 n
  encode (double n) = (7 * 32 + 27) ∷ to_bytes 8 n

  pub encode_items : Items → List ℕ
  encode_items nil = []
  encode_items (cons x xs) = encode x ++ encode_items xs

  pub encode_entries : Entries → List ℕ
  encode_entries end = []
  encode_entries (entry k v es) = encode k ++ (encode v ++ encode_entries es)

-- The levels of an item: one, and those of the items within it.
unfoldable mutual
  pub levels : Item → ℕ
  levels (array xs) = suc (levels_items xs)
  levels (map es) = suc (levels_entries es)
  levels (tag n x) = suc (levels x)
  levels _ = 1

  pub levels_items : Items → ℕ
  levels_items nil = 0
  levels_items (cons x xs) = max (levels x) (levels_items xs)

  pub levels_entries : Entries → ℕ
  levels_entries end = 0
  levels_entries (entry k v es) = max (levels k) (max (levels v) (levels_entries es))

-- Every number and every count fits the eight bytes that a head has for it.
unfoldable mutual
  pub IsSized : Item → Type 0
  IsSized (unsigned n) = n < 2 ^ 64
  IsSized (negative n) = n < 2 ^ 64
  IsSized (byte_string bs) = length bs < 2 ^ 64
  IsSized (text_string bs) = length bs < 2 ^ 64
  IsSized (array xs) = (count_items xs < 2 ^ 64) × AreSized xs
  IsSized (map es) = (count_entries es < 2 ^ 64) × EntriesSized es
  IsSized (tag n x) = (n < 2 ^ 64) × IsSized x
  IsSized (simple n) = n < 24
  IsSized (half n) = n < 2 ^ 16
  IsSized (single n) = n < 2 ^ 32
  IsSized (double n) = n < 2 ^ 64

  pub AreSized : Items → Type 0
  AreSized nil = Unit
  AreSized (cons x xs) = IsSized x × AreSized xs

  pub EntriesSized : Entries → Type 0
  EntriesSized end = Unit
  EntriesSized (entry k v es) = IsSized k × IsSized v × EntriesSized es

-- The scanner reads back the head that was written.
wide_arg-append :
    (major k : ℕ) (field rest : List ℕ)
    → length field ≡ k
    → wide_arg major k (field ++ rest)
      ≡ ok (record { major = major; arg = some (from_bytes field); rest = rest })
unfolding wide_arg
wide_arg-append major k field rest e = rw (
  le→ltb (length (field ++ rest)) k (omega (arith, length-append field rest)),
  take-append_of k field rest e,
  drop-append_of k field rest e,
)

info : (major n : ℕ) → n < 32 → bit_and (major * 32 + n) 0x1f ≡ n
info major n h = omega (arith, bit_and_31 (major * 32 + n))

major_of : (major n : ℕ) → n < 32 → (major * 32 + n) / 32 ≡ major
major_of major n h = omega arith

read_initial :
    (major ai : ℕ) (rest : List ℕ)
    → ai < 32
    → read_head ((major * 32 + ai) ∷ rest) ≡ read_arg major ai rest
unfolding read_head
read_initial major ai rest h = rw (major_of major ai h, info major ai h)

wide_head :
    (major k n : ℕ) (rest : List ℕ)
    → from_bytes (to_bytes k n) ≡ n
    → wide_arg major k (to_bytes k n ++ rest)
      ≡ ok (record { major = major; arg = some n; rest = rest })
wide_head major k n rest e =
    wide_arg-append major k (to_bytes k n) rest (length-to_bytes k n)
    ∙ ap (λ (a : ℕ). ok (record { major = major; arg = some a; rest = rest })) e

abbrev pub Reads : ℕ → ℕ → List ℕ → List ℕ → Type 0
Reads major n bytes rest =
    read_head (bytes ++ rest) ≡ ok (record { major = major; arg = some n; rest = rest })

pub read_one :
    (major n : ℕ) (rest : List ℕ)
    → n < 2 ^ 8
    → Reads major n ((major * 32 + 24) ∷ to_bytes 1 n) rest
unfolding read_arg
read_one major n rest h =
    read_initial major 24 (to_bytes 1 n ++ rest) (omega arith)
    ∙ wide_head major 1 n rest (omega arith)

pub read_two :
    (major n : ℕ) (rest : List ℕ)
    → n < 2 ^ 16
    → Reads major n ((major * 32 + 25) ∷ to_bytes 2 n) rest
unfolding read_arg
read_two major n rest h =
    read_initial major 25 (to_bytes 2 n ++ rest) (omega arith)
    ∙ wide_head major 2 n rest (omega arith)

pub read_four :
    (major n : ℕ) (rest : List ℕ)
    → n < 2 ^ 32
    → Reads major n ((major * 32 + 26) ∷ to_bytes 4 n) rest
unfolding read_arg
read_four major n rest h =
    read_initial major 26 (to_bytes 4 n ++ rest) (omega arith)
    ∙ wide_head major 4 n rest (omega arith)

pub read_eight :
    (major n : ℕ) (rest : List ℕ)
    → n < 2 ^ 64
    → Reads major n ((major * 32 + 27) ∷ to_bytes 8 n) rest
unfolding read_arg
read_eight major n rest h =
    read_initial major 27 (to_bytes 8 n ++ rest) (omega arith)
    ∙ wide_head major 8 n rest (omega arith)

pub read_short : (major n : ℕ) (rest : List ℕ) → n < 24 → Reads major n ((major * 32 + n) ∷ []) rest
unfolding read_arg
read_short major n rest h = read_initial major n rest (omega arith) ∙ rw (lt→ltb n 24 h)

-- From the shortest head for a major type and a number below 2^64, with any bytes behind it, the
-- scanner reads that major type and number, and those bytes are left.
pub read_head-head_bytes :
    (major n : ℕ) (rest : List ℕ) → n < 2 ^ 64 → Reads major n (head_bytes major n) rest
unfolding head_bytes
read_head-head_bytes major n rest h = elim (Bool-cases (ltb n 24)) [
  | inl e ↦ rw e (read_short major n rest (ltb→lt _ _ e))
  | inr a ↦ rw a (elim (Bool-cases (ltb n (2 ^ 8))) [
    | inl e ↦ rw e (read_one major n rest (ltb→lt _ _ e))
    | inr b ↦ rw b (elim (Bool-cases (ltb n (2 ^ 16))) [
      | inl e ↦ rw e (read_two major n rest (ltb→lt _ _ e))
      | inr c ↦ rw c (elim (Bool-cases (ltb n (2 ^ 32))) [
        | inl e ↦ rw e (read_four major n rest (ltb→lt _ _ e))
        | inr d ↦ rw d (read_eight major n rest h)
      ])
    ])
  ])
]

pub length-head_bytes : (major n : ℕ) → 0 < length (head_bytes major n)
unfolding head_bytes
length-head_bytes major n = ground arith

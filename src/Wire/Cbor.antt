-- ===== src/Wire/Cbor.antt =====
-- python/src/brain_db_sdk/wire/cbor.py: the scanner that measures the first CBOR item of a payload.
-- An offset into the data is here the list of the bytes from that offset on.
pub mod Progress
pub mod Items
pub mod Nesting
pub mod Verdicts
mod Runs
use brain_sdk.Prelude.{
  ℕ, zero, suc, ◌+◌, ◌-◌, ◌*◌, ◌/◌, ◌<◌, bit_and, Bool, true, false, ◌||◌, Option, none, some, List,
  [], ◌∷◌, ltb, ◌==◌, if◌then◌else◌, length, take, drop,
}
use brain_sdk.Prelude.Bytes.{from_bytes}

-- `CborError` by its causes. `out_of_fuel` is no error of the program: the recursion of the model
-- was cut off.
pub data CborError : Type 0 where
  truncated : CborError
  nested_too_deep : CborError
  reserved_info : ℕ → CborError
  unreachable_major : ℕ → CborError
  out_of_fuel : CborError

infixl 5 ◌>>=◌ ◌>>◌
pub data Result {ℓ} (A : Type ℓ) : Type ℓ where
  ok : A → Result A
  err : CborError → Result A

abbrev pub ◌>>=◌ {ℓ κ} : {A : Type ℓ} {B : Type κ} → Result A → (A → Result B) → Result B
err e >>= _ = err e
ok a >>= f = f a

abbrev pub ◌>>◌ {ℓ} : {B : Type ℓ} → Result (Unit {0}) → Result B → Result B
m >> k = m >>= λ _. k

-- `need(i, k)`, where `rest` are the bytes from offset `i` on.
abbrev pub need : List ℕ → ℕ → Result (Unit {0})
need rest k = if ltb (length rest) k then err truncated else ok tt

abbrev pub max_nesting_depth : ℕ
max_nesting_depth = 128

-- The initial byte and its argument; an indefinite length has none.
pub record Head : Type 0 where
  pub major : ℕ
  pub arg : Option ℕ
  pub rest : List ℕ

-- An argument of `k` bytes.
pub wide_arg : ℕ → ℕ → List ℕ → Result Head
wide_arg major k rest = do
  need rest k
  ok (record { major = major; arg = some (from_bytes (take k rest)); rest = drop k rest })

pub read_arg : ℕ → ℕ → List ℕ → Result Head
unfolding wide_arg
read_arg major ai rest =
    if ltb ai 24
    then ok (record { major = major; arg = some ai; rest = rest })
    else if ai == 24
    then wide_arg major 1 rest
    else if ai == 25
    then wide_arg major 2 rest
    else if ai == 26
    then wide_arg major 4 rest
    else if ai == 27
    then wide_arg major 8 rest
    else if ai == 31
    then ok (record { major = major; arg = none; rest = rest })
    else err (reserved_info ai)

pub read_head : List ℕ → Result Head
read_head [] = err truncated
read_head (ib ∷ rest) = read_arg (ib / 32) (bit_and ib 0x1f) rest

-- What follows a head, by major type.
pub data Shape : Type 0 where
  done : List ℕ → Shape
  skip : ℕ → List ℕ → Shape
  items : ℕ → List ℕ → Shape
  items_until_break : List ℕ → Shape
  pairs_until_break : List ℕ → Shape
  tagged : List ℕ → Shape
  unreachable : ℕ → Shape

abbrev string_shape : Option ℕ → List ℕ → Shape
string_shape none rest = items_until_break rest
string_shape (some n) rest = skip n rest

abbrev array_shape : Option ℕ → List ℕ → Shape
array_shape none rest = items_until_break rest
array_shape (some n) rest = items n rest

-- A definite map of `n` entries is `2 * n` items: key and value in turn.
abbrev map_shape : Option ℕ → List ℕ → Shape
map_shape none rest = pairs_until_break rest
map_shape (some n) rest = items (2 * n) rest

pub shape : Head → Shape
shape h =
    if h.major == 0 || h.major == 1
    then done h.rest
    else if h.major == 7
    then done h.rest
    else if h.major == 2 || h.major == 3
    then string_shape h.arg h.rest
    else if h.major == 4
    then array_shape h.arg h.rest
    else if h.major == 5
    then map_shape h.arg h.rest
    else if h.major == 6
    then tagged h.rest
    else unreachable h.major

-- The bytes behind one item, behind `count` items, and behind the break that ends an indefinite
-- sequence of items or of pairs. Each call costs a unit of fuel.
unfoldable mutual
  pub scan : ℕ → ℕ → List ℕ → Result (List ℕ)
  scan zero depth rest = err out_of_fuel
  scan (suc fuel) depth rest =
      if ltb max_nesting_depth depth
      then err nested_too_deep
      else do h ← read_head rest; scan_shape fuel depth (shape h)

  pub scan_shape : ℕ → ℕ → Shape → Result (List ℕ)
  scan_shape fuel depth (done rest) = ok rest
  scan_shape fuel depth (skip n rest) = do need rest n; ok (drop n rest)
  scan_shape zero depth _ = err out_of_fuel
  scan_shape (suc fuel) depth (items n rest) = scan_count fuel (depth + 1) n rest
  scan_shape (suc fuel) depth (items_until_break rest) = scan_break fuel (depth + 1) rest
  scan_shape (suc fuel) depth (pairs_until_break rest) = scan_pairs fuel (depth + 1) rest
  scan_shape (suc fuel) depth (tagged rest) = scan fuel (depth + 1) rest
  scan_shape (suc fuel) depth (unreachable m) = err (unreachable_major m)

  pub scan_count : ℕ → ℕ → ℕ → List ℕ → Result (List ℕ)
  scan_count fuel depth zero rest = ok rest
  scan_count zero depth (suc n) rest = err out_of_fuel
  scan_count (suc fuel) depth (suc n) rest = do
    rest' ← scan fuel depth rest
    scan_count fuel depth n rest'

  pub scan_break : ℕ → ℕ → List ℕ → Result (List ℕ)
  scan_break zero depth rest = err out_of_fuel
  scan_break (suc fuel) depth [] = err truncated
  scan_break (suc fuel) depth (b ∷ rest) =
      let more = (do rest' ← scan fuel depth (b ∷ rest); scan_break fuel depth rest') in
      if b == 0xff then ok rest else more

  pub scan_pairs : ℕ → ℕ → List ℕ → Result (List ℕ)
  scan_pairs zero depth rest = err out_of_fuel
  scan_pairs (suc fuel) depth [] = err truncated
  scan_pairs (suc fuel) depth (b ∷ rest) =
      let more = do
        rest' ← scan fuel depth (b ∷ rest)
        rest'' ← scan fuel depth rest'
        scan_pairs fuel depth rest''
      in if b == 0xff then ok rest else more

-- `_cbor_item_end(data, 0)`: the number of bytes of the first item.
pub cbor_item_end : List ℕ → Result ℕ
cbor_item_end bytes = do rest ← scan (4 * length bytes + 4) 0 bytes; ok (length bytes - length rest)

-- ===== src/Wire/Value.antt =====
-- python/src/brain_db_sdk/wire/types.py: the values of a payload's map, and how the two methods of a payload
-- class write and read them. A whole number is a natural number here. A field is read at its
-- annotated type: a value of another type, which Python stores as it is, is `type_error`.
pub mod Entries
pub mod Rounding
use Prim.Native.String.{String}
use package.text.Mathlib.Text.{◌==◌}
use native.Mathlib.Decide.{dec_lt}
use native.Mathlib.Bridge.{le_prop}
use brain_sdk.Prelude.{
  ◌<◌, ℕ, Bool, Option, none, some, List, [], ◌∷◌, ◌≡◌, refl, ap, ◌∙◌, if◌then◌else◌,
}

-- What the CBOR library reads and writes; a map is the list of its entries in order. A float is the
-- 64 bits of the double.
mutual
  pub data Value : Type 0 where
    null : Value
    boolean : Bool → Value
    integer : ℕ → Value
    float : ℕ → Value
    text : String → Value
    bytes : List ℕ → Value
    array : Values → Value
    object : Fields → Value

  pub data Values : Type 0 where
    nil : Values
    cons : Value → Values → Values

  pub data Fields : Type 0 where
    end : Fields
    entry : String → Value → Fields → Fields

pub data Loaded {ℓ} (A : Type ℓ) : Type ℓ where
  ok : A → Loaded A
  key_error : String → Loaded A
  type_error : Loaded A
  cbor_error : Loaded A
  overflow_error : Loaded A

infixl 5 ◌>>=◌
abbrev pub ◌>>=◌ {ℓ κ} : {A : Type ℓ} {B : Type κ} → Loaded A → (A → Loaded B) → Loaded B
ok a >>= f = f a
key_error k >>= f = key_error k
type_error >>= f = type_error
cbor_error >>= f = cbor_error
overflow_error >>= f = overflow_error

abbrev pub find : String → Fields → Option Value
find k end = none
find k (entry j v rest) = if j == k then some v else find k rest

-- `m["k"]`, `m.get("k", default)`, and what stands there at its type.
abbrev pub read_found {ℓ} : {A : Type ℓ} → (Value → Loaded A) → Loaded A → Option Value → Loaded A
read_found read missing none = missing
read_found read missing (some v) = read v

abbrev pub field {ℓ} : {A : Type ℓ} → (Value → Loaded A) → String → Fields → Loaded A
field read k m = read_found read (key_error k) (find k m)

abbrev pub field_or {ℓ} : {A : Type ℓ} → (Value → Loaded A) → A → String → Fields → Loaded A
field_or read default k m = read_found read (ok default) (find k m)

abbrev pub read_bool : Value → Loaded Bool
read_bool (boolean b) = ok b
read_bool _ = type_error

abbrev pub read_integer : Value → Loaded ℕ
read_integer (integer n) = ok n
read_integer _ = type_error

abbrev pub read_float : Value → Loaded ℕ
read_float (float b) = ok b
read_float _ = type_error

abbrev pub read_text : Value → Loaded String
read_text (text s) = ok s
read_text _ = type_error

abbrev pub read_bytes : Value → Loaded (List ℕ)
read_bytes (bytes bs) = ok bs
read_bytes _ = type_error

abbrev pub read_optional {ℓ} : {A : Type ℓ} → (Value → Loaded A) → Value → Loaded (Option A)
read_optional read null = ok none
read_optional read (boolean b) = read (boolean b) >>= λ a. ok (some a)
read_optional read (integer n) = read (integer n) >>= λ a. ok (some a)
read_optional read (float b) = read (float b) >>= λ a. ok (some a)
read_optional read (text s) = read (text s) >>= λ a. ok (some a)
read_optional read (bytes bs) = read (bytes bs) >>= λ a. ok (some a)
read_optional read (array vs) = read (array vs) >>= λ a. ok (some a)
read_optional read (object m) = read (object m) >>= λ a. ok (some a)

abbrev pub or_null {ℓ} : {A : Type ℓ} → (A → Value) → Option A → Value
or_null write none = null
or_null write (some a) = write a

abbrev pub write_all {ℓ} : {A : Type ℓ} → (A → Value) → List A → Values
write_all write [] = nil
write_all write (a ∷ xs) = cons (write a) (write_all write xs)

abbrev pub write_list {ℓ} : {A : Type ℓ} → (A → Value) → List A → Value
write_list write xs = array (write_all write xs)

abbrev pub read_all {ℓ} : {A : Type ℓ} → (Value → Loaded A) → Values → Loaded (List A)
read_all read nil = ok []
read_all read (cons v vs) = do a ← read v; xs ← read_all read vs; ok (a ∷ xs)

abbrev pub read_list {ℓ} : {A : Type ℓ} → (Value → Loaded A) → Value → Loaded (List A)
read_list read (array vs) = read_all read vs
read_list read _ = type_error

-- `if value is not None: m["k"] = …` and `if value: m["k"] = …`, of a list and of a truth value.
abbrev pub entry_unless_none {ℓ} : {A : Type ℓ} → String → (A → Value) → Option A → Fields → Fields
entry_unless_none k write none rest = rest
entry_unless_none k write (some a) rest = entry k (write a) rest

abbrev pub entry_unless_empty {ℓ} : {A : Type ℓ} → String → (A → Value) → List A → Fields → Fields
entry_unless_empty k write [] rest = rest
entry_unless_empty k write (a ∷ xs) rest = entry k (write_list write (a ∷ xs)) rest

abbrev pub entry_if : Bool → String → Value → Fields → Fields
entry_if present k v rest = if present then entry k v rest else rest

abbrev pub read_object {ℓ} : {A : Type ℓ} → (Fields → Loaded A) → Value → Loaded A
read_object from_map (object m) = from_map m
read_object from_map _ = type_error

abbrev pub loaded_as {ℓ κ} : {A : Type ℓ} {B : Type κ} → (A → B) → Loaded A → Loaded B
loaded_as f r = r >>= λ a. ok (f a)

-- `{tag: value}`, and `((variant, value),) = v.items()`, or the tag alone.
abbrev pub tagged : String → Value → Value
tagged tag v = object (entry tag v end)

abbrev pub read_tagged {ℓ} : {A : Type ℓ} → (String → Value → Loaded A) → Value → Loaded A
read_tagged read (object (entry tag v end)) = read tag v
read_tagged read _ = type_error

abbrev pub read_tagged_or_name {ℓ} :
    {A : Type ℓ} → (String → Loaded A) → (String → Value → Loaded A) → Value → Loaded A
read_tagged_or_name named read (text tag) = named tag
read_tagged_or_name named read (object (entry tag v end)) = read tag v
read_tagged_or_name named read _ = type_error

-- Lists read back what was written, if their elements do.
pub read_all-write_all {ℓ} :
    {A : Type ℓ} (write : A → Value) (read : Value → Loaded A)
    → ((a : A) → read (write a) ≡ ok a)
    → (xs : List A) → read_all read (write_all write xs) ≡ ok xs
read_all-write_all write read h [] = refl
read_all-write_all write read h (a ∷ xs) =
    ap (λ r. r >>= λ b. read_all read (write_all write xs) >>= λ bs. ok (b ∷ bs)) (h a)
    ∙ ap (λ r. r >>= λ bs. ok (a ∷ bs)) (read_all-write_all write read h xs)

pub read_integers : (ns : List ℕ) → read_all read_integer (write_all integer ns) ≡ ok ns
read_integers = read_all-write_all integer read_integer (λ n. refl)

pub read_texts : (ss : List String) → read_all read_text (write_all text ss) ≡ ok ss
read_texts = read_all-write_all text read_text (λ s. refl)

pub read_byte_strings : (bs : List (List ℕ)) → read_all read_bytes (write_all bytes bs) ≡ ok bs
read_byte_strings = read_all-write_all bytes read_bytes (λ b. refl)

-- An optional value reads back, if a present one does and is not written xs null.
pub read_optional_text : (o : Option String) → read_optional read_text (or_null text o) ≡ ok o
read_optional_text none = refl
read_optional_text (some s) = refl

pub read_optional_integer : (o : Option ℕ) → read_optional read_integer (or_null integer o) ≡ ok o
read_optional_integer none = refl
read_optional_integer (some n) = refl

pub read_optional_float : (o : Option ℕ) → read_optional read_float (or_null float o) ≡ ok o
read_optional_float none = refl
read_optional_float (some b) = refl

pub read_floats : (bs : List ℕ) → read_all read_float (write_all float bs) ≡ ok bs
read_floats = read_all-write_all float read_float (λ b. refl)

pub read_optional_bytes : (o : Option (List ℕ)) → read_optional read_bytes (or_null bytes o) ≡ ok o
read_optional_bytes none = refl
read_optional_bytes (some bs) = refl

pub read_optional_integers :
    (o : Option (List ℕ))
    → read_optional (read_list read_integer) (or_null (write_list integer) o) ≡ ok o
read_optional_integers none = refl
read_optional_integers (some ns) = ap (λ r. r >>= λ a. ok (some a)) (read_integers ns)

pub read_optional_byte_strings :
    (o : Option (List (List ℕ)))
    → read_optional (read_list read_bytes) (or_null (write_list bytes) o) ≡ ok o
read_optional_byte_strings none = refl
read_optional_byte_strings (some bs) = ap (λ r. r >>= λ a. ok (some a)) (read_byte_strings bs)

-- A byte in an array of bytes; `bytes(…)` refuses any other number.
pub record Octet : Type 0 where
  pub value : ℕ
  pub small : value < 256

abbrev pub octet_value : Octet → Value
octet_value b = integer b.value

abbrev pub octet_of : (n : ℕ) → Dec (n < 256) → Loaded Octet
octet_of n (yes h) = ok (record { value = n; small = h })
octet_of n (no h) = type_error

abbrev pub read_octet : Value → Loaded Octet
read_octet (integer n) = octet_of n (dec_lt n 256)
read_octet _ = type_error

octet_of_lem : (b : Octet) (d : Dec (b.value < 256)) → octet_of b.value d ≡ ok b
octet_of_lem b (yes h) = ap (λ p. ok (record { value = b.value; small = p })) (le_prop h b.small)
octet_of_lem b (no h) = absurd (h b.small)

read_octet_lem : (b : Octet) → read_octet (octet_value b) ≡ ok b
read_octet_lem b = octet_of_lem b (dec_lt b.value 256)

pub read_octets : (bs : List Octet) → read_all read_octet (write_all octet_value bs) ≡ ok bs
read_octets = read_all-write_all octet_value read_octet read_octet_lem

pub read_octet_lists :
    (xs : List (List Octet))
    → read_all (read_list read_octet) (write_all (write_list octet_value) xs) ≡ ok xs
read_octet_lists = read_all-write_all (write_list octet_value) (read_list read_octet) read_octets

-- A pair of a number and a float is an array of the two.
abbrev pub lane_value : ℕ × ℕ → Value
lane_value (name, score) = array (cons (integer name) (cons (float score) nil))

abbrev pub read_lane : Value → Loaded (ℕ × ℕ)
read_lane (array (cons (integer name) (cons (float score) rest))) = ok (name, score)
read_lane _ = type_error

pub read_lanes : (xs : List (ℕ × ℕ)) → read_all read_lane (write_all lane_value xs) ≡ ok xs
read_lanes = read_all-write_all lane_value read_lane (λ p. refl)

-- ===== src/Wire/Value/Entries.antt =====
-- python/src/brain_db_sdk/wire/types.py: how the fields of a map are read when entries of it may be left out.
use Prim.Native.String.{String}
use package.text.Mathlib.Text.{◌==◌}
use brain_sdk.Prelude.{
  ℕ, ◌==◌ as ◌≟◌, ==_iff, Bool-cases, inl, inr, not, ◌≡◌, refl, ap, ◌∙◌, Option, none, some, List,
  [], ◌∷◌, Bool, true, false,
}
use brain_sdk.Wire.Value.{
  Value, Fields, Loaded, ◌>>=◌, entry, ok, find, read_found, write_all, read_all, read_list,
  read_optional, entry_unless_none, entry_unless_empty, entry_if, read_bool, boolean, read_integer,
  integer, read_integers, read_floats, read_texts, read_byte_strings, read_octets,
  read_optional_text, read_optional_integer, read_optional_float, read_optional_bytes,
  read_optional_integers, read_optional_byte_strings,
}

-- A field that was read, in the chain of a `from_map`.
pub bound {ℓ κ} :
    {A : Type ℓ} {B : Type κ} (f : A → Loaded B) {r : Loaded A} {a : A} {b : B}
    → r ≡ ok a
    → f a ≡ ok b
    → (r >>= f) ≡ ok b
bound f e e' = ap (λ x. x >>= f) e ∙ e'

-- A search passes an entry of another key, whether it is there or not.
pub past_none :
    {A : Type 0} (j k : String) (write : A → Value) (o : Option A) (rest : Fields)
    → (j == k) ≡ false
    → find k (entry_unless_none j write o rest) ≡ find k rest
past_none j k write none rest other = refl
past_none j k write (some a) rest other = rw other refl

pub past_empty :
    {A : Type 0} (j k : String) (write : A → Value) (xs : List A) (rest : Fields)
    → (j == k) ≡ false
    → find k (entry_unless_empty j write xs rest) ≡ find k rest
past_empty j k write [] rest other = refl
past_empty j k write (a ∷ xs) rest other = rw other refl

-- Behind it there is no other entry of the key.
pub own_none :
    {A : Type 0} (k : String) (write : A → Value) (read : Value → Loaded A) (o : Option A)
    (rest : Fields)
    → (k == k) ≡ true
    → find k rest ≡ none
    → ((a : A) → read_optional read (write a) ≡ ok (some a))
    → read_found (read_optional read) (ok none) (find k (entry_unless_none k write o rest)) ≡ ok o
own_none k write read none rest same e h = rw e refl
own_none k write read (some a) rest same e h = rw same (h a)

pub own_empty :
    {A : Type 0} (k : String) (write : A → Value) (read : Value → Loaded A) (xs : List A)
    (rest : Fields)
    → (k == k) ≡ true
    → find k rest ≡ none
    → read_all read (write_all write xs) ≡ ok xs
    → read_found (read_list read) (ok []) (find k (entry_unless_empty k write xs rest)) ≡ ok xs
own_empty k write read [] rest same e h = rw e refl
own_empty k write read (a ∷ xs) rest same e h = rw same h

pub past_if :
    (j k : String) (present : Bool) (w : Value) (rest : Fields)
    → (j == k) ≡ false
    → find k (entry_if present j w rest) ≡ find k rest
past_if j k false w rest other = refl
past_if j k true w rest other = rw other refl

-- `false` and 0 are the defaults of the fields that are left out at them.
pub own_if_bool :
    (k : String) (b : Bool) (rest : Fields)
    → (k == k) ≡ true
    → find k rest ≡ none
    → read_found read_bool (ok false) (find k (entry_if b k (boolean b) rest)) ≡ ok b
own_if_bool k false rest same e = rw e refl
own_if_bool k true rest same e = rw same refl

pub own_if_integer :
    (k : String) (n : ℕ) (rest : Fields)
    → (k == k) ≡ true
    → find k rest ≡ none
    → read_found read_integer (ok 0) (find k (entry_if (not (n ≟ 0)) k (integer n) rest)) ≡ ok n
own_if_integer k n rest same e = elim (Bool-cases (n ≟ 0)) [
  | inl is_zero ↦ rw ((==_iff n 0).0 is_zero, e) refl
  | inr not_zero ↦ rw (not_zero, same) refl
]

pub ruleset entries = (
  past_none, past_empty, past_if, own_none, own_empty, own_if_bool, own_if_integer, read_integers,
  read_floats, read_texts, read_byte_strings, read_octets, read_optional_text,
  read_optional_integer, read_optional_float, read_optional_bytes, read_optional_integers,
  read_optional_byte_strings,
)

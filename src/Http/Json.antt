-- ===== src/Http/Json.antt =====
-- python/src/brain_db_sdk/http: what `json.loads` returns, and the two ways to read a key of it. The numbers
-- are a parameter, and a text is the list of its characters' numbers.
use Prim.Native.String.{String}
use package.text.Mathlib.Text.{◌==◌}
use brain_sdk.Prelude.{ℕ, Bool, Option, none, some, List, if◌then◌else◌}
use brain_sdk.Wire.Value.{Loaded, ok, key_error, type_error}

mutual
  pub data Json (N : Type 0) : Type 0 where
    null : Json N
    boolean : Bool → Json N
    number : N → Json N
    string : List ℕ → Json N
    array : Elements N → Json N
    object : Members N → Json N

  pub data Elements (N : Type 0) : Type 0 where
    nil : Elements N
    cons : Json N → Elements N → Elements N

  pub data Members (N : Type 0) : Type 0 where
    end : Members N
    entry : String → Json N → Members N → Members N

module _ {N : Type 0} where
  abbrev pub lookup_member : String → Members N → Option (Json N)
  lookup_member k end = none
  lookup_member k (entry j v rest) = if j == k then some v else lookup_member k rest

  abbrev pub or_key_error : String → Option (Json N) → Loaded (Json N)
  or_key_error k none = key_error k
  or_key_error k (some v) = ok v

  abbrev pub or_none : Option (Json N) → Json N
  or_none none = null
  or_none (some v) = v

  -- `d["k"]`, which fails on what is no dictionary.
  abbrev pub item_at : String → Json N → Loaded (Json N)
  item_at k (object m) = or_key_error k (lookup_member k m)
  item_at k _ = type_error

  -- `d.get("k")`.
  abbrev pub get_at : String → Json N → Loaded (Json N)
  get_at k (object m) = ok (or_none (lookup_member k m))
  get_at k _ = type_error

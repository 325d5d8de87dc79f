-- ===== src/Wire/Payload.antt =====
-- python/src/brain_db_sdk/wire/types.py: payloads, their maps, and the two functions between a payload
-- and its bytes. A payload's classes are in the child modules, each with its `plain_map`, which is
-- `to_map` before `round_f32`, and its `from_map`.
-- A whole number is a natural number here. A field is read at its annotated type: a value of another
-- type, which Python stores as it is, is `type_error`.
pub mod Handshake
pub mod Keepalive
pub mod Trace
pub mod Graph
pub mod Schema
pub mod Transactions
pub mod Stages
pub mod GraphEvents
pub mod Capabilities
pub mod Entities
pub mod Schemas
pub mod Lifecycle
pub mod Spaces
pub mod Pages
pub mod Subscriptions
pub mod Plans
pub mod Queries
pub mod Relations
pub mod Statements
pub mod RecallTraces
pub mod Recall
pub mod WriteAnswers
pub mod StageArtifacts
pub mod Traversal
pub mod Events
pub mod Tagged
pub mod SpaceRequests
pub mod StatementChanges
pub mod EntityChanges
pub mod Listings
pub mod Lookups
pub mod Feeds
pub mod ReasonTraces
pub mod PlanTraces
pub mod Links
pub mod SchemaRequests
pub mod MemoryRequests
pub mod Answers
pub mod WriteTrace
pub mod Identity
mod Runs
use brain_sdk.Prelude.{
  ℕ, ◌+◌, ◌≤◌, Bool, true, false, Option, none, some, List, [], ◌∷◌, ◌++◌, ◌≡◌, refl, ap, sym, ◌∙◌,
  length, take, take-append, length-append, append-nil, ◌==◌, ==_refl, leb, if◌then◌else◌,
  Bool-cases, inl, inr, arith,
}
use brain_sdk.Wire.Cbor.{cbor_item_end, max_nesting_depth}
use brain_sdk.Wire.Cbor
use brain_sdk.Wire.Cbor.Items.{Item, encode, levels, IsSized}
use brain_sdk.Wire.Cbor.Nesting.{cbor_item_end-encode}
use brain_sdk.Wire.Value.Rounding.{round_fields}
use brain_sdk.Wire.Value.{
  Value, Fields, Loaded, ◌>>=◌, end, entry, integer, object, ok, cbor_error, array, null, or_null,
  read_all, write_all, read_all-write_all, write_list, read_list, read_object, read_optional,
}

-- A payload class: its `to_map` without the rounding of its floats, its `from_map`, and that they fit
-- together.
pub record Payload (A : Type 0) : Type 0 where
  pub plain_map : A → Fields
  pub from_map : Fields → Loaded A
  pub round_trip : (a : A) → from_map (plain_map a) ≡ ok a

pub read_some_payload :
    {A : Type 0} (p : Payload A) (a : A)
    → read_optional (read_object p.from_map) (object (p.plain_map a)) ≡ ok (some a)
read_some_payload p a = ap (λ r. r >>= λ b. ok (some b)) (p.round_trip a)

pub read_payloads :
    {A : Type 0} (p : Payload A) (xs : List A)
    → read_all (read_object p.from_map) (write_all (λ a. object (p.plain_map a)) xs) ≡ ok xs
read_payloads p =
    read_all-write_all (λ a. object (p.plain_map a)) (read_object p.from_map) p.round_trip

pub read_optional_payloads :
    {A : Type 0} (p : Payload A) (o : Option (List A))
    → read_optional
        (read_list (read_object p.from_map))
        (or_null (write_list (λ a. object (p.plain_map a))) o)
      ≡ ok o
read_optional_payloads p none = refl
read_optional_payloads p (some xs) = ap (λ r. r >>= λ a. ok (some a)) (read_payloads p xs)

pub read_optional_payload :
    {A : Type 0} (p : Payload A) (o : Option A)
    → read_optional (read_object p.from_map) (or_null (λ a. object (p.plain_map a)) o) ≡ ok o
read_optional_payload p none = refl
read_optional_payload p (some a) = ap (λ r. r >>= λ b. ok (some b)) (p.round_trip a)

-- The libraries: `cbor2.dumps` with the hook of `to_cbor` for the floats, `cbor2.loads`, where none is
-- an exception, and `struct`, for the rounding of a double to a single and back.
pub record Packing : Type 0 where
  pub dumps : Value → List ℕ
  pub loads : List ℕ → Option Value
  pub pack_f32 : ℕ → Option ℕ

abbrev pub loaded : Option Value → Loaded Value
loaded none = cbor_error
loaded (some v) = ok v

module _ (lib : Packing) where
  -- `from_cbor`, by the measure that `from_cbor_prefix` takes of the first item.
  abbrev pub from_measured : List ℕ → Cbor.Result ℕ → Loaded Value
  from_measured data' (Cbor.err e) = cbor_error
  from_measured data' (Cbor.ok consumed) = do
    value ← loaded (lib.loads (take consumed data'))
    if consumed == length data' then ok value else cbor_error

  unfoldable pub from_cbor : List ℕ → Loaded Value
  from_cbor data' = from_measured data' (cbor_item_end data')

  module _ {A : Type 0} (p : Payload A) where
    -- The method of the class, with the floats rounded as it rounds them.
    unfoldable pub to_map : A → Loaded Fields
    to_map a = round_fields lib.pack_f32 (p.plain_map a)

    -- For all payloads but the one with a raw vector behind its map.
    unfoldable pub encode_payload : A → Loaded (List ℕ)
    encode_payload a = to_map a >>= λ m. ok (lib.dumps (object m))

    unfoldable pub decode_payload : List ℕ → Loaded A
    decode_payload data' = from_cbor data' >>= read_object p.from_map

  -- The CBOR library packs the value into the encoding of one item, and reads the value back from it.
  pub record IsPacked (v : Value) : Type 0 where
    pub item : Item
    pub sized : IsSized item
    pub packed : lib.dumps v ≡ encode item
    pub unpacked : lib.loads (encode item) ≡ some v

  -- What is read from the packed value and further bytes: nothing, if it is nested too deep or if
  -- there are further bytes.
  abbrev pub read_alone : Value → ℕ → List ℕ → Loaded Value
  read_alone v depth [] = if leb depth (max_nesting_depth + 1) then ok v else cbor_error
  read_alone v depth (b ∷ rest) = cbor_error

  from_measured-packed :
      (v : Value) (bytes rest : List ℕ)
      → lib.loads bytes ≡ some v
      → from_measured (bytes ++ rest) (Cbor.ok (length bytes)) ≡ read_alone v 0 rest
  from_measured-packed v bytes [] h =
      rw (take-append bytes [], h, append-nil bytes, ==_refl (length bytes)) refl
  from_measured-packed v bytes (b ∷ rest) h = rw (take-append bytes (b ∷ rest), h, longer) refl
    where
      longer : (length bytes == length (bytes ++ (b ∷ rest))) ≡ false
      longer = ground (arith, length-append bytes (b ∷ rest))

  pub from_cbor-packed :
      (v : Value) (h : IsPacked v) (rest : List ℕ)
      → from_cbor (lib.dumps v ++ rest) ≡ read_alone v (levels h.item) rest
  unfolding from_cbor
  from_cbor-packed v h rest =
      rw (h.packed, cbor_item_end-encode h.item rest h.sized)
        (elim (Bool-cases (leb (levels h.item) (max_nesting_depth + 1))) [
          | inl shallow ↦
              rw shallow
                (from_measured-packed v (encode h.item) rest h.unpacked ∙ fits rest shallow)
          | inr deep ↦ rw deep (refused rest deep)
        ])
    where
      fits :
          (rest : List ℕ)
          → leb (levels h.item) 129 ≡ true
          → read_alone v 0 rest ≡ read_alone v (levels h.item) rest
      fits [] shallow = rw shallow refl
      fits (b ∷ rest) shallow = refl

      refused :
          (rest : List ℕ)
          → leb (levels h.item) 129 ≡ false
          → cbor_error ≡ read_alone v (levels h.item) rest
      refused [] deep = rw deep refl
      refused (b ∷ rest) deep = refl

  -- What is packed alone and not too deep is read back.
  pub decode_payload-packed :
      {A : Type 0} (p : Payload A) (a : A) (h : IsPacked (object (p.plain_map a)))
      → levels h.item ≤ max_nesting_depth + 1
      → decode_payload p (lib.dumps (object (p.plain_map a))) ≡ ok a
  unfolding decode_payload
  decode_payload-packed p a h shallow =
      let alone : from_cbor (lib.dumps (object (p.plain_map a))) ≡ ok (object (p.plain_map a)) =
        ap from_cbor (sym (append-nil (lib.dumps (object (p.plain_map a)))))
        ∙ from_cbor-packed (object (p.plain_map a)) h []
        ∙ rw (le→leb shallow) refl in
      ap (λ r. r >>= read_object p.from_map) alone ∙ p.round_trip a
    where
      le→leb : levels h.item ≤ 129 → leb (levels h.item) 129 ≡ true
      le→leb s = ground arith

-- ===== src/Wire/Payload/Runs.antt =====
-- A payload written and read, where the CBOR library knows one value.
use brain_sdk.Prelude.{◌≡◌, refl, [], ◌∷◌, none, some}
use brain_sdk.Wire.Payload.{Packing, to_map, encode_payload}
use brain_sdk.Wire.Value.{object, overflow_error}
use brain_sdk.Wire.Payload.Identity.{EdgeRequest, edge_request}

-- The weight is 0.7, and then the nearest single.
abbrev edge : EdgeRequest
edge = record { target = 3; kind = 1; weight = 0x3fe6666666666666 }

abbrev rounded_edge : EdgeRequest
rounded_edge = record { target = 3; kind = 1; weight = 0x3fe6666660000000 }

-- The rounded edge is the empty map on the wire.
abbrev knows_edge : Packing
knows_edge = record {
  dumps = λ v. 0xa0 ∷ [];
  loads = λ bs. some (object (edge_request.plain_map rounded_edge));
  pack_f32 = λ x. some 0x3fe6666660000000;
}

-- A float above the singles stops the encoding.
abbrev no_single : Packing
no_single = record { dumps = λ v. []; loads = λ bs. none; pack_f32 = λ x. none }

too_large : encode_payload no_single edge_request edge ≡ overflow_error
unfolding encode_payload to_map
too_large = refl

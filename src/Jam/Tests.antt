-- ===== src/Jam/Tests.antt =====
-- The codec of fixed numbers on small inputs.
use strawberry.Base.{◌≡◌, ◌++◌, [], ◌∷◌, arith}
use strawberry.Jam.Fixed.{
  serialize_trivial_natural, deserialize_trivial_natural,
  deserialize_trivial_natural-serialize_trivial_natural,
}
use strawberry.Jam.General.{serialize_uint64, decode_uint, decoded}
use strawberry.Jam.RoundTrip.{decode_uint-serialize_uint64}

deserialize_trivial_natural-serialize_trivial_natural_example :
    deserialize_trivial_natural 32 (serialize_trivial_natural 305419896 2) ≡ 22136
deserialize_trivial_natural-serialize_trivial_natural_example =
    deserialize_trivial_natural-serialize_trivial_natural 32 305419896 2 (omega arith)

decode_uint-serialize_uint64_example :
    decode_uint (serialize_uint64 300 ++ (7 ∷ [])) ≡ decoded (300, 7 ∷ [])
decode_uint-serialize_uint64_example = decode_uint-serialize_uint64 300 (7 ∷ []) (omega arith)

-- ===== src/Tests/Naming.antt =====
-- The names of internal/naming/naming.go on a name of two labels.
use freens.Prelude.{
  ◌≡◌, ◌≢◌, refl, true, List, [], ◌∷◌, ◌++◌, All, Bytes, IsByte, some, ok, err, arith, map_result,
}
use freens.Naming.Text.{
  Unicode, is_ascii, is_all_digits, trim_left, trim_space, to_lower, has_prefix, has_suffix,
  trim_suffix, split,
}
use freens.Naming.Labels.{
  NamingError, Normalizer, all_ldh, check_ldh, normalize, validate_alias, validate_label,
  split_last, all_nonempty, decompose_parts, decompose_name,
}
use freens.Naming.Labels.Grammar.{
  IsLabel, IsAlias, check_ldh-IsLabel, validate_label-IsLabel, validate_alias-IsAlias,
}
use freens.Naming.Labels.Decompose.{join, decompose_name-join}
use freens.Naming.Wire.{emit_labels, encode_wire_name, decode_labels, decode_wire_name}
use freens.Naming.Wire.RoundTrip.{decode-encode}
use freens.Naming.Wire.Decoded.{decode_wire_name-ne-stuck, encode-decode}

-- Tables of Unicode that change nothing.
abbrev u : Unicode
u = record { trim_space = λ s. s; to_lower = λ s. s }

-- A normalizer that maps every text to "x".
abbrev idna : Normalizer
idna = some (λ s. some (b'x' ∷ []))

-- "www", "Api" and its normal form, " Bob" and "bob".
abbrev www : Bytes
www = b'w' ∷ b'w' ∷ b'w' ∷ []

abbrev api : Bytes
api = b'a' ∷ b'p' ∷ b'i' ∷ []

abbrev api_typed : Bytes
api_typed = b'A' ∷ b'p' ∷ b'i' ∷ []

abbrev bob : Bytes
bob = b'b' ∷ b'o' ∷ b'b' ∷ []

abbrev bob_typed : Bytes
bob_typed = b' ' ∷ bob

abbrev tld : Bytes
tld =
    1 ∷ 2 ∷ 3 ∷ 4 ∷ 5 ∷ 6 ∷ 7 ∷ 8 ∷ 1 ∷ 2 ∷ 3 ∷ 4 ∷ 5 ∷ 6 ∷ 7 ∷ 8 ∷ 1 ∷ 2 ∷ 3 ∷ 4 ∷ 5 ∷ 6 ∷ 7 ∷ 8
    ∷ 1 ∷ 2 ∷ 3 ∷ 4 ∷ 5 ∷ 6 ∷ 7 ∷ 8 ∷ []

-- The wire name of www.api under `tld`.
abbrev wire : Bytes
wire = 0x01 ∷ 3 ∷ b'a' ∷ b'p' ∷ b'i' ∷ 0x01 ∷ 3 ∷ b'w' ∷ b'w' ∷ b'w' ∷ 0x00 ∷ tld

run_label : validate_label u api_typed ≡ ok api
unfolding validate_label check_ldh all_ldh is_all_digits trim_space trim_left to_lower has_prefix
    has_suffix is_ascii
run_label = refl

run_alias : validate_alias u idna bob_typed ≡ ok bob
unfolding validate_alias normalize check_ldh all_ldh is_all_digits trim_space trim_left to_lower
    has_prefix has_suffix is_ascii
run_alias = refl

run_encode : encode_wire_name u idna (www ∷ api_typed ∷ []) bob_typed tld ≡ ok wire
unfolding encode_wire_name emit_labels validate_label validate_alias normalize check_ldh all_ldh
    is_all_digits trim_space trim_left to_lower has_prefix has_suffix is_ascii
run_encode = refl

run_decode : decode_wire_name wire ≡ ok (www ∷ api ∷ [], tld)
unfolding decode_wire_name decode_labels
run_decode = refl

run_decompose :
    decompose_name u idna (www ++ (b'.' ∷ api_typed) ++ (b'.' ∷ bob)) ≡ ok (www ∷ api ∷ [], bob)
unfolding decompose_name decompose_parts split split_last all_nonempty validate_label validate_alias
    normalize check_ldh all_ldh is_all_digits trim_space trim_left to_lower has_prefix has_suffix
    trim_suffix is_ascii
run_decompose = refl

run_check : check_ldh www true ≡ ok tt
unfolding check_ldh all_ldh is_all_digits has_prefix has_suffix
run_check = refl

labels-IsLabel : All IsLabel (www ∷ api ∷ [])
labels-IsLabel =
    (check_ldh-IsLabel www run_check, ((validate_label-IsLabel u api_typed api run_label).0, tt))

bob-IsAlias : IsAlias bob
bob-IsAlias = (validate_alias-IsAlias u idna bob_typed bob run_alias).0

wire-IsByte : All IsByte wire
wire-IsByte = ground arith

decode-encode_example :
    (normal : List Bytes) × (map_result (validate_label u) (www ∷ api_typed ∷ []) ≡ ok normal)
    × (decode_wire_name wire ≡ ok (normal, tld))
decode-encode_example = decode-encode u idna (www ∷ api_typed ∷ []) bob_typed tld wire run_encode

encode-decode_example : encode_wire_name u idna (www ∷ api ∷ []) bob tld ≡ ok wire
encode-decode_example =
    encode-decode u idna wire (www ∷ api ∷ []) bob tld wire-IsByte run_decode labels-IsLabel
      bob-IsAlias

decode_wire_name-ne-stuck_example : decode_wire_name wire ≢ err NamingError.stuck
decode_wire_name-ne-stuck_example = decode_wire_name-ne-stuck wire

validate_label-IsLabel_example : IsLabel api × (validate_label u api ≡ ok api)
validate_label-IsLabel_example = validate_label-IsLabel u api_typed api run_label

bob_typed-IsAlias : IsAlias bob × (validate_alias u idna bob ≡ ok bob)
bob_typed-IsAlias = validate_alias-IsAlias u idna bob_typed bob run_alias

decompose_name-join_example :
    decompose_name u idna (join (www ∷ api ∷ []) bob) ≡ ok (www ∷ api ∷ [], bob)
decompose_name-join_example =
    decompose_name-join u idna (www ∷ api ∷ []) bob labels-IsLabel bob-IsAlias (omega arith)

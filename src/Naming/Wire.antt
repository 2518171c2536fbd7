-- ===== src/Naming/Wire.antt =====
-- EncodeWireName and DecodeWireName of internal/naming/naming.go.
pub mod RoundTrip
pub mod Decoded
use freens.Prelude.{
  ℕ, zero, suc, ◌+◌, ◌%◌, Bool, ◌&&◌, not, ltb, ◌==◌, List, [], ◌∷◌, ◌++◌, reverse, length, take,
  drop, if◌then◌else◌, Bytes, Result, ok, err, ◌>>=◌, ◌>>◌, require, map_result,
}
use freens.Naming.Text.{Unicode}
use freens.Naming.Labels.{NamingError, Normalizer, max_labels, validate_alias, validate_label}

abbrev pub sha256_len : ℕ
sha256_len = 32

abbrev pub label_marker : ℕ
label_marker = 0x01

abbrev pub terminator : ℕ
terminator = 0x00

-- For each label, in the order given: 0x01, its length as a byte, its bytes.
unfoldable pub emit_labels : List Bytes → Bytes
emit_labels [] = []
emit_labels (l ∷ ls) = label_marker ∷ (length l % 256) ∷ (l ++ emit_labels ls)

unfoldable pub encode_wire_name :
    Unicode → Normalizer → List Bytes → Bytes → Bytes → Result NamingError Bytes
encode_wire_name u idna display_labels alias tld_id = do
  require (length tld_id == sha256_len) NamingError.bad_tld_id
  _ ← validate_alias u idna alias
  labels ← map_result (validate_label u) display_labels
  require (not (ltb max_labels (length labels))) NamingError.too_many_labels
  ok (emit_labels (reverse labels) ++ (terminator ∷ tld_id))

-- What follows a label marker; `next` decodes what follows the label.
pub decode_label :
    (Bytes → Result NamingError (List Bytes × Bytes))
    → Bytes
    → Result NamingError (List Bytes × Bytes)
decode_label next [] = err NamingError.missing_length
decode_label next (len ∷ rest) = do
  require (not (len == 0)) NamingError.zero_length
  require (not (ltb (length rest) len)) NamingError.overrun
  (labels, tail) ← next (drop len rest)
  ok (take len rest ∷ labels, tail)

-- The loop of DecodeWireName: the labels, TLD-adjacent first, and what follows the terminator.
unfoldable pub decode_labels : ℕ → Bytes → Result NamingError (List Bytes × Bytes)
unfolding decode_label
decode_labels zero wire = err NamingError.stuck
decode_labels (suc fuel) [] = err NamingError.missing_terminator
decode_labels (suc fuel) (marker ∷ rest) =
    if marker == terminator
    then ok ([], rest)
    else (if marker == label_marker
        then decode_label (decode_labels fuel) rest
        else err NamingError.bad_marker)

-- A round takes two bytes at least, so a round for each byte and one more are enough.
unfoldable pub decode_wire_name : Bytes → Result NamingError (List Bytes × Bytes)
decode_wire_name wire = do
  (labels, tail) ← decode_labels (suc (length wire)) wire
  require (not (ltb max_labels (length labels))) NamingError.too_many_labels
  require (length tail == sha256_len) NamingError.bad_tld_id
  ok (reverse labels, tail)

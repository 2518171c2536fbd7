-- ===== src/Naming/Wire/RoundTrip.antt =====
-- DecodeWireName against EncodeWireName.
use mathlib.Core.List.{append_assoc, reverse-reverse}
use freens.Prelude.{
  ℕ, zero, suc, ◌%◌, ◌≤◌, ◌<◌, ◌≡◌, refl, ap, ◌∙◌, sym, not, ltb, ◌==◌, List, [], ◌∷◌, ◌++◌,
  reverse, All, All-reverse, length, length-append, length-reverse, take_append, drop_append, Bytes,
  Result, ok, ◌>>=◌, require, map_result, >>=-eq-ok, arith,
}
use freens.Naming.Text.{Unicode}
use freens.Naming.Labels.{NamingError, Normalizer, max_labels, validate_alias, validate_label}
use freens.Naming.Labels.Grammar.{IsLabel}
use freens.Naming.Labels.Decompose.{labels_sound}
use freens.Naming.Wire.{
  sha256_len, label_marker, terminator, emit_labels, encode_wire_name, decode_label, decode_labels,
  decode_wire_name,
}

-- A label that its length byte can hold.
abbrev IsShort : Bytes → Type 0
IsShort l = (1 ≤ length l) × (length l ≤ 255)

decode_label_step :
    (next : Bytes → Result NamingError (List Bytes × Bytes)) (l rest : Bytes)
    → IsShort l
    → decode_label next ((length l % 256) ∷ (l ++ rest)) ≡ (next rest >>= λ p. ok (l ∷ p.0, p.1))
unfolding decode_label
decode_label_step next l rest h =
    let e : length l % 256 ≡ length l = omega arith in
    rw (e, take_append l rest, drop_append l rest) (ground (arith, length-append l rest))

emit-decode :
    (fuel : ℕ) (ls : List Bytes) (tail : Bytes)
    → All IsShort ls
    → length ls < fuel
    → decode_labels fuel (emit_labels ls ++ (terminator ∷ tail)) ≡ ok (ls, tail)
unfolding decode_labels emit_labels
emit-decode zero ls tail h n = absurd (omega arith)
emit-decode (suc fuel) [] tail h n = refl
emit-decode (suc fuel) (l ∷ ls) tail (h, hs) n =
    ap (λ w. decode_labels (suc fuel) (label_marker ∷ (length l % 256) ∷ w))
      (append_assoc l (emit_labels ls) (terminator ∷ tail))
    ∙ decode_label_step (decode_labels fuel) l (emit_labels ls ++ (terminator ∷ tail)) h
    ∙ rw (emit-decode fuel ls tail hs (omega arith))

length-emit_labels : (ls : List Bytes) → length ls ≤ length (emit_labels ls)
unfolding emit_labels
length-emit_labels [] = omega arith
length-emit_labels (l ∷ ls) = omega (arith, length-append l (emit_labels ls), length-emit_labels ls)

IsLabel-IsShort : (ls : List Bytes) → All IsLabel ls → All IsShort ls
IsLabel-IsShort [] h = tt
IsLabel-IsShort (l ∷ ls) (h, hs) = ((h.nonempty, omega (arith, h.short)), IsLabel-IsShort ls hs)

decode-emit :
    (ls : List Bytes) (tld_id : Bytes)
    → All IsLabel ls
    → length ls ≤ max_labels
    → length tld_id ≡ sha256_len
    → decode_wire_name (emit_labels (reverse ls) ++ (terminator ∷ tld_id)) ≡ ok (ls, tld_id)
unfolding decode_wire_name
decode-emit ls tld_id hs n ht =
    let back = reverse ls in
    let wire = emit_labels back ++ (terminator ∷ tld_id) in
    let loop =
      emit-decode (suc (length wire)) back tld_id (All-reverse IsShort ls (IsLabel-IsShort ls hs)) (
        omega (
          arith,
          length-append (emit_labels back) (terminator ∷ tld_id),
          length-emit_labels back,
        )) in
    rw (loop, length-reverse ls, reverse-reverse ls, ht) (ground arith)

module _ (u : Unicode) (idna : Normalizer) where
  -- What EncodeWireName returns decodes to the labels it was given, each normalized by
  -- ValidateLabel, in the same order, and to the same tld_id.
  pub decode-encode :
      (labels : List Bytes) (alias tld_id wire : Bytes)
      → encode_wire_name u idna labels alias tld_id ≡ ok wire
      → (normal : List Bytes) × (map_result (validate_label u) labels ≡ ok normal)
        × (decode_wire_name wire ≡ ok (normal, tld_id))
  unfolding encode_wire_name
  decode-encode labels alias tld_id wire h =
      let (_, len, h₁) =
        >>=-eq-ok (require (length tld_id == sha256_len) NamingError.bad_tld_id) _ h in
      let (_, _, h₂) = >>=-eq-ok (validate_alias u idna alias) _ h₁ in
      let (normal, mapped, h₃) = >>=-eq-ok (map_result (validate_label u) labels) _ h₂ in
      let (_, room, e) =
        >>=-eq-ok (require (not (ltb max_labels (length normal))) NamingError.too_many_labels) _
          h₃ in
      let whole : emit_labels (reverse normal) ++ (terminator ∷ tld_id) ≡ wire = ground arith in
      let decoded =
        decode-emit normal tld_id (labels_sound u labels normal mapped).0 (ground arith)
          (ground arith) in
      (normal, mapped, ap decode_wire_name (sym whole) ∙ decoded)

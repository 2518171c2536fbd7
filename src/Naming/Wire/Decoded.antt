-- ===== src/Naming/Wire/Decoded.antt =====
-- What DecodeWireName accepts, and that its loop ends.
use mathlib.Core.List.{append_assoc, reverse-reverse}
use freens.Prelude.{
  ℕ, zero, suc, ◌%◌, ◌≤◌, ◌<◌, ◌≡◌, ◌≢◌, ap, ◌∙◌, sym, false, not, ltb, ◌==◌, List, [], ◌∷◌, ◌++◌,
  reverse, All, length, length-reverse, length-drop, take, drop, Bytes, IsByte, Result, ok, err,
  require, >>=-eq-ok, arith, inl, inr, Bool-cases, take-append-drop, length-take, All-drop, ==→eq,
  ap₂,
}
use freens.Naming.Text.{Unicode}
use freens.Naming.Labels.{NamingError, Normalizer, max_labels}
use freens.Naming.Labels.Grammar.{IsLabel, IsAlias, IsAlias-check_ldh}
use freens.Naming.Labels.Normal.{validate_alias_fixed}
use freens.Naming.Labels.Decompose.{labels_fixed}
use freens.Naming.Wire.{
  sha256_len, label_marker, terminator, emit_labels, encode_wire_name, decode_label, decode_labels,
  decode_wire_name,
}

decode_label-ne-stuck :
    (next : Bytes → Result NamingError (List Bytes × Bytes)) (rest : Bytes)
    → ((w : Bytes) → length w < length rest → next w ≢ err NamingError.stuck)
    → decode_label next rest ≢ err NamingError.stuck
unfolding decode_label
decode_label-ne-stuck next [] h = λ e. cc
decode_label-ne-stuck next (len ∷ rest) h = ground (arith, h (drop len rest), length-drop len rest)

decode_labels-ne-stuck :
    (fuel : ℕ) (wire : Bytes) → length wire < fuel → decode_labels fuel wire ≢ err NamingError.stuck
unfolding decode_labels
decode_labels-ne-stuck zero wire h = absurd (omega arith)
decode_labels-ne-stuck (suc fuel) [] h = λ e. cc
decode_labels-ne-stuck (suc fuel) (m ∷ rest) h =
    let inner =
      decode_label-ne-stuck (decode_labels fuel) rest
        (λ w k. decode_labels-ne-stuck fuel w (omega arith)) in
    λ e. ground (arith, inner)

-- DecodeWireName ends on every input: its loop never runs out of rounds.
pub decode_wire_name-ne-stuck : (wire : Bytes) → decode_wire_name wire ≢ err NamingError.stuck
unfolding decode_wire_name
decode_wire_name-ne-stuck wire e =
    ground (arith, decode_labels-ne-stuck (suc (length wire)) wire (omega arith))

decode_label_inv :
    (next : Bytes → Result NamingError (List Bytes × Bytes)) (rest : Bytes) (ls : List Bytes)
    (tail : Bytes)
    → decode_label next rest ≡ ok (ls, tail)
    → All IsByte rest
    → (l : Bytes) × (ms : List Bytes) × (after : Bytes) × (ls ≡ l ∷ ms)
      × (rest ≡ (length l % 256) ∷ (l ++ after))
      × (next after ≡ ok (ms, tail))
      × All IsByte after
unfolding decode_label
decode_label_inv next [] ls tail h b = cc
decode_label_inv next (len ∷ rest) ls tail h (hb, hbs) =
    let (_, _, h₁) = >>=-eq-ok (require (not (len == 0)) NamingError.zero_length) _ h in
    let (_, room, h₂) =
      >>=-eq-ok (require (not (ltb (length rest) len)) NamingError.overrun) _ h₁ in
    let ((ms, t), inner, e) = >>=-eq-ok (next (drop len rest)) _ h₂ in
    let size : length (take len rest) ≡ len = ground (arith, length-take len rest) in
    let same : (take len rest ∷ ms ≡ ls) × (t ≡ tail) = ground arith in
    (
      take len rest,
      ms,
      drop len rest,
      sym same.0,
      ap₂ (λ (x : ℕ) (xs : Bytes). x ∷ xs) (omega arith) (sym (take-append-drop len rest)),
      inner ∙ ap (λ (x : Bytes). ok (ms, x)) same.1,
      All-drop IsByte len rest hbs,
    )

decode_labels-emit :
    (fuel : ℕ) (wire : Bytes) (ls : List Bytes) (tail : Bytes)
    → decode_labels fuel wire ≡ ok (ls, tail)
    → All IsByte wire
    → wire ≡ emit_labels ls ++ (terminator ∷ tail)
unfolding decode_labels emit_labels
decode_labels-emit zero wire ls tail h b = cc
decode_labels-emit (suc fuel) [] ls tail h b = cc
decode_labels-emit (suc fuel) (m ∷ rest) ls tail h (hb, hbs) = elim (Bool-cases (m == terminator)) [
  | inl e ↦
      let same : ([] ≡ ls) × (rest ≡ tail) = ground arith in
      rw (← same.0, ← same.1, ==→eq m terminator e)
  | inr ne ↦
      let marked : (m ≡ label_marker) × (decode_label (decode_labels fuel) rest ≡ ok (ls, tail)) =
        ground arith in
      let (l, ms, after, el, er, inner, ha) =
        decode_label_inv (decode_labels fuel) rest ls tail marked.1 hbs in
      rw (el, er, marked.0)
        (ap (λ w. label_marker ∷ (length l % 256) ∷ w)
          (ap (◌++◌ l) (decode_labels-emit fuel after ms tail inner ha)
            ∙ sym (append_assoc l (emit_labels ms) (terminator ∷ tail))))
]

pub decode_wire_name-parts :
    (wire : Bytes) (labels : List Bytes) (tld_id : Bytes)
    → All IsByte wire
    → decode_wire_name wire ≡ ok (labels, tld_id)
    → (wire ≡ emit_labels (reverse labels) ++ (terminator ∷ tld_id))
      × (length labels ≤ max_labels)
      × (length tld_id ≡ sha256_len)
unfolding decode_wire_name
decode_wire_name-parts wire labels tld_id hb h =
    let ((back, tail), loop, h₁) = >>=-eq-ok (decode_labels (suc (length wire)) wire) _ h in
    let (_, room, h₂) =
      >>=-eq-ok (require (not (ltb max_labels (length back))) NamingError.too_many_labels) _ h₁ in
    let (_, len, e) = >>=-eq-ok (require (length tail == sha256_len) NamingError.bad_tld_id) _ h₂ in
    let same : (reverse back ≡ labels) × (tail ≡ tld_id) = ground arith in
    let size : length back ≤ max_labels = ground arith in
    let whole = decode_labels-emit (suc (length wire)) wire back tail loop hb in
    (
      whole
          ∙ ap₂ (λ b t. emit_labels b ++ (terminator ∷ t))
              (sym (reverse-reverse back) ∙ ap reverse same.0) same.1,
      omega (arith, ap length same.0, length-reverse back),
      rw (← same.1) (ground arith),
    )

module _ (u : Unicode) (idna : Normalizer) where
  -- A wire name that decodes to labels of the grammar is the one that EncodeWireName builds from
  -- those labels and that tld_id, under any valid alias: no other bytes decode to them.
  pub encode-decode :
      (wire : Bytes) (labels : List Bytes) (alias tld_id : Bytes)
      → All IsByte wire
      → decode_wire_name wire ≡ ok (labels, tld_id)
      → All IsLabel labels
      → IsAlias alias
      → encode_wire_name u idna labels alias tld_id ≡ ok wire
  unfolding encode_wire_name
  encode-decode wire labels alias tld_id hb h hs ha =
      let (whole, room, len) = decode_wire_name-parts wire labels tld_id hb h in
      let size : ltb max_labels (length labels) ≡ false = ground arith in
      rw
        (
          len,
          validate_alias_fixed u idna alias (IsAlias-check_ldh alias ha),
          labels_fixed u labels hs,
          size,
        )
        (ap ok (sym whole))

-- ===== src/Naming/Labels/Decompose.antt =====
-- DecomposeName against the dotted text of a name.
use freens.Prelude.{
  ℕ, suc, ◌-◌, ◌≤◌, ◌≡◌, refl, ap, ◌∙◌, true, false, not, ltb, List, [], ◌∷◌, ◌++◌, All, All-append,
  length, length-append, Bytes, ok, require, map_result, >>=-eq-ok, arith,
}
use freens.Naming.Text.{Unicode, has_suffix, trim_suffix, split, trim_space}
use freens.Naming.Labels.{
  NamingError, Normalizer, all_ldh, validate_alias, validate_label, split_last, max_labels,
  all_nonempty, decompose_parts, decompose_name,
}
use freens.Naming.Labels.Normal.{
  IsTight, IsTight-all_ldh, trim_space-tight, check_ldh-all_ldh, validate_label_fixed,
  validate_label-check, validate_alias_fixed, validate_alias-check,
}
use freens.Naming.Labels.Grammar.{
  IsLabel, IsAlias, check_ldh-IsLabel, IsLabel-check_ldh, check_ldh-IsAlias, IsAlias-check_ldh,
}

-- The displayed form of a name: labels and alias with dots between.
abbrev pub join : List Bytes → Bytes → Bytes
join [] a = a
join (l ∷ ls) a = l ++ (b'.' ∷ join ls a)

ldh-split :
    (l rest : Bytes) → all_ldh l ≡ true → split b'.' (l ++ (b'.' ∷ rest)) ≡ l ∷ split b'.' rest
unfolding all_ldh split
ldh-split [] rest h = refl
ldh-split (c ∷ l) rest h = ground (arith, ldh-split l rest)

ldh-split_alone : (l : Bytes) → all_ldh l ≡ true → split b'.' l ≡ l ∷ []
unfolding all_ldh split
ldh-split_alone [] h = refl
ldh-split_alone (c ∷ l) h = ground (arith, ldh-split_alone l)

IsLabel-all_ldh : (l : Bytes) → IsLabel l → all_ldh l ≡ true
IsLabel-all_ldh l h = check_ldh-all_ldh l true (IsLabel-check_ldh l h)

split-join :
    (ls : List Bytes) (a : Bytes)
    → All IsLabel ls
    → IsLabel a
    → split b'.' (join ls a) ≡ ls ++ (a ∷ [])
split-join [] a hs ha = ldh-split_alone a (IsLabel-all_ldh a ha)
split-join (l ∷ ls) a (h, hs) ha =
    ldh-split l (join ls a) (IsLabel-all_ldh l h) ∙ ap (◌∷◌ l) (split-join ls a hs ha)

join-IsTight : (ls : List Bytes) (a : Bytes) → All IsLabel ls → IsLabel a → All IsTight (join ls a)
join-IsTight [] a hs ha = IsTight-all_ldh a (IsLabel-all_ldh a ha)
join-IsTight (l ∷ ls) a (h, hs) ha =
    All-append IsTight l (b'.' ∷ join ls a) (IsTight-all_ldh l (IsLabel-all_ldh l h))
      ((omega arith, refl), join-IsTight ls a hs ha)

no_dot_end : (l : Bytes) → all_ldh l ≡ true → has_suffix b'.' l ≡ false
unfolding all_ldh has_suffix
no_dot_end [] h = refl
no_dot_end (c ∷ []) h = ground arith
no_dot_end (c ∷ d ∷ l) h = no_dot_end (d ∷ l) (ground arith)

has_suffix_later : (c : ℕ) (s t : Bytes) → 1 ≤ length t → has_suffix c (s ++ t) ≡ has_suffix c t
unfolding has_suffix
has_suffix_later c [] t h = refl
has_suffix_later c (x ∷ s) [] h = absurd (omega arith)
has_suffix_later c (x ∷ []) (y ∷ t) h = refl
has_suffix_later c (x ∷ z ∷ s) (y ∷ t) h = has_suffix_later c (z ∷ s) (y ∷ t) h

trim_suffix_none : (c : ℕ) (s : Bytes) → has_suffix c s ≡ false → trim_suffix c s ≡ s
unfolding has_suffix trim_suffix
trim_suffix_none c [] h = refl
trim_suffix_none c (x ∷ []) h = ground arith
trim_suffix_none c (x ∷ y ∷ s) h = ap (◌∷◌ x) (trim_suffix_none c (y ∷ s) h)

join_nonempty : (ls : List Bytes) (a : Bytes) → 1 ≤ length a → 1 ≤ length (join ls a)
join_nonempty [] a h = h
join_nonempty (l ∷ ls) a h = omega (arith, length-append l (b'.' ∷ join ls a))

join_no_dot : (ls : List Bytes) (a : Bytes) → IsLabel a → has_suffix b'.' (join ls a) ≡ false
join_no_dot [] a h = no_dot_end a (IsLabel-all_ldh a h)
join_no_dot (l ∷ ls) a h =
    has_suffix_later b'.' l (b'.' ∷ join ls a) (omega arith)
    ∙ has_suffix_later b'.' (b'.' ∷ []) (join ls a) (join_nonempty ls a h.nonempty)
    ∙ join_no_dot ls a h

all_nonempty_labels :
    (ls : List Bytes) (a : Bytes)
    → All IsLabel ls
    → IsLabel a
    → all_nonempty (ls ++ (a ∷ [])) ≡ true
unfolding all_nonempty
all_nonempty_labels [] [] hs h = absurd (omega (arith, h.nonempty))
all_nonempty_labels [] (c ∷ a) hs h = refl
all_nonempty_labels ([] ∷ ls) a (hl, hs) h = absurd (omega (arith, hl.nonempty))
all_nonempty_labels ((c ∷ l) ∷ ls) a (hl, hs) h = all_nonempty_labels ls a hs h

split_last_append :
    (l : Bytes) (ls : List Bytes) (a : Bytes) → split_last l (ls ++ (a ∷ [])) ≡ (l ∷ ls, a)
unfolding split_last
split_last_append l [] a = refl
split_last_append l (m ∷ ls) a = rw (split_last_append m ls a)

length-split_last : (p : Bytes) (ps : List Bytes) → length (split_last p ps).0 ≡ length ps
unfolding split_last
length-split_last p [] = refl
length-split_last p (q ∷ ps) = ap suc (length-split_last q ps)

module _ (u : Unicode) where
  pub labels_fixed : (ls : List Bytes) → All IsLabel ls → map_result (validate_label u) ls ≡ ok ls
  labels_fixed [] h = refl
  labels_fixed (l ∷ ls) (h, hs) =
      rw (validate_label_fixed u l (IsLabel-check_ldh l h), labels_fixed ls hs)

  pub labels_sound :
      (ls ms : List Bytes)
      → map_result (validate_label u) ls ≡ ok ms
      → All IsLabel ms × (length ms ≡ length ls)
  labels_sound [] ms h = ground arith
  labels_sound (l ∷ ls) ms h =
      let (m, head, rest) = >>=-eq-ok (validate_label u l) _ h in
      let (ks, tail, e) = >>=-eq-ok (map_result (validate_label u) ls) _ rest in
      let (hs, n) = labels_sound ls ks tail in
      let whole : m ∷ ks ≡ ms = ground arith in
      rw (← whole) ((check_ldh-IsLabel m (validate_label-check u l m head), hs), ap suc n)

  module _ (idna : Normalizer) where
    parts_fixed :
        (ls : List Bytes) (a : Bytes)
        → All IsLabel ls
        → IsAlias a
        → length ls ≤ max_labels
        → decompose_parts u idna (ls ++ (a ∷ [])) ≡ ok (ls, a)
    unfolding decompose_parts split_last
    parts_fixed [] a hs h n =
        rw (all_nonempty_labels [] a tt h.0, validate_alias_fixed u idna a (IsAlias-check_ldh a h))
    parts_fixed (l ∷ ls) a hs h n =
        let room : ltb max_labels (suc (length (ls ++ (a ∷ []))) - 1) ≡ false =
          ground (arith, length-append ls (a ∷ [])) in
        rw (
          all_nonempty_labels (l ∷ ls) a hs h.0,
          room,
          split_last_append l ls a,
          labels_fixed (l ∷ ls) hs,
          validate_alias_fixed u idna a (IsAlias-check_ldh a h),
        )

    -- A dotted text of at most 8 labels of the grammar and an alias decomposes into them.
    pub decompose_name-join :
        (ls : List Bytes) (a : Bytes)
        → All IsLabel ls
        → IsAlias a
        → length ls ≤ max_labels
        → decompose_name u idna (join ls a) ≡ ok (ls, a)
    unfolding decompose_name
    decompose_name-join ls a hs h n =
        rw
          (
            trim_space-tight u (join ls a) (join-IsTight ls a hs h.0),
            trim_suffix_none b'.' (join ls a) (join_no_dot ls a h.0),
            split-join ls a hs h.0,
          )
          (parts_fixed ls a hs h n)

    parts_sound :
        (ps ls : List Bytes) (a : Bytes)
        → decompose_parts u idna ps ≡ ok (ls, a)
        → All IsLabel ls × IsAlias a × (length ls ≤ max_labels)
    unfolding decompose_parts
    parts_sound [] ls a h = cc
    parts_sound (p ∷ ps) ls a h =
        let (_, _, h₁) = >>=-eq-ok (require (all_nonempty (p ∷ ps)) NamingError.empty_part) _ h in
        let (_, room, h₂) =
          >>=-eq-ok
            (require (not (ltb max_labels (length (p ∷ ps) - 1))) NamingError.too_many_labels) _
            h₁ in
        let (ms, mapped, h₃) = >>=-eq-ok (map_result (validate_label u) (split_last p ps).0) _ h₂ in
        let (b, checked, e) = >>=-eq-ok (validate_alias u idna (split_last p ps).1) _ h₃ in
        let (hs, n) = labels_sound (split_last p ps).0 ms mapped in
        let same : (ms ≡ ls) × (b ≡ a) = ground arith in
        rw (← same.0, ← same.1)
          (
            hs,
            check_ldh-IsAlias b (validate_alias-check u idna (split_last p ps).1 b checked),
            ground (arith, n, length-split_last p ps),
          )

    -- What DecomposeName returns has at most 8 labels, all of the grammar, and an alias of the
    -- grammar; and decomposing their dotted text returns the same labels and alias.
    pub decompose_name-parts :
        (name : Bytes) (ls : List Bytes) (a : Bytes)
        → decompose_name u idna name ≡ ok (ls, a)
        → All IsLabel ls
          × IsAlias a
          × (length ls ≤ 8)
          × (decompose_name u idna (join ls a) ≡ ok (ls, a))
    decompose_name-parts name ls a h =
        let (hs, ha, n) =
          parts_sound (split b'.' (trim_suffix b'.' (trim_space u name))) ls a
            (unfold decompose_name in h) in
        (hs, ha, n, decompose_name-join ls a hs ha n)

-- ===== src/Wire/Authority/Descent.antt =====
-- Names below one another and the records that authorize one another: verifyDescents of
-- internal/wire/transfer.go.
use freens.Prelude.{
  ◌-◌, ◌≤◌, ◌<◌, ◌≡◌, ◌⊎◌, refl, sym, ◌∙◌, ap, ap₂, true, ltb, List, [], ◌∷◌, ◌++◌, take, drop,
  take-append-drop, drop_append, length, length-append, length-take, Bytes, bytes_eq, bytes_eq→eq,
  bytes_eq_refl, some, ok, Bool-cases, Option-cases, Result-cases, inl, inr, arith,
}
use freens.Naming.Wire.{decode_wire_name}
use freens.Wire.Record.{Envelope}
use freens.Wire.Authority.{labels_eq, strict_descendant, authorized, verify_descents}

-- The parent's delegate or owner signed the child, whose name is strictly below the parent's.
pub record Authorizes (parent child : Envelope) : Type 0 where
  pub signed :
      ((parent.body.delegation ≡ some child.signer) × (1 ≤ length child.signer))
      ⊎ (parent.body.owner ≡ child.signer)
  pub tld : Bytes
  pub labels : List Bytes
  pub front : List Bytes
  pub below : 1 ≤ length front
  pub parent_name : decode_wire_name parent.body.name ≡ ok (labels, tld)
  pub child_name : decode_wire_name child.body.name ≡ ok (front ++ labels, tld)

-- Each record of the list is authorized by the one before it, the first by `e`.
pub data Below : Envelope → List Envelope → Type 0 where
  end : (e : Envelope) → Below e []
  next :
      {e c : Envelope} {rest : List Envelope} → Authorizes e c → Below c rest → Below e (c ∷ rest)

labels_eq→eq : (xs ys : List Bytes) → labels_eq xs ys ≡ true → xs ≡ ys
unfolding labels_eq
labels_eq→eq [] [] h = refl
labels_eq→eq [] (y ∷ ys) h = cc
labels_eq→eq (x ∷ xs) [] h = cc
labels_eq→eq (x ∷ xs) (y ∷ ys) h = ground (arith, bytes_eq→eq x y, labels_eq→eq xs ys)

labels_eq_refl : (xs : List Bytes) → labels_eq xs xs ≡ true
unfolding labels_eq
labels_eq_refl [] = refl
labels_eq_refl (x ∷ xs) = ground (arith, bytes_eq_refl x, labels_eq_refl xs)

module _ (parent child : Bytes) where
  descendant_sound :
      strict_descendant parent child ≡ true
      → (tld : Bytes) × (labels : List Bytes) × (front : List Bytes) × (1 ≤ length front)
        × (decode_wire_name parent ≡ ok (labels, tld))
        × (decode_wire_name child ≡ ok (front ++ labels, tld))
  unfolding strict_descendant
  descendant_sound h = elim (Result-cases (decode_wire_name parent)) [
    | inr (e, pe) ↦ ground arith
    | inl ((pl, pt), pe) ↦ elim (Result-cases (decode_wire_name child)) [
      | inr (e, ce) ↦ ground arith
      | inl ((cl, ct), ce) ↦
          let same_tld : bytes_eq ct pt ≡ true = ground arith in
          let longer : length pl < length cl = ground arith in
          let n = length cl - length pl in
          let ends : labels_eq (drop n cl) pl ≡ true = ground arith in
          let split : cl ≡ take n cl ++ pl =
            sym (take-append-drop n cl)
            ∙ ap (◌++◌ (take n cl)) (labels_eq→eq (drop n cl) pl ends) in
          (
            pt,
            pl,
            take n cl,
            omega (arith, length-take n cl),
            pe,
            ce ∙ ap₂ (λ l t. ok (l, t)) split (bytes_eq→eq ct pt same_tld),
          )
    ]
  ]

  descendant_complete :
      (tld : Bytes) (labels front : List Bytes)
      → 1 ≤ length front
      → decode_wire_name parent ≡ ok (labels, tld)
      → decode_wire_name child ≡ ok (front ++ labels, tld)
      → strict_descendant parent child ≡ true
  unfolding strict_descendant
  descendant_complete tld labels front h pe ce =
      let size = length-append front labels in
      let off : length (front ++ labels) - length labels ≡ length front = omega arith in
      let longer : ltb (length labels) (length (front ++ labels)) ≡ true = ground arith in
      rw (pe, strict_descendant, ce, bytes_eq_refl tld, longer, off, drop_append front labels)
        (labels_eq_refl labels)

authorized-signed :
    (parent child : Envelope)
    → authorized parent child ≡ true
    → ((parent.body.delegation ≡ some child.signer) × (1 ≤ length child.signer))
      ⊎ (parent.body.owner ≡ child.signer)
unfolding authorized
authorized-signed parent child h = elim (Bool-cases (bytes_eq parent.body.owner child.signer)) [
  | inl e ↦ inr (bytes_eq→eq _ _ e)
  | inr e ↦ elim (Option-cases parent.body.delegation) [
    | inl no_key ↦ ground arith
    | inr (d, key) ↦
        let same : bytes_eq d child.signer ≡ true = ground arith in
        let eq = bytes_eq→eq d child.signer same in inl (key ∙ ap some eq, ground arith)
  ]
]

signed-authorized :
    (parent child : Envelope)
    → ((parent.body.delegation ≡ some child.signer) × (1 ≤ length child.signer))
      ⊎ (parent.body.owner ≡ child.signer)
    → authorized parent child ≡ true
unfolding authorized
signed-authorized parent child (inl (key, size)) = ground (arith, bytes_eq_refl child.signer)
signed-authorized parent child (inr own) =
    ground (arith, ap (λ o. bytes_eq o child.signer) own, bytes_eq_refl child.signer)

pub descents-Below :
    (e : Envelope) (rest : List Envelope) → verify_descents e rest ≡ true → Below e rest
unfolding verify_descents
descents-Below e [] h = Below.end e
descents-Below e (c ∷ rest) h =
    let (tld, labels, front, below, pn, cn) =
      descendant_sound e.body.name c.body.name (ground arith) in
    Below.next
      (record {
        signed = authorized-signed e c (ground arith);
        tld = tld;
        labels = labels;
        front = front;
        below = below;
        parent_name = pn;
        child_name = cn;
      })
      (descents-Below c rest (ground arith))

pub Below-descents :
    {e : Envelope} {rest : List Envelope} → Below e rest → verify_descents e rest ≡ true
unfolding verify_descents
Below-descents (Below.end e) = refl
Below-descents (Below.next {e = e} {c = c} a b) =
    rw
      (
        signed-authorized e c a.signed,
        descendant_complete e.body.name c.body.name a.tld a.labels a.front a.below a.parent_name
            a.child_name,
      )
      (Below-descents b)

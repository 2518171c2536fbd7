-- ===== src/Node/Get/Contained.antt =====
-- Which contacts a node advertises (internal/dht/transport.go, advertiseableNodes).
use freens.Prelude.{
  ℕ, ◌≡◌, refl, arith, Bool, true, false, ◌||◌, not, ltb, List, [], ◌∷◌, Bytes, bytes_eq,
  bytes_eq→eq, Option, none, some, Option-cases, Bool-cases, inl, inr, Distinct, if◌then◌else◌,
}
use mathlib.Core.Path.{subst}
use freens.Store.Entries.{lookup, delete}
use freens.Store.Maps.{keys, Distinct-delete, delete-gone, lookup-delete, lookup-gone}
use freens.Routing.Contact.{NodeContact}
use freens.Blacklist.{Ledger, Entry, flagged_id}
use freens.Node.Get.{is_ghost, flagged_contact, keep_contacts}

-- No identity has two rows.
abbrev pub HasRows : Option Ledger → Type 0
HasRows none = Unit {0}
HasRows (some l) = Distinct (keys l.entries)

-- An identity is flagged while its row has not expired.
unfoldable pub is_flagged : Option Ledger → Bytes → ℕ → Bool
is_flagged none id now = false
is_flagged (some l) id now = elim (lookup id l.entries) [
  | none ↦ false
  | some e ↦ not (ltb e.expires_at now)
]

-- The contacts that are neither flagged nor ghosts, in their order.
unfoldable pub trusted_contacts : Option Ledger → ℕ → ℕ → List NodeContact → List NodeContact
unfolding is_flagged
trusted_contacts black now instant [] = []
trusted_contacts black now instant (c ∷ cs) =
    let rest = trusted_contacts black now instant cs in
    if is_ghost c now || is_flagged black c.node_id instant then rest else c ∷ rest

flagged_contact-is_flagged :
    (black : Option Ledger) (c : NodeContact) (now : ℕ)
    → (flagged_contact black c now).1 ≡ is_flagged black c.node_id now
unfolding flagged_contact flagged_id is_flagged
flagged_contact-is_flagged none c now = refl
flagged_contact-is_flagged (some l) c now = elim (Option-cases (lookup c.node_id l.entries)) [
  | inl e ↦ ground (arith, e)
  | inr (row, e) ↦ ground (arith, e)
]

flagged_contact-HasRows :
    (black : Option Ledger) (c : NodeContact) (now : ℕ)
    → HasRows black
    → HasRows (flagged_contact black c now).0
unfolding flagged_contact flagged_id
flagged_contact-HasRows none c now h = h
flagged_contact-HasRows (some l) c now h = elim (Option-cases (lookup c.node_id l.entries)) [
  | inl e ↦ rw (e, flagged_contact, flagged_id) h
  | inr (row, e) ↦ elim (Bool-cases (ltb row.expires_at now)) [
    | inl f ↦ rw (e, f, flagged_contact, flagged_id) (Distinct-delete c.node_id l.entries h)
    | inr f ↦ rw (e, f, flagged_contact, flagged_id) h
  ]
]

-- A row that is dropped as expired flags nobody else, and did not flag its own identity any more.
drop_row-is_flagged :
    (l : Ledger) (row : Entry) (id other : Bytes) (now : ℕ)
    → Distinct (keys l.entries)
    → lookup id l.entries ≡ some row
    → ltb row.expires_at now ≡ true
    → is_flagged (some (record l { entries = delete id l.entries })) other now
      ≡ is_flagged (some l) other now
unfolding is_flagged
drop_row-is_flagged l row id other now d found old = elim (Bool-cases (bytes_eq id other)) [
  | inr e ↦ rw (lookup-delete other id l.entries e, is_flagged) refl
  | inl e ↦
      let gone = lookup-gone id (delete id l.entries) (delete-gone id l.entries d) in
      subst
        (λ x.
          is_flagged (some (record l { entries = delete id l.entries })) x now
          ≡ is_flagged (some l) x now)
        (bytes_eq→eq id other e) (ground (arith, gone, found, old))
]

flagged_contact_keeps :
    (black : Option Ledger) (c : NodeContact) (other : Bytes) (now : ℕ)
    → HasRows black
    → is_flagged (flagged_contact black c now).0 other now ≡ is_flagged black other now
unfolding flagged_contact flagged_id
flagged_contact_keeps none c other now h = refl
flagged_contact_keeps (some l) c other now h = elim (Option-cases (lookup c.node_id l.entries)) [
  | inl e ↦ rw (e, flagged_contact, flagged_id) refl
  | inr (row, e) ↦ elim (Bool-cases (ltb row.expires_at now)) [
    | inl f ↦
        rw (e, f, flagged_contact, flagged_id) (drop_row-is_flagged l row c.node_id other now h e f)
    | inr f ↦ rw (e, f, flagged_contact, flagged_id) refl
  ]
]

trusted_contacts_same :
    (black black' : Option Ledger) (now instant : ℕ) (cs : List NodeContact)
    → ((id : Bytes) → is_flagged black' id instant ≡ is_flagged black id instant)
    → trusted_contacts black' now instant cs ≡ trusted_contacts black now instant cs
unfolding trusted_contacts
trusted_contacts_same black black' now instant [] h = refl
trusted_contacts_same black black' now instant (c ∷ cs) h =
    rw (h c.node_id, trusted_contacts_same black black' now instant cs h) refl

-- With a ledger in which no identity has two rows, the contacts that a node advertises are exactly
-- those that are not flagged at the time and that have been confirmed or heard of within 600 seconds,
-- in their order.
pub keep_contacts-trusted_contacts :
    (black : Option Ledger) (now instant : ℕ) (cs : List NodeContact)
    → HasRows black
    → (keep_contacts black now instant cs).1 ≡ trusted_contacts black now instant cs
unfolding keep_contacts trusted_contacts
keep_contacts-trusted_contacts black now instant [] h = refl
keep_contacts-trusted_contacts black now instant (c ∷ cs) h =
    let black' = (flagged_contact black c instant).0 in
    let test = flagged_contact-is_flagged black c instant in
    let direct = keep_contacts-trusted_contacts black now instant cs h in
    let later =
      keep_contacts-trusted_contacts black' now instant cs
        (flagged_contact-HasRows black c instant h) in
    let same =
      trusted_contacts_same black black' now instant cs
        (λ id. flagged_contact_keeps black c id instant h) in
    elim (Bool-cases (is_ghost c now)) [
      | inl e ↦ rw (e, keep_contacts, trusted_contacts) direct
      | inr e ↦ elim (Bool-cases (is_flagged black c.node_id instant)) [
        | inl f ↦
            let found : (flagged_contact black c instant).1 ≡ true = cc (test, f) in
            ground (arith, e, f, found, later, same)
        | inr f ↦
            let found : (flagged_contact black c instant).1 ≡ false = cc (test, f) in
            ground (arith, e, f, found, later, same)
      ]
    ]

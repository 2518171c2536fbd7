-- ===== src/Routing/Closest/Swap.antt =====
-- What an exchange of two places does to the contacts, and to their distances.
use mathlib.Core.List.{Perm}
use mathlib.Core.List.Perm
use freens.Prelude.{
  ℕ, zero, suc, ◌≤◌, ◌<◌, ◌≡◌, ◌≢◌, refl, List, [], ◌∷◌, ◌++◌, length, length-set, some, get_elem?,
  set, arith, All, Bytes, sym, ap, ◌∙◌, ◌==◌, ==→eq, if◌then◌else◌, Bool-cases, inl, inr,
}
use freens.Ids.Distance.{IsId, distance}
use freens.Routing.Contact.{NodeContact}
use freens.Routing.Closest.{exchange}
use freens.Routing.Closest.Keys.{IsSwapped}

pub set-perm :
    (xs : List NodeContact) (i : ℕ) (a b : NodeContact)
    → get_elem? xs i ≡ some a
    → Perm (a ∷ set xs i b) (b ∷ xs)
set-perm [] i a b h = cc
set-perm (x ∷ xs) zero a b h = let same : x ≡ a = cc in rw same (Perm.swap b a xs)
set-perm (x ∷ xs) (suc i) a b h =
    Perm.trans (Perm.swap x a (set xs i b))
      (Perm.trans (Perm.cons x (set-perm xs i a b h)) (Perm.swap b x xs))

get_elem?-set :
    (xs : List NodeContact) (i j : ℕ) (a b : NodeContact)
    → get_elem? xs j ≡ some b
    → i ≢ j
    → get_elem? (set xs i a) j ≡ some b
get_elem?-set [] i j a b h ne = cc
get_elem?-set (x ∷ xs) zero zero a b h ne = absurd (ne refl)
get_elem?-set (x ∷ xs) zero (suc j) a b h ne = h
get_elem?-set (x ∷ xs) (suc i) zero a b h ne = h
get_elem?-set (x ∷ xs) (suc i) (suc j) a b h ne = get_elem?-set xs i j a b h (λ e. ne (omega arith))

module _ (xs : List NodeContact) (i j : ℕ) (a b : NodeContact) (at_i : get_elem? xs i ≡ some a)
    (at_j : get_elem? xs j ≡ some b) (ne : i ≢ j) where
  pub exchange-perm : Perm (exchange xs i a j b) xs
  unfolding exchange
  exchange-perm = Perm.cons_inv (
      Perm.trans (set-perm (set xs i b) j b a (get_elem?-set xs i j b b at_j ne))
        (set-perm xs i a b at_i))

module _ (target : Bytes) where
  abbrev pub dist : NodeContact → ℕ
  dist c = distance target c.node_id

  -- The distance at a place, 0 where there is none.
  unfoldable pub key : List NodeContact → ℕ → ℕ
  key [] i = 0
  key (x ∷ xs) zero = dist x
  key (x ∷ xs) (suc i) = key xs i

  pub key-get_elem? :
      (xs : List NodeContact) (i : ℕ) (a : NodeContact)
      → get_elem? xs i ≡ some a
      → key xs i ≡ dist a
  unfolding key
  key-get_elem? [] i a h = cc
  key-get_elem? (x ∷ xs) zero a h = let same : x ≡ a = cc in ap dist same
  key-get_elem? (x ∷ xs) (suc i) a h = key-get_elem? xs i a h

  pub key_beyond : (xs : List NodeContact) (i : ℕ) → length xs ≤ i → key xs i ≡ 0
  unfolding key
  key_beyond [] i h = refl
  key_beyond (x ∷ xs) zero h = absurd (omega arith)
  key_beyond (x ∷ xs) (suc i) h = key_beyond xs i (omega arith)

  pub key-set_at :
      (xs : List NodeContact) (i : ℕ) (a : NodeContact)
      → i < length xs
      → key (set xs i a) i ≡ dist a
  unfolding key
  key-set_at [] i a h = absurd (omega arith)
  key-set_at (x ∷ xs) zero a h = refl
  key-set_at (x ∷ xs) (suc i) a h = key-set_at xs i a (omega arith)

  pub key-set_other :
      (xs : List NodeContact) (i k : ℕ) (a : NodeContact) → k ≢ i → key (set xs i a) k ≡ key xs k
  unfolding key
  key-set_other [] i k a ne = refl
  key-set_other (x ∷ xs) zero zero a ne = absurd (ne refl)
  key-set_other (x ∷ xs) zero (suc k) a ne = refl
  key-set_other (x ∷ xs) (suc i) zero a ne = refl
  key-set_other (x ∷ xs) (suc i) (suc k) a ne = key-set_other xs i k a (λ e. ne (omega arith))

  pub key-append :
      (xs : List NodeContact) (c : NodeContact) (k : ℕ)
      → key (xs ++ (c ∷ [])) k ≡ (if k == length xs then dist c else key xs k)
  unfolding key
  key-append [] c zero = refl
  key-append [] c (suc k) = ground arith
  key-append (x ∷ xs) c zero = ground arith
  key-append (x ∷ xs) c (suc k) = ground (arith, key-append xs c k)

pub some_at :
    (xs : List NodeContact) (i : ℕ) → i < length xs → (a : NodeContact) × (get_elem? xs i ≡ some a)
some_at [] i h = absurd (omega arith)
some_at (x ∷ xs) zero h = (x, refl)
some_at (x ∷ xs) (suc i) h = some_at xs i (omega arith)

abbrev pub AllIds : List NodeContact → Type 0
AllIds xs = All (λ (c : NodeContact). IsId c.node_id) xs

pub AllIds-get_elem? :
    (xs : List NodeContact) (i : ℕ) (a : NodeContact)
    → AllIds xs
    → get_elem? xs i ≡ some a
    → IsId a.node_id
AllIds-get_elem? [] i a g h = cc
AllIds-get_elem? (x ∷ xs) zero a g h = let same : x ≡ a = cc in rw (← same) g.0
AllIds-get_elem? (x ∷ xs) (suc i) a g h = AllIds-get_elem? xs i a g.1 h

pub AllIds-set :
    (xs : List NodeContact) (i : ℕ) (a : NodeContact)
    → AllIds xs
    → IsId a.node_id
    → AllIds (set xs i a)
AllIds-set [] i a g h = tt
AllIds-set (x ∷ xs) zero a g h = (h, g.1)
AllIds-set (x ∷ xs) (suc i) a g h = (g.0, AllIds-set xs i a g.1 h)

-- What the two sifts do to the contacts: they keep them and their number, and end with a heap.
pub record Sifted (target : Bytes) (xs ys : List NodeContact) : Type 0 where
  pub perm : Perm ys xs
  pub ids : AllIds ys
  pub len : length ys ≡ length xs
  pub bound : (b : ℕ) → ((k : ℕ) → key target xs k ≤ b) → (k : ℕ) → key target ys k ≤ b

module _ (target : Bytes) (xs : List NodeContact) (i j : ℕ) (a b : NodeContact)
    (at_i : get_elem? xs i ≡ some a) (at_j : get_elem? xs j ≡ some b) (ne : i ≢ j)
    (in_i : i < length xs) (in_j : j < length xs) where
  pub exchange-IsSwapped : IsSwapped (key target xs) (key target (exchange xs i a j b)) i j
  unfolding exchange
  exchange-IsSwapped = (
    key-set_other target (set xs i b) j i a ne
        ∙ key-set_at target xs i b in_i
        ∙ sym (key-get_elem? target xs j b at_j),
    key-set_at target (set xs i b) j a (omega (arith, length-set xs i b))
        ∙ sym (key-get_elem? target xs i a at_i),
    λ k nk nj. key-set_other target (set xs i b) j k a nj ∙ key-set_other target xs i k b nk,
  )

  pub exchange-Sifted : AllIds xs → Sifted target xs (exchange xs i a j b)
  unfolding exchange
  exchange-Sifted g =
      let (at_first, at_second, same) = exchange-IsSwapped in
      record {
        perm = exchange-perm xs i j a b at_i at_j ne;
        ids =
            AllIds-set (set xs i b) j a (AllIds-set xs i b g (AllIds-get_elem? xs j b g at_j))
              (AllIds-get_elem? xs i a g at_i);
        len = length-set (set xs i b) j a ∙ length-set xs i b;
        bound = λ top h k. elim (Bool-cases (k == i)) [
          | inl e ↦
              let e' = ==→eq k i e in
              omega (arith, ap (key target (set (set xs i b) j a)) e', at_first, h j)
          | inr ni ↦ elim (Bool-cases (k == j)) [
            | inl e ↦
                let e' = ==→eq k j e in
                omega (arith, ap (key target (set (set xs i b) j a)) e', at_second, h i)
            | inr nj ↦ omega (arith, same k (λ q. ground arith) (λ q. ground arith), h k)
          ]
        ];
      }

pub Sifted-refl : (target : Bytes) (xs : List NodeContact) → AllIds xs → Sifted target xs xs
Sifted-refl target xs g = record { perm = Perm.refl xs; ids = g; len = refl; bound = λ b h. h }

pub Sifted-trans :
    (target : Bytes) (xs ys zs : List NodeContact)
    → Sifted target xs ys
    → Sifted target ys zs
    → Sifted target xs zs
Sifted-trans target xs ys zs s t = record {
  perm = Perm.trans t.perm s.perm;
  ids = t.ids;
  len = t.len ∙ s.len;
  bound = λ b h. t.bound b (s.bound b h);
}

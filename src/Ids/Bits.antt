-- ===== src/Ids/Bits.antt =====
-- What the exclusive or of two bytes is, from tables over all bytes.
use freens.Prelude.{
  ℕ, zero, suc, ◌-◌, ◌/◌, ◌%◌, ◌≤◌, ◌<◌, ◌≡◌, ◌≢◌, refl, Bool, true, ◌&&◌, ◌||◌, bit_xor, ltb, leb,
  ◌==◌, List, [], ◌∷◌, ==→eq, ltb→lt, arith, if◌then◌else◌, and-eq-true,
}
use freens.Ids.{bit_len_u8}

-- A test of every byte value below a bound.
unfoldable pub every : (ℕ → Bool) → ℕ → Bool
every test zero = true
every test (suc top) = every test top && test top

pub every_elim :
    (test : ℕ → Bool) (bound v : ℕ) → v < bound → every test bound ≡ true → test v ≡ true
unfolding every
every_elim test zero v small holds = absurd (omega arith)
every_elim test (suc top) v small holds = ground (arith, every_elim test top v)

pair_sound :
    (p : ℕ → ℕ → Bool)
    → every (λ x. every (p x) 256) 256 ≡ true
    → (x y : ℕ) → x < 256
    → y < 256
    → p x y ≡ true
pair_sound p h x y hx hy = every_elim (p x) 256 y hy (every_elim (λ x. every (p x) 256) 256 x hx h)

-- The bits of a byte, most significant first.
abbrev pub byte_bits : ℕ → List ℕ
byte_bits x =
    x / 128 % 2
    ∷ x / 64 % 2
    ∷ x / 32 % 2
    ∷ x / 16 % 2
    ∷ x / 8 % 2
    ∷ x / 4 % 2
    ∷ x / 2 % 2
    ∷ x % 2
    ∷ []

-- How many elements two lists share before they first differ.
unfoldable pub shared_prefix : List ℕ → List ℕ → ℕ
shared_prefix (x ∷ xs) (y ∷ ys) = let more = suc (shared_prefix xs ys) in if x == y then more else 0
shared_prefix _ _ = 0

abbrev xor_test : ℕ → ℕ → Bool
xor_test x y = ltb (bit_xor x y) 256 && bit_xor x (bit_xor x y) == y

xor_table : every (λ x. every (xor_test x) 256) 256 ≡ true
unfolding every
xor_table = refl

xor_tested : (x y : ℕ) → x < 256 → y < 256 → xor_test x y ≡ true
xor_tested = pair_sound xor_test xor_table

pub bit_xor-lt : (x y : ℕ) → x < 256 → y < 256 → bit_xor x y < 256
bit_xor-lt x y hx hy = ltb→lt _ _ (and-eq-true _ _ (xor_tested x y hx hy)).0

pub bit_xor_cancel : (x y : ℕ) → x < 256 → y < 256 → bit_xor x (bit_xor x y) ≡ y
bit_xor_cancel x y hx hy = ==→eq _ _ (and-eq-true _ _ (xor_tested x y hx hy)).1

abbrev zero_test : ℕ → Bool
zero_test x = bit_xor x 0 == x && bit_xor x x == 0

zero_table : every zero_test 256 ≡ true
unfolding every
zero_table = refl

pub bit_xor-zero : (x : ℕ) → x < 256 → bit_xor x 0 ≡ x
bit_xor-zero x h = ==→eq _ _ (and-eq-true _ _ (every_elim zero_test 256 x h zero_table)).0

pub bit_xor_self : (x : ℕ) → x < 256 → bit_xor x x ≡ 0
bit_xor_self x h = ==→eq _ _ (and-eq-true _ _ (every_elim zero_test 256 x h zero_table)).1

pub eq_of_bit_xor-zero : (x y : ℕ) → x < 256 → y < 256 → bit_xor x y ≡ 0 → x ≡ y
eq_of_bit_xor-zero x y hx hy e = ground (arith, bit_xor_cancel x y, bit_xor-zero x)

abbrev prefix_test : ℕ → ℕ → Bool
prefix_test x y =
    x == y || shared_prefix (byte_bits x) (byte_bits y) == 8 - bit_len_u8 (bit_xor x y)

prefix_table : every (λ x. every (prefix_test x) 256) 256 ≡ true
unfolding every bit_len_u8 shared_prefix
prefix_table = refl

pub shared_prefix-byte_bits :
    (x y : ℕ)
    → x < 256
    → y < 256
    → x ≢ y
    → shared_prefix (byte_bits x) (byte_bits y) ≡ 8 - bit_len_u8 (bit_xor x y)
shared_prefix-byte_bits x y hx hy ne = ground (arith, pair_sound prefix_test prefix_table x y hx hy)

abbrev len_test : ℕ → ℕ → Bool
len_test x y =
    ltb y x
    || leb (bit_len_u8 x) (bit_len_u8 y) && leb (bit_len_u8 y) 8 && (y == 0 || ltb 0 (bit_len_u8 y))

len_table : every (λ x. every (len_test x) 256) 256 ≡ true
unfolding every bit_len_u8
len_table = refl

-- The bit length grows with the byte; it is 0 only at 0, and 8 at most.
pub bit_len_u8_mono :
    (x y : ℕ) → x ≤ y → y < 256 → (bit_len_u8 x ≤ bit_len_u8 y) × (bit_len_u8 y ≤ 8)
bit_len_u8_mono x y h hy = ground (arith, pair_sound len_test len_table x y)

pub bit_len_u8-pos : (y : ℕ) → y ≢ 0 → y < 256 → 0 < bit_len_u8 y
bit_len_u8-pos y h hy = ground (arith, pair_sound len_test len_table y y)

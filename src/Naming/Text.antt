-- ===== src/Naming/Text.antt =====
-- Go's `strings` and `unicode` as internal/naming/naming.go uses them, isASCII and isAllDigits.
use freens.Prelude.{
  ℕ, ◌+◌, Bool, true, false, ◌&&◌, ◌||◌, ltb, leb, ◌==◌, List, [], ◌∷◌, map, reverse, if◌then◌else◌,
  Bytes,
}

-- `strings.TrimSpace` and `strings.ToLower` on a text that is not all ASCII: tables of Unicode, which
-- the standard library holds.
pub record Unicode : Type 0 where
  pub trim_space : Bytes → Bytes
  pub to_lower : Bytes → Bytes

unfoldable pub is_ascii : Bytes → Bool
is_ascii [] = true
is_ascii (c ∷ s) = ltb c 0x80 && is_ascii s

abbrev pub is_digit : ℕ → Bool
is_digit c = leb b'0' c && leb c b'9'

unfoldable pub all_digits : Bytes → Bool
all_digits [] = true
all_digits (c ∷ s) = is_digit c && all_digits s

unfoldable pub is_all_digits : Bytes → Bool
unfolding all_digits
is_all_digits [] = false
is_all_digits (c ∷ s) = all_digits (c ∷ s)

-- The white space of ASCII: 9 to 13, and 32.
abbrev pub is_space : ℕ → Bool
is_space c = c == 32 || leb 9 c && leb c 13

unfoldable pub trim_left : Bytes → Bytes
trim_left [] = []
trim_left (c ∷ s) = if is_space c then trim_left s else c ∷ s

unfoldable pub trim_space : Unicode → Bytes → Bytes
unfolding is_ascii trim_left
trim_space u s = if is_ascii s then reverse (trim_left (reverse (trim_left s))) else u.trim_space s

abbrev pub lower : ℕ → ℕ
lower c = if leb b'A' c && leb c b'Z' then c + 32 else c

unfoldable pub to_lower : Unicode → Bytes → Bytes
unfolding is_ascii
to_lower u s = if is_ascii s then map lower s else u.to_lower s

-- `strings.HasPrefix(s, "-")`, `strings.HasSuffix(s, "-")` and `strings.TrimSuffix(s, ".")`.
unfoldable pub has_prefix : ℕ → Bytes → Bool
has_prefix c [] = false
has_prefix c (x ∷ s) = x == c

unfoldable pub has_suffix : ℕ → Bytes → Bool
has_suffix c [] = false
has_suffix c (x ∷ []) = x == c
has_suffix c (x ∷ y ∷ s) = has_suffix c (y ∷ s)

unfoldable pub trim_suffix : ℕ → Bytes → Bytes
trim_suffix c [] = []
trim_suffix c (x ∷ []) = if x == c then [] else x ∷ []
trim_suffix c (x ∷ y ∷ s) = x ∷ trim_suffix c (y ∷ s)

-- `strings.Split(s, ".")`: one part more than there are separators.
abbrev pub cons_head : ℕ → List Bytes → List Bytes
cons_head c [] = (c ∷ []) ∷ []
cons_head c (p ∷ ps) = (c ∷ p) ∷ ps

unfoldable pub split : ℕ → Bytes → List Bytes
split sep [] = [] ∷ []
split sep (c ∷ s) = let rest = split sep s in if c == sep then [] ∷ rest else cons_head c rest

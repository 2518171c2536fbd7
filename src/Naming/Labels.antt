-- ===== src/Naming/Labels.antt =====
-- checkLDH, ValidateAlias, ValidateLabel and DecomposeName of internal/naming/naming.go.
pub mod Grammar
pub mod Normal
pub mod Decompose
use freens.Prelude.{
  ℕ, ◌+◌, ◌-◌, Bool, true, false, ◌&&◌, ◌||◌, not, ltb, leb, ◌==◌, List, [], ◌∷◌, length,
  if◌then◌else◌, Bytes, Option, none, some, Result, ok, err, ◌>>=◌, ◌>>◌, require, map_result,
}
use freens.Naming.Text.{
  Unicode, is_ascii, is_digit, is_all_digits, trim_space, to_lower, has_prefix, has_suffix,
  trim_suffix, split,
}

-- One constructor for each place that returns an error; all are ErrNaming, but for `idna_failed`,
-- the error of IDNANormalizer. `stuck` is no error of the program: a loop's fuel ran out.
pub data NamingError : Type 0 where
  bad_length bad_character edge_hyphen all_numeric idna_failed empty_part too_many_labels :
      NamingError
  bad_tld_id missing_terminator bad_marker missing_length zero_length overrun stuck : NamingError

abbrev pub max_label_len : ℕ
max_label_len = 63

abbrev pub max_labels : ℕ
max_labels = 8

abbrev pub is_ldh : ℕ → Bool
is_ldh c = leb b'a' c && leb c b'z' || leb b'0' c && leb c b'9' || c == b'-'

unfoldable pub all_ldh : Bytes → Bool
all_ldh [] = true
all_ldh (c ∷ s) = is_ldh c && all_ldh s

unfoldable pub check_ldh : Bytes → Bool → Result NamingError (Unit {0})
check_ldh s allow_numeric = do
  require (not (ltb (length s) 1 || ltb max_label_len (length s))) NamingError.bad_length
  require (all_ldh s) NamingError.bad_character
  require (not (has_prefix b'-' s || has_suffix b'-' s)) NamingError.edge_hyphen
  require (not (not allow_numeric && is_all_digits s)) NamingError.all_numeric

-- IDNANormalizer, `none` for nil. Its own result `none` is an error.
abbrev pub Normalizer : Type 0
Normalizer = Option (Bytes → Option Bytes)

unfoldable pub normalize : Normalizer → Bytes → Result NamingError Bytes
normalize none s = ok s
normalize (some f) s =
    if is_ascii s then ok s else elim (f s) [ none ↦ err NamingError.idna_failed | some t ↦ ok t ]

unfoldable pub validate_alias : Unicode → Normalizer → Bytes → Result NamingError Bytes
validate_alias u idna alias = do
  s ← normalize idna (trim_space u alias)
  let t = to_lower u s
  check_ldh t false
  ok t

unfoldable pub validate_label : Unicode → Bytes → Result NamingError Bytes
validate_label u label = do let s = to_lower u (trim_space u label); check_ldh s true; ok s

-- `parts[:len(parts)-1]` and `parts[len(parts)-1]`, of parts that are not empty.
unfoldable pub split_last : Bytes → List Bytes → List Bytes × Bytes
split_last p [] = ([], p)
split_last p (q ∷ ps) = let (front, last) = split_last q ps in (p ∷ front, last)

unfoldable pub all_nonempty : List Bytes → Bool
all_nonempty [] = true
all_nonempty ([] ∷ ps) = false
all_nonempty ((c ∷ p) ∷ ps) = all_nonempty ps

-- The part of DecomposeName after `strings.Split`.
unfoldable pub decompose_parts :
    Unicode → Normalizer → List Bytes → Result NamingError (List Bytes × Bytes)
decompose_parts u idna [] = err NamingError.empty_part
decompose_parts u idna (p ∷ ps) = do
  require (all_nonempty (p ∷ ps)) NamingError.empty_part
  require (not (ltb max_labels (length (p ∷ ps) - 1))) NamingError.too_many_labels
  labels ← map_result (validate_label u) (split_last p ps).0
  alias ← validate_alias u idna (split_last p ps).1
  ok (labels, alias)

unfoldable pub decompose_name :
    Unicode → Normalizer → Bytes → Result NamingError (List Bytes × Bytes)
decompose_name u idna name =
    decompose_parts u idna (split b'.' (trim_suffix b'.' (trim_space u name)))

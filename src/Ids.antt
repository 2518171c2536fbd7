-- ===== src/Ids.antt =====
-- internal/dht/ids.go: the XOR metric on node IDs (checkID, CompareDistance, bitLenU8 and
-- CommonPrefixLength). The results -1, 0, 1 of CompareDistance are `lt`, `eq`, `gt`, and an error of
-- CommonPrefixLength is `none`.
pub mod Bits
pub mod Distance
pub mod Prefix
use freens.Prelude.{
  ℕ, zero, suc, ◌+◌, ◌-◌, ◌/◌, Bool, true, false, ◌&&◌, bit_xor, compare, Ordering, ◌==◌, List, [],
  ◌∷◌, if◌then◌else◌, Bytes, length, Option, none, some,
}

abbrev pub id_len : ℕ
id_len = 32

unfoldable pub check_id : Bytes → Bool
check_id x = length x == id_len

-- The loop of CompareDistance, on what is left of the three slices.
pub compare_from : Bytes → Bytes → Bytes → Ordering
compare_from (t ∷ ts) (a ∷ as') (b ∷ bs) = elim (compare (bit_xor t a) (bit_xor t b)) [
  | Ordering.lt ↦ Ordering.lt
  | Ordering.gt ↦ Ordering.gt
  | Ordering.eq ↦ compare_from ts as' bs
]
compare_from _ _ _ = Ordering.eq

unfoldable pub compare_distance : Bytes → Bytes → Bytes → Ordering
unfolding compare_from check_id
compare_distance target a b =
    if check_id target && check_id a && check_id b then compare_from target a b else Ordering.eq

-- `b >>= 1` while `b` is not 0. A byte takes 8 rounds at most.
bit_len_loop : ℕ → ℕ → ℕ → ℕ
bit_len_loop zero b n = n
bit_len_loop (suc f) b n = let more = bit_len_loop f (b / 2) (n + 1) in if b == 0 then n else more

unfoldable pub bit_len_u8 : ℕ → ℕ
unfolding bit_len_loop
bit_len_u8 b = bit_len_loop 8 b 0

-- The loop of CommonPrefixLength; `shared` is its counter.
pub prefix_from : Bytes → Bytes → ℕ → ℕ
prefix_from (a ∷ as') (b ∷ bs) shared =
    let d = bit_xor a b in
    let more = prefix_from as' bs (shared + 8) in
    if d == 0 then more else shared + (8 - bit_len_u8 d)
prefix_from _ _ shared = shared

unfoldable pub common_prefix_length : Bytes → Bytes → Option ℕ
unfolding prefix_from check_id
common_prefix_length a b =
    if check_id a then (if check_id b then some (prefix_from a b 0) else none) else none

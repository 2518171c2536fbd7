-- ===== src/Claims/Order/Key.antt =====
-- LessOrderKey is a strict total order on the tuples (timestamp, pow_hash, tld_id).
use freens.Prelude.{◌≡◌, true, false, Bytes, bytes_compare, Ordering, arith}
use freens.Wire.Winner.Order.{bytes_compare-flip, bytes_compare-eq, bytes_compare_trans}
use freens.Claims.Claim.{AliasClaim}
use freens.Claims.Order.{less_order_key}

-- The two claims have the same tuple.
abbrev pub SameKey : AliasClaim → AliasClaim → Type 0
SameKey a b = (a.timestamp ≡ b.timestamp) × (a.pow ≡ b.pow) × (a.tld ≡ b.tld)

lt_trans :
    (xs ys zs : Bytes)
    → bytes_compare xs ys ≡ Ordering.lt
    → bytes_compare ys zs ≡ Ordering.lt
    → bytes_compare xs zs ≡ Ordering.lt
lt_trans xs ys zs h k = ground (
  arith,
  bytes_compare-flip xs ys,
  bytes_compare-flip ys zs,
  bytes_compare-flip zs xs,
  bytes_compare-flip xs zs,
  bytes_compare_trans zs ys xs,
)

pub less_order_key_asym :
    (a b : AliasClaim) → less_order_key a b ≡ true → less_order_key b a ≡ false
unfolding less_order_key
less_order_key_asym a b h =
    ground (arith, bytes_compare-flip a.pow b.pow, bytes_compare-flip a.tld b.tld)

-- Claims neither of which comes before the other have the same tuple.
pub less_order_key_total :
    (a b : AliasClaim) → less_order_key a b ≡ false → less_order_key b a ≡ false → SameKey a b
unfolding less_order_key
less_order_key_total a b h k = ground (
  arith,
  bytes_compare-flip a.pow b.pow,
  bytes_compare-flip a.tld b.tld,
  bytes_compare-eq a.pow b.pow,
  bytes_compare-eq a.tld b.tld,
)

-- A claim that does not come after another, which does not come after a third.
pub less_order_key_trans :
    (a b c : AliasClaim)
    → less_order_key b a ≡ false
    → less_order_key c b ≡ false
    → less_order_key c a ≡ false
unfolding less_order_key
less_order_key_trans a b c h k = ground (
  arith,
  bytes_compare-eq a.pow b.pow,
  bytes_compare-eq b.pow c.pow,
  bytes_compare-eq c.pow a.pow,
  bytes_compare-flip a.pow b.pow,
  bytes_compare-flip b.pow c.pow,
  bytes_compare-flip c.pow a.pow,
  lt_trans a.pow b.pow c.pow,
  bytes_compare-eq a.tld b.tld,
  bytes_compare-eq b.tld c.tld,
  bytes_compare-flip a.tld b.tld,
  bytes_compare-flip b.tld c.tld,
  bytes_compare-flip c.tld a.tld,
  lt_trans a.tld b.tld c.tld,
)

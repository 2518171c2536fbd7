-- ===== src/Routing/Bucket/Advertised.antt =====
-- What an advertisement does to a contact that was never confirmed (internal/dht/routing.go,
-- KBucket.AddOrRefresh).
use freens.Prelude.{
  ◌<◌, ◌≡◌, ◌≢◌, refl, [], bytes_eq, bytes_eq→eq, Bool-cases, inl, inr, arith, ltb, true,
}
use freens.Routing.Contact.{
  NodeContact, addr_outranks, best_from, repoint_preferred_if_needed, trim_loop, trim_alts,
  update_alt, merge_addr,
}
use freens.Routing.Bucket.{refreshed}

-- An advertisement at another address with a later time, of a contact that was never confirmed and
-- has no other addresses, moves the preferred address and raises the contact's last-seen time.
pub refreshed_advertised :
    (cur c : NodeContact)
    → c.addr ≢ cur.addr
    → cur.last_seen < c.last_seen
    → ((refreshed (record cur { confirmed_at = 0; alts = [] }) (record c { confirmed_at = 0 })).addr
        ≡ c.addr)
      × ((refreshed
            (record cur { confirmed_at = 0; alts = [] })
            (record c { confirmed_at = 0 })).last_seen
          ≡ c.last_seen)
unfolding refreshed merge_addr trim_alts trim_loop update_alt repoint_preferred_if_needed best_from
    addr_outranks
refreshed_advertised cur c other later = elim (Bool-cases (bytes_eq c.addr cur.addr)) [
  | inl e ↦ absurd (other (bytes_eq→eq _ _ e))
  | inr e ↦
      let newer : ltb cur.last_seen c.last_seen ≡ true = ground arith in
      (
        rw (e, newer, repoint_preferred_if_needed) refl,
        rw (e, newer, repoint_preferred_if_needed) refl,
      )
]

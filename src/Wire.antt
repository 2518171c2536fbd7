-- ===== src/Wire.antt =====
-- internal/wire: signed records, the winner rule, and the authority of a name: the §3.4 chain, the
-- §8.3 transfer walk and the §8.4 recovery walk.
pub mod Record
pub mod Winner
pub mod Authority
pub mod Recovery
pub mod Handoff

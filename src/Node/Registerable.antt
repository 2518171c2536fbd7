-- ===== src/Node/Registerable.antt =====
-- Which aliases a witness signs for (internal/dht/transport.go, hWitness; internal/naming/reserved.go).
use freens.Prelude.{ℕ, ◌≡◌, arith, false, Bytes, Option, none, some, ok, Result-cases, inl, inr}
use freens.Naming.Labels.{validate_alias}
use freens.Naming.Reserved.{is_reserved_tld, check_registerable, check_registerable-free}
use freens.Blacklist.{flagged}
use freens.Node.{Node, Outside, Circumstances, attested}
use freens.Node.Witness.{WitnessArgs, witness_timed, witness_admitted, h_witness}

module _ (o : Outside) where
  witness_timed-registerable :
      (n : Node) (t : Circumstances) (m : WitnessArgs) (ts : Option ℕ) (raw : Bytes) (d : ℕ)
      → n.allow_reserved ≡ false
      → (witness_timed o n t m ts).1 ≡ attested raw d
      → (norm : Bytes) × (check_registerable o.reserved_tlds o.setting.unicode o.setting.idna
            m.alias
          ≡ ok norm)
  unfolding witness_timed
  witness_timed-registerable n t m none raw d strict h = absurd (ground arith)
  witness_timed-registerable n t m (some ts) raw d strict h =
      elim (Result-cases (validate_alias o.setting.unicode o.setting.idna m.alias)) [
        | inr (why, e) ↦ absurd (ground (arith, e))
        | inl (alias, e) ↦
            let free : is_reserved_tld o.reserved_tlds alias ≡ false = ground (arith, e, strict) in
            (
              alias,
              check_registerable-free o.reserved_tlds o.setting.unicode o.setting.idna m.alias alias
                  e free,
            )
      ]

  -- A node that does not allow reserved aliases signs only for aliases that CheckRegisterable accepts.
  pub h_witness-check_registerable :
      (n : Node) (t : Circumstances) (m : WitnessArgs) (raw : Bytes) (d : ℕ)
      → n.allow_reserved ≡ false
      → (h_witness o n t m).1 ≡ attested raw d
      → (norm : Bytes) × (check_registerable o.reserved_tlds o.setting.unicode o.setting.idna
            m.alias
          ≡ ok norm)
  unfolding h_witness witness_admitted
  h_witness-check_registerable n t m raw d strict h =
      let n' = record n { black = (flagged n.black m.sender t.instant).0 } in
      let timed : (witness_timed o n' t m m.ts).1 ≡ attested raw d = ground arith in
      witness_timed-registerable n' t m m.ts raw d strict timed

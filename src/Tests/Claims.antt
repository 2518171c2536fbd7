-- ===== src/Tests/Claims.antt =====
-- Claims, their attestations and their order, on concrete values.
pub mod Values
mod Pool
use freens.Prelude.{
  ℕ, ◌+◌, ◌*◌, ◌^◌, ◌≤◌, ◌<◌, ◌≡◌, ◌↔◌, refl, true, List, [], ◌∷◌, ◌++◌, Bytes, bytes_eq,
  bytes_compare, some, none, ok, err, ℤ, arith, inl, inr, Member, Distinct, length,
}
use mathlib.Core.List.{Perm}
use freens.Ids.Distance.{be_value}
use freens.Naming.Text.{
  is_ascii, all_digits, is_all_digits, trim_left, trim_space, to_lower, has_prefix, has_suffix,
}
use freens.Naming.Labels.{all_ldh, check_ldh, normalize, validate_alias}
use freens.Ids.{bit_len_u8}
use freens.Wire.Recovery.{be_bytes, seen_key}
use freens.Wire.Record.{verify, tld_id}
use freens.Tests.Wire.Records.{text, p}
use freens.Claims.Pow.{
  leading_zero_bits, meets_difficulty, pow_hash, clamp_difficulty_byte, attempt_nonce, mine_loop,
  mine_pow,
}
use freens.Claims.Pow.Value.{meets_difficulty_iff}
use freens.Claims.Attestation.{
  ClaimError, WitnessAttestation, witness_signing_message, new_witness_attestation,
  verify_attestation,
}
use freens.Claims.Attestation.Bound.{
  witness_signing_message_injective, new_witness_attestation-verify,
}
use freens.Claims.Claim.{
  AliasClaim, prefix, infer_difficulty, effective_difficulty, verify_pow_from_prefix, verify_pow,
  verify_claimant_consistency, infer_difficulty_of, mine_alias_claim, decode_alias_claim,
}
use freens.Claims.Claim.Mined.{mine_alias_claim-infer}
use freens.Claims.Claim.Decoded.{HasLengths, decode_alias_claim-nil}
use freens.Claims.Quorum.{
  le64, add64, sub64, in_band, in_set, keep, dedupe, count_nodes, valid_witnesses_from_prefix_hash,
  corroborating_witnesses_from_prefix_hash, has_quorum_from_prefix_hash, fresh_attestations,
  has_fresh_quorum, verify_full,
}
use freens.Claims.Quorum.Full.{IsValid, HasTimes, verify_full-IsValid, IsValid-verify_full}
use freens.Claims.Quorum.Fresh.{has_fresh_quorum-attested}
use freens.Claims.Order.{
  less_order_key, select_from, select_winner, order_claims, survivors, structurally_and_pow_valid,
}
use freens.Claims.Order.Key.{SameKey}
use freens.Claims.Order.Least.{select_winner_converges}
use freens.Claims.Order.Winner.{head, IsOrdered, select_winner-order_claims, order_claims_sorted}
use freens.Tests.Claims.Values.{
  setting, claim, later, second, third, kp, read, mined, torn, prefix_bytes,
}

meets_difficulty_iff_example :
    (meets_difficulty (0 ∷ 0x10 ∷ text 0 30) (ℤ.pos 11) ≡ true)
    ↔ (be_value (0 ∷ 0x10 ∷ text 0 30) * 2 ^ 11 < 2 ^ 256)
meets_difficulty_iff_example =
    meets_difficulty_iff (0 ∷ 0x10 ∷ text 0 30) 11 (omega arith) refl (omega arith)

kp_signs : (msg : Bytes) → verify p kp.public (kp.sign msg) msg ≡ true
unfolding verify bytes_eq
kp_signs msg = refl

second_made : new_witness_attestation p (some kp) 100 prefix_bytes ≡ ok second
unfolding new_witness_attestation tld_id witness_signing_message be_bytes
second_made = refl

second_attested :
    (verify_attestation p second prefix_bytes ≡ true)
    × (second.ts ≡ 100)
    × (second.node_pk ≡ kp.public)
    × (tld_id p kp.public ≡ some second.node_id)
second_attested = new_witness_attestation-verify p kp kp_signs 100 prefix_bytes second second_made

claim-HasTimes : HasTimes setting claim
claim-HasTimes = record {
  low = omega arith;
  high = omega arith;
  signed = λ w m. elim m [
    | inl e ↦ rw (← e) (omega arith)
    | inr (inl e) ↦ rw (← e) (omega arith)
    | inr (inr n) ↦ absurd n
  ];
}

claim_verified : verify_full setting claim (ℤ.negsuc 0) none 2 ≡ true
unfolding verify_full validate_alias normalize check_ldh to_lower trim_space all_ldh has_prefix
    has_suffix is_all_digits all_digits is_ascii trim_left verify_claimant_consistency tld_id
    bytes_eq prefix verify_pow_from_prefix pow_hash meets_difficulty effective_difficulty
    infer_difficulty infer_difficulty_of leading_zero_bits bit_len_u8 verify_attestation
    witness_signing_message add64 count_nodes in_band in_set keep le64 sub64 verify seen_key
    corroborating_witnesses_from_prefix_hash valid_witnesses_from_prefix_hash dedupe
    has_quorum_from_prefix_hash be_bytes
claim_verified = refl

claim-IsValid : IsValid setting claim (ℤ.negsuc 0) none 2
claim-IsValid = verify_full-IsValid setting claim (ℤ.negsuc 0) none 2 claim-HasTimes claim_verified

verify_full-IsValid_example : IsValid setting claim (ℤ.negsuc 0) none 2
verify_full-IsValid_example =
    verify_full-IsValid setting claim (ℤ.negsuc 0) none 2 claim-HasTimes claim_verified

IsValid-verify_full_example : verify_full setting claim (ℤ.negsuc 0) none 2 ≡ true
IsValid-verify_full_example =
    IsValid-verify_full setting claim (ℤ.negsuc 0) none 2 claim-HasTimes
      ((λ m. elim m [ inl e ↦ cc | inr n ↦ n ]), ((λ m. m), tt)) (omega arith) claim-IsValid

fresh : has_fresh_quorum setting (second ∷ third ∷ []) prefix_bytes 140 50 none 2 ≡ true
unfolding has_fresh_quorum fresh_attestations verify_attestation witness_signing_message add64
    count_nodes in_band in_set keep le64 sub64 verify seen_key tld_id bytes_eq
fresh = refl

won : select_winner setting (later ∷ claim ∷ []) ≡ some claim
unfolding select_winner structurally_and_pow_valid verify_pow less_order_key select_from
    bytes_compare validate_alias normalize check_ldh to_lower trim_space all_ldh has_prefix
    has_suffix is_all_digits all_digits is_ascii trim_left verify_claimant_consistency tld_id
    bytes_eq prefix verify_pow_from_prefix pow_hash meets_difficulty effective_difficulty
    infer_difficulty infer_difficulty_of leading_zero_bits bit_len_u8
won = refl

swap : (a b c : AliasClaim) → Member c (a ∷ b ∷ []) → Member c (b ∷ a ∷ [])
swap a b c (inl e) = inr (inl e)
swap a b c (inr (inl e)) = inl e
swap a b c (inr (inr n)) = absurd n

select_winner_converges_example :
    (b : AliasClaim) × (select_winner setting (claim ∷ later ∷ []) ≡ some b) × SameKey claim b
select_winner_converges_example =
    select_winner_converges setting (later ∷ claim ∷ []) (claim ∷ later ∷ [])
      (λ c. (swap later claim c, swap claim later c)) claim won

found : mine_alias_claim setting read mined.alias (some kp) 100 (ℤ.pos 24) 3 (ℤ.pos 2) ≡ ok mined
unfolding mine_alias_claim mine_pow mine_loop attempt_nonce clamp_difficulty_byte tld_id
    meets_difficulty leading_zero_bits pow_hash bit_len_u8 validate_alias normalize check_ldh
    to_lower trim_space all_ldh has_prefix has_suffix is_all_digits all_digits is_ascii trim_left
found = refl

mine_alias_claim-infer_example :
    (infer_difficulty_of setting mined ≡ 24) × (structurally_and_pow_valid setting mined ≡ true)
mine_alias_claim-infer_example =
    mine_alias_claim-infer setting read mined.alias kp 100 24 3 (ℤ.pos 2) mined found (omega arith)
      (omega arith) (cc)

named : validate_alias setting.unicode setting.idna torn.alias ≡ ok torn.alias
unfolding validate_alias normalize check_ldh to_lower trim_space all_ldh has_prefix has_suffix
    is_all_digits all_digits is_ascii trim_left
named = refl

torn-HasLengths : HasLengths torn
torn-HasLengths = record { tld_len = refl; pk_len = refl; pow_len = refl; nonce_len = omega arith }

decode_alias_claim-nil_example :
    decode_alias_claim setting (λ raw. some torn) [] ≡ err ClaimError.nil_dereference
decode_alias_claim-nil_example =
    decode_alias_claim-nil setting (λ raw. some torn) [] torn torn.alias (second ∷ []) [] refl named
      torn-HasLengths refl ((refl, refl, refl), tt)

-- ===== src/Network/Envelope/Validity.antt =====
-- What `ValidateSig` of eth/MsgED.go accepts, and what makes it panic.
use pbft_block.Common.{
  ℕ, ◌≡◌, ◌∙◌, sym, subst, if◌then◌else◌, ◌==◌, Bool, refl, true, Option, none, some, List, [],
  length, ltb, arith, bytes_eq, bytes_beq_iff, inl, inr, Option-cases,
}
use pbft_block.Text.Base64.{decode_string}
use pbft_block.Network.Wire.{CommunicationInfo, Sm2, IsLawful}
use pbft_block.Network.Envelope.{
  Checked, valid, invalid, crashed, Recovered, key, no_key, panicked, verify_digits, rlp_hash,
  crypto_sign, ecrecover, sig_hash, sign_info, validate_sig,
}

module _ {Prv Pub : Type 0} (sm : Sm2 Prv Pub) (law : IsLawful sm) where
  -- The envelope carries the key, and a signature of the payload under it.
  pub record Vouched (pub_key : List ℕ) (ci : CommunicationInfo) : Type 0 where
    pub named : ci.sig.v ≡ pub_key
    pub some_key : ltb 0 (length pub_key) ≡ true
    pub verified : sm.verify (sm.unmarshal pub_key) (sig_hash sm ci) ci.sig.r ci.sig.s ≡ some true

  -- A signature put together from its parts is taken apart into them.
  abbrev recovered : List ℕ → Option Bool → Recovered
  recovered v none = panicked
  recovered v (some flag) = if flag then key v else no_key

  ecrecover-digits :
      (hash v : List ℕ) (r s : ℕ) (sdata : List ℕ)
      → sm.sign_digit_to_sign_data v r s ≡ some sdata
      → ecrecover sm hash sdata ≡ recovered v (verify_digits sm hash v r s)
  unfolding ecrecover
  ecrecover-digits hash v r s sdata made =
      rw (ecrecover, law.digits v r s sdata made)
        (elim (Option-cases (verify_digits sm hash v r s)) [
          | inl e ↦ rw e refl
          | inr (flag, e) ↦ rw e refl
        ])

  -- The test on a signature that can be put together.
  abbrev checked : List ℕ → List ℕ → Option Bool → Checked
  checked v key_read none = crashed
  checked v key_read (some flag) =
      if flag then if v == key_read then valid else invalid else invalid

  validate_sig-digits :
      (nodepk : List ℕ) (ci : CommunicationInfo) (sdata : List ℕ)
      → sm.sign_digit_to_sign_data ci.sig.v ci.sig.r ci.sig.s ≡ some sdata
      → validate_sig sm nodepk ci
        ≡ checked ci.sig.v
            (decode_string nodepk).bytes
            (verify_digits sm (sig_hash sm ci) ci.sig.v ci.sig.r ci.sig.s)
  unfolding validate_sig
  validate_sig-digits nodepk ci sdata made = ground (
    arith,
    ecrecover-digits (sig_hash sm ci) ci.sig.v ci.sig.r ci.sig.s sdata made,
    Option-cases (verify_digits sm (sig_hash sm ci) ci.sig.v ci.sig.r ci.sig.s),
  )

  validate_sig-unmade :
      (nodepk : List ℕ) (ci : CommunicationInfo)
      → sm.sign_digit_to_sign_data ci.sig.v ci.sig.r ci.sig.s ≡ none
      → validate_sig sm nodepk ci ≡ invalid
  unfolding validate_sig
  validate_sig-unmade nodepk ci none_made = ground arith

  checked-Vouched :
      (v key_read hash : List ℕ) (r s : ℕ)
      → checked v key_read (verify_digits sm hash v r s) ≡ valid
      → (v ≡ key_read)
        × (ltb 0 (length v) ≡ true)
        × (sm.verify (sm.unmarshal v) hash r s ≡ some true)
  checked-Vouched v key_read hash r s h =
      ground (arith, Option-cases (sm.verify (sm.unmarshal v) hash r s), bytes_beq_iff v key_read)

  pub validate_sig-Vouched :
      (nodepk : List ℕ) (ci : CommunicationInfo)
      → validate_sig sm nodepk ci ≡ valid
      → Vouched (decode_string nodepk).bytes ci
  validate_sig-Vouched nodepk ci h =
      elim (Option-cases (sm.sign_digit_to_sign_data ci.sig.v ci.sig.r ci.sig.s)) [
        | inl e ↦ ground (arith, validate_sig-unmade nodepk ci e)
        | inr (sdata, e) ↦
            let (named, more, ok) =
              checked-Vouched ci.sig.v (decode_string nodepk).bytes (sig_hash sm ci) ci.sig.r
                ci.sig.s (sym (validate_sig-digits nodepk ci sdata e) ∙ h) in
            record {
              named = named;
              some_key = subst (λ k. ltb 0 (length k) ≡ true) named more;
              verified =
                  subst
                    (λ k. sm.verify (sm.unmarshal k) (sig_hash sm ci) ci.sig.r ci.sig.s ≡ some true)
                    named ok;
            }
      ]

  -- A signature that names no key is the end of the process.
  pub validate_sig-crashed :
      (nodepk : List ℕ) (ci : CommunicationInfo) (sdata : List ℕ)
      → ci.sig.v ≡ []
      → sm.sign_digit_to_sign_data [] ci.sig.r ci.sig.s ≡ some sdata
      → validate_sig sm nodepk ci ≡ crashed
  unfolding validate_sig ecrecover
  validate_sig-crashed nodepk ci sdata empty h =
      ground (arith, law.digits [] ci.sig.r ci.sig.s sdata)

  -- The parts of a signature that a node makes.
  record Signed (seed : ℕ) (bytes : List ℕ) (prv : Prv) (ci : CommunicationInfo) : Type 0 where
    pay_load : ci.pay_load ≡ bytes
    named : ci.sig.v ≡ sm.marshal (sm.public_key prv)
    made : sm.sign seed prv (rlp_hash sm bytes) ≡ some (ci.sig.r, ci.sig.s)
    sdata : List ℕ
    joined : sm.sign_digit_to_sign_data ci.sig.v ci.sig.r ci.sig.s ≡ some sdata

  sign_info-Signed :
      (seed : ℕ) (bytes : List ℕ) (prv : Prv) (ci : CommunicationInfo)
      → sign_info sm seed bytes prv ≡ some ci
      → Signed seed bytes prv ci
  unfolding sign_info crypto_sign
  sign_info-Signed seed bytes prv ci signed =
      elim (Option-cases (sm.sign seed prv (rlp_hash sm bytes))) [
        | inl e ↦ ground (arith, law.no_digits)
        | inr (d, e) ↦
            elim (Option-cases
              (sm.sign_digit_to_sign_data (sm.marshal (sm.public_key prv)) (d.0) (d.1))) [
                | inl e' ↦ ground (arith, law.no_digits)
                | inr (sdata, e') ↦ record {
                  pay_load =
                      ground
                        (arith, law.digits (sm.marshal (sm.public_key prv)) (d.0) (d.1) sdata e');
                  named =
                      ground
                        (arith, law.digits (sm.marshal (sm.public_key prv)) (d.0) (d.1) sdata e');
                  made =
                      ground
                        (arith, law.digits (sm.marshal (sm.public_key prv)) (d.0) (d.1) sdata e');
                  sdata = sdata;
                  joined =
                      ground
                        (arith, law.digits (sm.marshal (sm.public_key prv)) (d.0) (d.1) sdata e');
                }
              ]
      ]

  -- What a node signs passes the test of everyone who has its public key.
  pub validate_sig-sign_info :
      (seed : ℕ) (bytes nodepk : List ℕ) (prv : Prv) (ci : CommunicationInfo)
      → sign_info sm seed bytes prv ≡ some ci
      → (decode_string nodepk).bytes ≡ sm.marshal (sm.public_key prv)
      → (ci.pay_load ≡ bytes) × (validate_sig sm nodepk ci ≡ valid)
  validate_sig-sign_info seed bytes nodepk prv ci signed key_read =
      let g = sign_info-Signed seed bytes prv ci signed in
      (
        g.pay_load,
        ground (
          arith,
          validate_sig-digits nodepk ci g.sdata g.joined,
          law.marshal_some (sm.public_key prv),
          law.verify-sign seed prv (rlp_hash sm bytes) ci.sig.r ci.sig.s g.made,
          law.unmarshal-marshal (sm.public_key prv),
          bytes_beq_iff ci.sig.v (decode_string nodepk).bytes,
          g.named,
          g.pay_load,
        ),
      )

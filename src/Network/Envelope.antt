-- ===== src/Network/Envelope.antt =====
-- Signed messages: eth/MsgED.go, `signRawData` and the `Send` methods of eth/peer.go, and the three
-- functions of crypto-gm/crypto.go that they call.
pub mod Validity
use pbft_block.Common.{
  ℕ, ◌%◌, ◌^◌, Option, none, some, List, [], Bool, ltb, length, if◌then◌else◌, ◌==◌, bytes_eq,
}
use pbft_block.Text.Base64.{decode_string}
use pbft_block.Msg.{Checkpoint, ConsensusMsg, ConsensusMsg2}
use pbft_block.Network.Wire.{
  CommunicationInfo, TestMsg, Packet, Rlp, Codec, Sm2, con_msg, checkpoin, zhuanfa, test_send_msg,
  test_recive_msg, wire_of, wire2_of,
}

-- What a test of a signature comes to. Nothing recovers from a panic in it, so that it ends the
-- process.
pub data Checked : Type 0 where
  valid invalid crashed : Checked

-- The same for a key that is read from a signature.
pub data Recovered : Type 0 where
  key : List ℕ → Recovered
  no_key : Recovered
  panicked : Recovered

module _ {Prv Pub : Type 0} (sm : Sm2 Prv Pub) where
  -- `Sign` of crypto-gm/crypto.go.
  unfoldable pub crypto_sign : ℕ → List ℕ → Prv → Option (List ℕ)
  crypto_sign seed hash prv = elim (sm.sign seed prv hash) [
    | none ↦ none
    | some digits ↦
        sm.sign_digit_to_sign_data (sm.marshal (sm.public_key prv)) (digits.0) (digits.1)
  ]

  -- `Verify` on the parts of a signature: an empty key is the nil pointer, whose curve it reads.
  abbrev pub verify_digits : List ℕ → List ℕ → ℕ → ℕ → Option Bool
  verify_digits hash v r s = if ltb 0 (length v) then sm.verify (sm.unmarshal v) hash r s else none

  -- `Ecrecover`: the key is the one that the signature names.
  unfoldable pub ecrecover : List ℕ → List ℕ → Recovered
  ecrecover hash sig = elim (sm.sign_data_to_sign_digit sig) [
    | none ↦ no_key
    | some (v, r, s) ↦ elim (verify_digits hash v r s) [
      | none ↦ panicked
      | some flag ↦ if flag then key v else no_key
    ]
  ]

  -- `RlpHash` of a list of one.
  abbrev pub rlp_hash : List ℕ → List ℕ
  rlp_hash payload = sm.sm3 (sm.rlp_list payload)

  abbrev pub sig_hash : CommunicationInfo → List ℕ
  sig_hash ci = rlp_hash ci.pay_load

  -- `Sign`: where the signature fails, no bytes are taken apart, which is an error.
  unfoldable pub sign_info : ℕ → List ℕ → Prv → Option CommunicationInfo
  unfolding crypto_sign
  sign_info seed bytes prv =
      let sdata : List ℕ = elim (crypto_sign seed (rlp_hash bytes) prv) [
        | none ↦ []
        | some d ↦ d
      ] in
      elim (sm.sign_data_to_sign_digit sdata) [
        | none ↦ none
        | some (v, r, s) ↦
            some (record { pay_load = bytes; sig = record { v = v; r = r; s = s }; vrs = [] })
      ]

  -- `ValidateSig`, which decodes the key once more and takes what was decoded even on an error.
  unfoldable pub validate_sig : List ℕ → CommunicationInfo → Checked
  unfolding ecrecover
  validate_sig nodepk ci = elim (sm.sign_digit_to_sign_data ci.sig.v ci.sig.r ci.sig.s) [
    | none ↦ invalid
    | some sig ↦ elim (ecrecover (sig_hash ci) sig) [
      | key v ↦ if v == (decode_string nodepk).bytes then valid else invalid
      | no_key ↦ invalid
      | panicked ↦ crashed
    ]
  ]

  module _ (co : Codec) where
    -- `p2p.Send`, whose size is a uint32.
    abbrev send : ℕ → CommunicationInfo → Option Packet
    send code ci = elim (co.info.encode ci) [
      | none ↦ none
      | some bytes ↦ some (record { code = code; size = length bytes % 2 ^ 32; payload = bytes })
    ]

    -- `signRawData`.
    unfoldable pub sign_raw_data : {A : Type 0} → Rlp A → ℕ → A → Prv → Option CommunicationInfo
    unfolding sign_info
    sign_raw_data rlp seed m prv = elim (rlp.encode m) [
      | none ↦ none
      | some bytes ↦ sign_info seed bytes prv
    ]

    -- `none` for an error, which the loops that send leave.
    unfoldable pub send_signed : {A : Type 0} → Rlp A → ℕ → ℕ → A → Prv → Option Packet
    unfolding sign_raw_data
    send_signed rlp code seed m prv = elim (sign_raw_data rlp seed m prv) [
      | none ↦ none
      | some ci ↦ send code ci
    ]

    abbrev pub send_cons_send_msg : ℕ → ConsensusMsg → Prv → Option Packet
    send_cons_send_msg seed m = send_signed co.cons con_msg seed (wire_of co m)

    abbrev pub send_check_point_msg : ℕ → Checkpoint → Prv → Option Packet
    send_check_point_msg = send_signed co.check checkpoin

    abbrev pub send_zhuanfa_msg : ℕ → ConsensusMsg2 → Prv → Option Packet
    send_zhuanfa_msg seed m = send_signed co.cons2 zhuanfa seed (wire2_of co m)

    abbrev pub send_test_send_msg : ℕ → TestMsg → Prv → Option Packet
    send_test_send_msg = send_signed co.test test_send_msg

    abbrev pub send_test_recive_msg : ℕ → TestMsg → Prv → Option Packet
    send_test_recive_msg = send_signed co.test test_recive_msg

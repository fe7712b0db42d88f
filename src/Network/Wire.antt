-- ===== src/Network/Wire.antt =====
-- What eth/peer.go and eth/handler.go put on the wire, and the libraries that encode it.
--
-- RLP (the copy of go-ethereum's package), JSON and the SM2 cryptography are parameters: records of
-- the functions that the code calls. A record of laws holds what their documentation says.
use pbft_block.Common.{ℕ, ◌*◌, ◌≡◌, Option, none, some, List, [], ◌∷◌, Bool, true, All, length, ltb}
use pbft_block.Text.{Str, codes}
use pbft_block.Text.Base64.{IsByte}
use pbft_block.Msg.{
  Request, PrePrepare, Prepare, Commit, Checkpoint, Payload, pbft_request, pbft_pre_prepare,
  pbft_prepare, pbft_commit, con_status_request, ConsensusMsg, ConsensusMsg2,
}

pub record Signature : Type 0 where
  pub v : List ℕ  -- the public key
  pub r : ℕ
  pub s : ℕ

pub record CommunicationInfo : Type 0 where
  pub pay_load : List ℕ
  pub sig : Signature
  pub vrs : List ℕ

-- `ConsensusMsg` with its text and the name of its type.
pub record WireMsg : Type 0 where
  pub msg : Str
  pub timestamp : ℕ
  pub typ : Str
  pub sender : Str

pub record WireMsg2 : Type 0 where
  pub msg : Str
  pub timestamp : ℕ
  pub typ : Str
  pub sender : Str
  pub newsender : Str
  pub other : Str

pub record TestMsg : Type 0 where
  pub msg : Str
  pub sender : Str
  pub time : Str

-- `Msg` of p2p/message.go.
pub record Packet : Type 0 where
  pub code : ℕ
  pub size : ℕ
  pub payload : List ℕ

abbrev pub con_msg : ℕ
con_msg = 0x08

abbrev pub checkpoin : ℕ
checkpoin = 0x09

abbrev pub zhuanfa : ℕ
zhuanfa = 0x10

abbrev pub test_send_msg : ℕ
test_send_msg = 0x12

abbrev pub test_recive_msg : ℕ
test_recive_msg = 0x13

abbrev pub protocol_max_msg_size : ℕ
protocol_max_msg_size = 100 * 1024 * 1024

-- An encoder, which may fail, with its decoder.
pub record Rlp (A : Type 0) : Type 0 where
  pub encode : A → Option (List ℕ)
  pub decode : List ℕ → Option A

-- The texts of JSON; a text that does not fit leaves what the decoder has filled in so far.
pub record Json : Type 0 where
  pub tostring : Payload → Str
  pub to_request : Str → Request
  pub to_pre_prepare : Str → PrePrepare
  pub to_prepare : Str → Prepare
  pub to_commit : Str → Commit

pub record Codec : Type 0 where
  pub info : Rlp CommunicationInfo
  pub cons : Rlp WireMsg
  pub cons2 : Rlp WireMsg2
  pub check : Rlp Checkpoint
  pub test : Rlp TestMsg
  pub json : Json

-- The calls of crypto-gm/sm2, crypto/elliptic, sm3 and rlp that sign and verify. `sign` is given the
-- random bytes that it draws, as a number; `verify` gives `none` where it panics on a key whose
-- point is not on the curve.
pub record Sm2 (Prv Pub : Type 0) : Type 0 where
  pub sign : ℕ → Prv → List ℕ → Option (ℕ × ℕ)
  pub verify : Pub → List ℕ → ℕ → ℕ → Option Bool
  pub public_key : Prv → Pub
  pub marshal : Pub → List ℕ
  pub unmarshal : List ℕ → Pub
  pub sign_digit_to_sign_data : List ℕ → ℕ → ℕ → Option (List ℕ)
  pub sign_data_to_sign_digit : List ℕ → Option (List ℕ × ℕ × ℕ)
  pub sm3 : List ℕ → List ℕ
  pub rlp_list : List ℕ → List ℕ

-- Signatures are accepted under the key of the signer, keys are read back as they are written, in
-- some bytes, and so are the parts of a signature; there are none in the empty text.
pub record IsLawful {Prv Pub : Type 0} (sm : Sm2 Prv Pub) : Type 0 where
  pub verify-sign :
      (seed : ℕ) (key : Prv) (hash : List ℕ) (r s : ℕ)
      → sm.sign seed key hash ≡ some (r, s)
      → sm.verify (sm.public_key key) hash r s ≡ some true
  pub unmarshal-marshal : (pub_key : Pub) → sm.unmarshal (sm.marshal pub_key) ≡ pub_key
  pub marshal_some : (pub_key : Pub) → ltb 0 (length (sm.marshal pub_key)) ≡ true
  pub marshal-IsByte : (pub_key : Pub) → All IsByte (sm.marshal pub_key)
  pub digits :
      (v : List ℕ) (r s : ℕ) (sdata : List ℕ)
      → sm.sign_digit_to_sign_data v r s ≡ some sdata
      → sm.sign_data_to_sign_digit sdata ≡ some (v, r, s)
  pub no_digits : sm.sign_data_to_sign_digit [] ≡ none

abbrev pub type_of : Payload → Str
type_of (pbft_request r) = codes "PBFTRequest"
type_of (pbft_pre_prepare p) = codes "PBFTPrePrepare"
type_of (pbft_prepare p) = codes "PBFTPrepare"
type_of (pbft_commit c) = codes "PBFTCommit"
type_of (con_status_request id) = codes "ConStatusRequest"

-- The bytes of "转发消息".
abbrev forwarded : Str
forwarded = 0xE8 ∷ 0xBD ∷ 0xAC ∷ 0xE5 ∷ 0x8F ∷ 0x91 ∷ 0xE6 ∷ 0xB6 ∷ 0x88 ∷ 0xE6 ∷ 0x81 ∷ 0xAF ∷ []

module _ (co : Codec) where
  -- The struct that the handler builds for a message.
  abbrev pub wire_of : ConsensusMsg → WireMsg
  wire_of m = record {
    msg = co.json.tostring m.msg;
    timestamp = m.timestamp;
    typ = type_of m.msg;
    sender = m.sender;
  }

  abbrev pub wire2_of : ConsensusMsg2 → WireMsg2
  wire2_of m = record {
    msg = co.json.tostring m.msg;
    timestamp = m.timestamp;
    typ = type_of m.msg;
    sender = m.sender;
    newsender = m.newsender;
    other = forwarded;
  }

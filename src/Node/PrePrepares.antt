-- ===== src/Node/PrePrepares.antt =====
-- What `RecvPrePrepare` of eth/pbft-core.go makes of a pre-prepare that carries a request.
use pbft_block.Common.{
  ℕ, ◌≤◌, ◌<◌, ◌≡◌, refl, true, false, Option, none, some, arith, has, lookup-insert, insert,
  nat_eq, bytes_eq, bytes_beq_iff,
}
use pbft_block.Msg.{Block, Request, PrePrepare, Prepare, MsgId, msg_id_eq}
use pbft_block.Worker.{Worker, in_v, note_req_id}
use pbft_block.Pool.{put_pvb_and_beats, get_block}
use pbft_block.Cert.{msg_id, get_cert, set_cert}
use pbft_block.Handlers.Request.{store_request}
use pbft_block.Handlers.PrePrepare.{
  recv_pre_prepare, admit_request, check_height, enter_cert, answer_pre_prepare, check_digest,
  file_block, use_block, send_prepare, track_pre_prepare,
}

-- The requests stay, once the digest of the pre-prepare is among them.
use_block-store :
    (now : ℕ) (p : PrePrepare) (id : MsgId) (found real : Option Block) (w : Worker)
    → (use_block now p id found real w).node.req_store ≡ w.req_store
unfolding use_block send_prepare set_cert put_pvb_and_beats
use_block-store now p id (some b) real w = ground arith
use_block-store now p id none (some b) w = ground arith
use_block-store now p id none none w = refl

answer-store :
    (now : ℕ) (p : PrePrepare) (req : Request) (w : Worker)
    → has p.request_digest w.req_store ≡ true
    → (answer_pre_prepare now p req w).node.req_store ≡ w.req_store
unfolding answer_pre_prepare check_digest file_block
answer-store now p req w e = ground (
  arith,
  use_block-store now p (msg_id p.view req.req_id)
      (get_block req.block_height req.block_hash w.possible_valid_block) req.real_block w,
)

enter_cert-store :
    (now : ℕ) (p : PrePrepare) (req : Request) (w : Worker)
    → has p.request_digest w.req_store ≡ true
    → (enter_cert now p req w).node.req_store ≡ w.req_store
unfolding enter_cert track_pre_prepare get_cert set_cert
enter_cert-store now p req w e =
    let w' = get_cert (msg_id p.view req.req_id) w in
    ground (
      arith,
      answer-store now p req w',
      answer-store now p req (track_pre_prepare p (msg_id p.view req.req_id) w'),
    )

-- A request that a pre-prepare may bring in.
abbrev pub Welcome : PrePrepare → Request → Worker → Type 0
Welcome p req w =
    (w.ready ≡ true)
    × (p.view ≡ w.view)
    × (has p.request_digest w.req_store ≡ false)
    × (req.sender ≡ w.leader)
    × (w.view ≤ req.view)
    × (w.current_block < req.block_height)

-- A request of the leader, above the chain and of no older view, that comes to a ready node with
-- a pre-prepare of its view under a digest that is not in the store: it is stored under that
-- digest, whoever sent the pre-prepare, and no other entry changes. Nothing more is asked of the
-- digest.
pub recv_pre_prepare_stores :
    (now : ℕ) (p : PrePrepare) (req : Request) (w : Worker)
    → p.request ≡ some req
    → Welcome p req w
    → (recv_pre_prepare now p w).node.req_store ≡ insert p.request_digest req w.req_store
unfolding recv_pre_prepare admit_request check_height store_request note_req_id in_v
recv_pre_prepare_stores now p req w e welcome = ground (
  arith,
  bytes_beq_iff req.sender w.leader,
  bytes_beq_iff p.request_digest p.request_digest,
  lookup-insert p.request_digest p.request_digest req w.req_store,
  enter_cert-store now p req (store_request p.request_digest req (note_req_id p.req_id w)),
)

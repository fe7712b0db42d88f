-- ===== src/Node/Quiet.antt =====
-- The handlers of requests and pre-prepares, and the start of a block, post no commit.
use pbft_block.Common.{ℕ, ◌≡◌, refl, Option, none, some, List, [], ◌∷◌, arith}
use pbft_block.Text.{Str}
use pbft_block.Msg.{Block, Request, PrePrepare, Prepare, Checkpoint, MsgId}
use pbft_block.Worker.{Worker, note_req_id}
use pbft_block.Pool.{put_pvb_and_beats, get_block}
use pbft_block.Cert.{msg_id, get_cert, cert_at}
use pbft_block.Handlers.Request.{recv_request, store_request, propose, new_hash_req}
use pbft_block.Handlers.PrePrepare.{
  recv_pre_prepare, admit_request, check_height, enter_cert, answer_pre_prepare, check_digest,
  file_block, use_block, send_prepare, track_pre_prepare, retry_prepare, first_prepare,
}
use pbft_block.Handlers.Transfer.{send_con_msg_transfer1}
use pbft_block.Handlers.Checkpoint.{recv_checkpoint}
use pbft_block.Mining.{start_consensus, build_block, send_request}
use pbft_block.Node.Careful.{commit_heights, commit_heights-append}

send_prepare_quiet :
    (now : ℕ) (p : PrePrepare) (id : MsgId) (b : Block) (w : Worker)
    → commit_heights (send_prepare now p id b w).effects ≡ []
unfolding send_prepare send_con_msg_transfer1
send_prepare_quiet now p id b w = ground arith

use_block_quiet :
    (now : ℕ) (p : PrePrepare) (id : MsgId) (found real : Option Block) (w : Worker)
    → commit_heights (use_block now p id found real w).effects ≡ []
unfolding use_block
use_block_quiet now p id (some b) real w = send_prepare_quiet now p id b w
use_block_quiet now p id none (some b) w = send_prepare_quiet now p id b (put_pvb_and_beats now b w)
use_block_quiet now p id none none w = refl

answer_quiet :
    (now : ℕ) (p : PrePrepare) (req : Request) (w : Worker)
    → commit_heights (answer_pre_prepare now p req w).effects ≡ []
unfolding answer_pre_prepare check_digest file_block
answer_quiet now p req w = ground (
  arith,
  use_block_quiet now p (msg_id p.view req.req_id)
      (get_block req.block_height req.block_hash w.possible_valid_block) req.real_block w,
  use_block_quiet now p (msg_id p.view req.req_id)
      (get_block req.block_height req.block_hash
        (store_request (new_hash_req req) req w).possible_valid_block)
      req.real_block (store_request (new_hash_req req) req w),
)

first_prepare_quiet : (ps : List Prepare) → commit_heights (first_prepare ps) ≡ []
first_prepare_quiet [] = refl
first_prepare_quiet (p ∷ ps) = refl

retry_prepare_quiet :
    (p : PrePrepare) (id : MsgId) (w : Worker) → commit_heights (retry_prepare p id w) ≡ []
unfolding retry_prepare
retry_prepare_quiet p id w = ground (arith, first_prepare_quiet (cert_at id w).prepare)

enter_cert_quiet :
    (now : ℕ) (p : PrePrepare) (req : Request) (w : Worker)
    → commit_heights (enter_cert now p req w).effects ≡ []
unfolding enter_cert
enter_cert_quiet now p req w =
    let id = msg_id p.view req.req_id in
    let tracked = track_pre_prepare p id (get_cert id w) in
    ground (
      arith,
      answer_quiet now p req (get_cert id w),
      answer_quiet now p req tracked,
      retry_prepare_quiet p id tracked,
      commit_heights-append (retry_prepare p id tracked)
          (answer_pre_prepare now p req tracked).effects,
    )

check_height_quiet :
    (now : ℕ) (p : PrePrepare) (req : Option Request) (w : Worker)
    → commit_heights (check_height now p req w).effects ≡ []
unfolding check_height
check_height_quiet now p none w = refl
check_height_quiet now p (some req) w = ground (arith, enter_cert_quiet now p req w)

admit_request_quiet :
    (now : ℕ) (p : PrePrepare) (req : Option Request) (w : Worker)
    → commit_heights (admit_request now p req w).effects ≡ []
unfolding admit_request
admit_request_quiet now p none w = refl
admit_request_quiet now p (some req) w = ground (
  arith,
  check_height_quiet now p (some req) (store_request p.request_digest req (note_req_id p.req_id w)),
)

pub recv_pre_prepare_quiet :
    (now : ℕ) (p : PrePrepare) (w : Worker) → commit_heights (recv_pre_prepare now p w).effects ≡ []
unfolding recv_pre_prepare
recv_pre_prepare_quiet now p w =
    ground (arith, check_height_quiet now p p.request w, admit_request_quiet now p p.request w)

propose_quiet :
    (now : ℕ) (digest : Str) (req : Request) (real : Option Block) (w : Worker)
    → commit_heights (propose now digest req real w).effects ≡ []
unfolding propose
propose_quiet now digest req none w = refl
propose_quiet now digest req (some b) w = refl

pub recv_request_quiet :
    (now : ℕ) (req : Request) (w : Worker) → commit_heights (recv_request now req w).effects ≡ []
unfolding recv_request
recv_request_quiet now req w = ground (
  arith,
  propose_quiet now (new_hash_req req) req req.real_block
      (store_request (new_hash_req req) req (note_req_id req.req_id w)),
)

pub start_consensus_quiet :
    (now : ℕ) (w : Worker) → commit_heights (start_consensus now w).effects ≡ []
unfolding start_consensus build_block send_request
start_consensus_quiet now w = ground arith

pub recv_checkpoint_quiet :
    (now : ℕ) (c : Checkpoint) (w : Worker) → commit_heights (recv_checkpoint now c w).effects ≡ []
unfolding recv_checkpoint
recv_checkpoint_quiet now c w = ground arith

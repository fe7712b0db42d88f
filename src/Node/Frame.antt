-- ===== src/Node/Frame.antt =====
-- What the handlers leave as it is: each lemma is for one stage of a handler.
use pbft_block.Common.{ℕ, ◌≡◌, refl, Bool, true, false, Option, none, some, [], ◌∷◌, arith, Map}
use pbft_block.Text.{Str}
use pbft_block.Msg.{Block, Request, PrePrepare, Checkpoint, MsgId, MsgCert}
use pbft_block.Worker.{
  Worker, note_req_id, cancel_consensus, update_lease_beat, update_checkpoint_bh, set_chkpt,
}
use pbft_block.Pool.{put_pvb_and_beats, delete_pvb_and_beats, delete_pvb_and_beats_by_hash}
use pbft_block.Cert.{msg_id, cert_at, get_cert, set_cert, put_pre_prepare_in_cert}
use pbft_block.Handlers.Request.{recv_request, store_request, propose, new_hash_req}
use pbft_block.Handlers.PrePrepare.{
  recv_pre_prepare, admit_request, check_height, enter_cert, answer_pre_prepare, check_digest,
  file_block, use_block, send_prepare, track_pre_prepare,
}
use pbft_block.Handlers.Checkpoint.{recv_checkpoint, store_checkpoint}
use pbft_block.Mining.{start_consensus, build_block, send_request, expire, expire_all, expire_one}

-- The identity of the node, its chain, and the heights it has committed itself to.
pub record Frame (w w' : Worker) : Type 0 where
  pub node_id : w'.node_id ≡ w.node_id
  pub n : w'.n ≡ w.n
  pub leader : w'.leader ≡ w.leader
  pub view : w'.view ≡ w.view
  pub ready : w'.ready ≡ w.ready
  pub static_block : w'.static_block ≡ w.static_block
  pub current_block : w'.current_block ≡ w.current_block
  pub commit_store : w'.commit_store ≡ w.commit_store

Frame-refl : (w : Worker) → Frame w w
Frame-refl w = ground arith

pub get_cert-Frame : (id : MsgId) (w : Worker) → Frame w (get_cert id w)
unfolding get_cert
get_cert-Frame id w = ground arith

pub set_cert-Frame : (id : MsgId) (c : MsgCert) (w : Worker) → Frame w (set_cert id c w)
unfolding set_cert
set_cert-Frame id c w = ground arith

put_pvb_and_beats-Frame : (now : ℕ) (b : Block) (w : Worker) → Frame w (put_pvb_and_beats now b w)
unfolding put_pvb_and_beats
put_pvb_and_beats-Frame now b w = record {
  node_id = refl;
  n = refl;
  leader = refl;
  view = refl;
  ready = refl;
  static_block = refl;
  current_block = refl;
  commit_store = refl;
}

send_prepare-Frame :
    (now : ℕ) (p : PrePrepare) (id : MsgId) (b : Block) (w : Worker)
    → Frame w (send_prepare now p id b w).node
unfolding send_prepare set_cert
send_prepare-Frame now p id b w = ground arith

use_block-Frame :
    (now : ℕ) (p : PrePrepare) (id : MsgId) (found real : Option Block) (w : Worker)
    → Frame w (use_block now p id found real w).node
unfolding use_block
use_block-Frame now p id (some b) real w = send_prepare-Frame now p id b w
use_block-Frame now p id none (some b) w = ground (
  arith,
  send_prepare-Frame now p id b (put_pvb_and_beats now b w),
  put_pvb_and_beats-Frame now b w,
)
use_block-Frame now p id none none w = Frame-refl w

file_block-Frame :
    (now : ℕ) (p : PrePrepare) (req : Request) (w : Worker) → Frame w (file_block now p req w).node
unfolding file_block
file_block-Frame now p req w = use_block-Frame now p _ _ _ w

check_digest-Frame :
    (now : ℕ) (p : PrePrepare) (req : Request) (w : Worker)
    → Frame w (check_digest now p req w).node
unfolding check_digest store_request
check_digest-Frame now p req w = ground (
  arith,
  file_block-Frame now p req w,
  file_block-Frame now p req (store_request (new_hash_req req) req w),
)

answer_pre_prepare-Frame :
    (now : ℕ) (p : PrePrepare) (req : Request) (w : Worker)
    → Frame w (answer_pre_prepare now p req w).node
unfolding answer_pre_prepare
answer_pre_prepare-Frame now p req w = ground (arith, check_digest-Frame now p req w)

enter_cert-Frame :
    (now : ℕ) (p : PrePrepare) (req : Request) (w : Worker) → Frame w (enter_cert now p req w).node
unfolding enter_cert track_pre_prepare
enter_cert-Frame now p req w =
    let id = msg_id p.view req.req_id in
    let w' = get_cert id w in
    let tracked = track_pre_prepare p id w' in
    ground (
      arith,
      get_cert-Frame id w,
      answer_pre_prepare-Frame now p req w',
      answer_pre_prepare-Frame now p req tracked,
      set_cert-Frame id (record (cert_at id w') { pre_prepare = some p; is_prepre = true }) w',
    )

check_height-Frame :
    (now : ℕ) (p : PrePrepare) (req : Option Request) (w : Worker)
    → Frame w (check_height now p req w).node
unfolding check_height
check_height-Frame now p none w = Frame-refl w
check_height-Frame now p (some req) w = ground (arith, enter_cert-Frame now p req w)

admit_request-Frame :
    (now : ℕ) (p : PrePrepare) (req : Option Request) (w : Worker)
    → Frame w (admit_request now p req w).node
unfolding admit_request store_request note_req_id
admit_request-Frame now p none w = Frame-refl w
admit_request-Frame now p (some req) w = ground (
  arith,
  check_height-Frame now p (some req) (store_request p.request_digest req (note_req_id p.req_id w)),
)

pub recv_pre_prepare-Frame :
    (now : ℕ) (p : PrePrepare) (w : Worker) → Frame w (recv_pre_prepare now p w).node
unfolding recv_pre_prepare
recv_pre_prepare-Frame now p w =
    ground (arith, check_height-Frame now p p.request w, admit_request-Frame now p p.request w)

propose-Frame :
    (now : ℕ) (digest : Str) (req : Request) (real : Option Block) (w : Worker)
    → Frame w (propose now digest req real w).node
unfolding propose put_pre_prepare_in_cert set_cert
propose-Frame now digest req none w = Frame-refl w
propose-Frame now digest req (some b) w = ground (
  arith,
  get_cert-Frame (msg_id req.view req.req_id) (put_pvb_and_beats now b w),
  put_pvb_and_beats-Frame now b w,
)

pub recv_request-Frame :
    (now : ℕ) (req : Request) (w : Worker) → Frame w (recv_request now req w).node
unfolding recv_request store_request note_req_id
recv_request-Frame now req w =
    let w' = note_req_id req.req_id w in
    ground (
      arith,
      propose-Frame now (new_hash_req req) req req.real_block
          (store_request (new_hash_req req) req w'),
    )

pub recv_checkpoint-Frame :
    (now : ℕ) (c : Checkpoint) (w : Worker) → Frame w (recv_checkpoint now c w).node
unfolding recv_checkpoint store_checkpoint delete_pvb_and_beats cancel_consensus update_lease_beat
    update_checkpoint_bh set_chkpt
recv_checkpoint-Frame now c w = ground arith

pub start_consensus-Frame : (now : ℕ) (w : Worker) → Frame w (start_consensus now w).node
unfolding start_consensus build_block send_request put_pvb_and_beats
start_consensus-Frame now w = ground arith

expire_all-Frame :
    (now : ℕ) (beats : Map Str ℕ) (s : Worker × Bool) → Frame s.0 (expire_all now beats s).0
unfolding expire_all expire_one delete_pvb_and_beats_by_hash
expire_all-Frame now [] s = Frame-refl s.0
expire_all-Frame now ((id, beat) ∷ beats) s =
    ground (arith, expire_all-Frame now beats (expire_one now id beat s))

pub expire-Frame : (now : ℕ) (w : Worker) → Frame w (expire now w)
unfolding expire cancel_consensus
expire-Frame now w = ground (arith, expire_all-Frame now w.blockbeats (w, false))

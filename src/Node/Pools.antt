-- ===== src/Node/Pools.antt =====
-- What the stages of the handlers do to the pool of blocks: nothing, or one block goes in.
use pbft_block.Common.{
  ℕ, ◌≡◌, refl, nat_eq, bytes_eq, Option, ◌⊎◌, inl, inr, none, some, List, [], arith,
}
use pbft_block.Text.{Str}
use pbft_block.Msg.{Block, Request, PrePrepare, Prepare, Commit, MsgId, Effect}
use pbft_block.Worker.{Worker, get_request_from_store}
use pbft_block.Pool.{put_pvb_and_beats}
use pbft_block.Pool.Invariant.{IsPooled, put_pvb_and_beats-IsPooled}
use pbft_block.Cert.{
  msg_id, cert_at, get_cert, set_cert, put_pre_prepare_in_cert, remove_old_con_msg,
  get_valid_res_from_commit, possitive, future_possitive, negative,
}
use pbft_block.Handlers.Transfer.{send_con_msg_transfer2, send_con_msg_transfer3}
use pbft_block.Handlers.Request.{propose}
use pbft_block.Handlers.PrePrepare.{use_block, send_prepare}
use pbft_block.Handlers.Prepare.{
  recv_prepare, recv_prepare_not_transfer, find_request, count_prepare, reach_prepared, judge_block,
  send_commit, mark_commit, add_prepare, block_of,
}
use pbft_block.Handlers.Commit.{
  recv_commit, count_commit, reach_committed, act_on_votes, accept_block, finish, insert_block,
  add_commit,
}

-- The pool as it is.
unfoldable pub SamePool : Worker → Worker → Type 0
SamePool w w' = (w'.possible_valid_block ≡ w.possible_valid_block) × (w'.blockbeats ≡ w.blockbeats)

pub SamePool-IsPooled : (w w' : Worker) → SamePool w w' → IsPooled w → IsPooled w'
unfolding SamePool
SamePool-IsPooled w w' (p, b) v = rw (p, b) v

judge_block-SamePool :
    (now : ℕ) (p : Prepare) (req : Request) (b : Option Block) (w : Worker)
    → SamePool w (judge_block now p req b w).node
unfolding SamePool judge_block send_commit mark_commit set_cert
judge_block-SamePool now p req none w = (refl, refl)
judge_block-SamePool now p req (some b) w = ground arith

find_request-SamePool :
    (now : ℕ) (p : Prepare) (req : Option Request) (rest : List Effect) (w : Worker)
    → SamePool w (find_request now p req rest w).node
unfolding SamePool find_request count_prepare reach_prepared add_prepare set_cert
find_request-SamePool now p none rest w = (refl, refl)
find_request-SamePool now p (some req) rest w =
    ground
      (arith, judge_block-SamePool now p req (block_of req (add_prepare p w)) (add_prepare p w))

pub get_cert-SamePool : (id : MsgId) (w : Worker) → SamePool w (get_cert id w)
unfolding SamePool get_cert set_cert
get_cert-SamePool id w = ground arith

pub recv_prepare-SamePool :
    (now : ℕ) (p : Prepare) (w : Worker)
    → SamePool w (recv_prepare now p w).node × SamePool w (recv_prepare_not_transfer now p w).node
unfolding SamePool recv_prepare recv_prepare_not_transfer
recv_prepare-SamePool now p w =
    let w' = get_cert (msg_id p.view p.req_id) w in
    ground (
      arith,
      get_cert-SamePool (msg_id p.view p.req_id) w,
      find_request-SamePool now p (get_request_from_store p.request_digest w')
          (send_con_msg_transfer2 now p w') w',
      find_request-SamePool now p (get_request_from_store p.request_digest w') [] w',
    )

reach_committed-SamePool :
    (c : Commit) (req : Option Request) (rest : List Effect) (w : Worker)
    → SamePool w (reach_committed c req rest w).node
unfolding SamePool reach_committed act_on_votes accept_block finish insert_block remove_old_con_msg
reach_committed-SamePool c none rest w = (refl, refl)
reach_committed-SamePool c (some req) rest w =
    elim (get_valid_res_from_commit w.n (cert_at (msg_id c.view c.req_id) w))
      as (λ v. SamePool w (act_on_votes v c rest w).node) [
        | possitive ↦ ground arith
        | future_possitive ↦ (refl, refl)
        | negative ↦ (refl, refl)
      ]

pub recv_commit-SamePool :
    (now : ℕ) (c : Commit) (w : Worker) → SamePool w (recv_commit now c w).node
unfolding SamePool recv_commit count_commit add_commit set_cert
recv_commit-SamePool now c w =
    let w' = get_cert (msg_id c.view c.req_id) w in
    ground (
      arith,
      get_cert-SamePool (msg_id c.view c.req_id) w,
      reach_committed-SamePool c (get_request_from_store c.request_digest (add_commit c w'))
          (send_con_msg_transfer3 now c w') (add_commit c w'),
    )

-- A block that goes in, if one does, and nothing else.
unfoldable pub Filed : ℕ → Worker → Worker → Type 0
Filed now w w' = SamePool w w' ⊎ ((b : Block) × SamePool (put_pvb_and_beats now b w) w')

pub Filed-IsPooled : (now : ℕ) (w w' : Worker) → Filed now w w' → IsPooled w → IsPooled w'
unfolding Filed
Filed-IsPooled now w w' (inl s) v = SamePool-IsPooled w w' s v
Filed-IsPooled now w w' (inr (b, s)) v =
    SamePool-IsPooled _ w' s (put_pvb_and_beats-IsPooled now b w v)

pub propose-Filed :
    (now : ℕ) (digest : Str) (req : Request) (real : Option Block) (w : Worker)
    → Filed now w (propose now digest req real w).node
unfolding Filed SamePool propose put_pre_prepare_in_cert set_cert
propose-Filed now digest req none w = inl (refl, refl)
propose-Filed now digest req (some b) w =
    inr (
      b,
      ground (arith, get_cert-SamePool (msg_id req.view req.req_id) (put_pvb_and_beats now b w)),
    )

pub use_block-Filed :
    (now : ℕ) (p : PrePrepare) (id : MsgId) (found real : Option Block) (w : Worker)
    → Filed now w (use_block now p id found real w).node
unfolding Filed use_block send_prepare set_cert SamePool
use_block-Filed now p id (some b) real w = inl (ground arith)
use_block-Filed now p id none (some b) w = inr (b, ground arith)
use_block-Filed now p id none none w = inl (refl, refl)

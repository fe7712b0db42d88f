-- ===== src/Node/Stalls.antt =====
-- The block that a leader builds on is the package variable `currentblock` of eth/pbft-core.go, which
-- no handler sets.
use pbft_block.Common.{ℕ, ◌≤◌, ◌≡◌, ◌∙◌, refl, Option, none, some, List, [], ◌∷◌, arith}
use pbft_block.Text.{Str}
use pbft_block.Msg.{Block, Request, Prepare, Commit, Effect}
use pbft_block.Worker.{Worker, initt, genesis, get_request_from_store}
use pbft_block.Cert.{
  msg_id, cert_at, get_cert, set_cert, get_valid_res_from_commit, possitive, future_possitive,
  negative, remove_old_con_msg,
}
use pbft_block.Handlers.Transfer.{send_con_msg_transfer2, send_con_msg_transfer3}
use pbft_block.Handlers.Prepare.{
  recv_prepare, recv_prepare_not_transfer, find_request, count_prepare, reach_prepared, judge_block,
  send_commit, mark_commit, add_prepare, block_of,
}
use pbft_block.Handlers.Commit.{
  recv_commit, count_commit, reach_committed, act_on_votes, accept_block, finish, insert_block,
  add_commit,
}
use pbft_block.Mining.{start_consensus}
use pbft_block.Mining.Stall.{start_consensus_stalls}
use pbft_block.Node.{
  Event, request, pre_prepare, prepare, prepare_not_transfer, commit, checkpoint, start, tick,
  handle, run,
}
use pbft_block.Node.Frame.{
  recv_request-Frame, recv_pre_prepare-Frame, recv_checkpoint-Frame, start_consensus-Frame,
  expire-Frame, get_cert-Frame,
}

judge_block-static :
    (now : ℕ) (p : Prepare) (req : Request) (b : Option Block) (w : Worker)
    → (judge_block now p req b w).node.static_block ≡ w.static_block
unfolding judge_block send_commit mark_commit set_cert
judge_block-static now p req none w = refl
judge_block-static now p req (some b) w = ground arith

find_request-static :
    (now : ℕ) (p : Prepare) (req : Option Request) (rest : List Effect) (w : Worker)
    → (find_request now p req rest w).node.static_block ≡ w.static_block
unfolding find_request count_prepare reach_prepared add_prepare set_cert
find_request-static now p none rest w = refl
find_request-static now p (some req) rest w =
    ground (arith, judge_block-static now p req (block_of req (add_prepare p w)) (add_prepare p w))

recv_prepare-static :
    (now : ℕ) (p : Prepare) (w : Worker)
    → ((recv_prepare now p w).node.static_block ≡ w.static_block)
      × ((recv_prepare_not_transfer now p w).node.static_block ≡ w.static_block)
unfolding recv_prepare recv_prepare_not_transfer
recv_prepare-static now p w =
    let w' = get_cert (msg_id p.view p.req_id) w in
    let req = get_request_from_store p.request_digest w' in
    ground (
      arith,
      (get_cert-Frame (msg_id p.view p.req_id) w).static_block,
      find_request-static now p req (send_con_msg_transfer2 now p w') w',
      find_request-static now p req [] w',
    )

reach_committed-static :
    (c : Commit) (req : Option Request) (rest : List Effect) (w : Worker)
    → (reach_committed c req rest w).node.static_block ≡ w.static_block
unfolding reach_committed act_on_votes accept_block finish insert_block remove_old_con_msg
reach_committed-static c none rest w = refl
reach_committed-static c (some req) rest w =
    elim (get_valid_res_from_commit w.n (cert_at (msg_id c.view c.req_id) w))
      as (λ v. (act_on_votes v c rest w).node.static_block ≡ w.static_block) [
        | possitive ↦ ground arith
        | future_possitive ↦ refl
        | negative ↦ refl
      ]

recv_commit-static :
    (now : ℕ) (c : Commit) (w : Worker) → (recv_commit now c w).node.static_block ≡ w.static_block
unfolding recv_commit count_commit add_commit set_cert
recv_commit-static now c w =
    let w' = get_cert (msg_id c.view c.req_id) w in
    ground (
      arith,
      (get_cert-Frame (msg_id c.view c.req_id) w).static_block,
      reach_committed-static c (get_request_from_store c.request_digest (add_commit c w'))
          (send_con_msg_transfer3 now c w') (add_commit c w'),
    )

handle-static :
    (now : ℕ) (e : Event) (w : Worker) → (handle now e w).node.static_block ≡ w.static_block
unfolding handle
handle-static now (request req) w = (recv_request-Frame now req w).static_block
handle-static now (pre_prepare p) w = (recv_pre_prepare-Frame now p w).static_block
handle-static now (prepare p) w = (recv_prepare-static now p w).0
handle-static now (prepare_not_transfer p) w = (recv_prepare-static now p w).1
handle-static now (commit c) w = recv_commit-static now c w
handle-static now (checkpoint c) w = (recv_checkpoint-Frame now c w).static_block
handle-static now start w = (start_consensus-Frame now w).static_block
handle-static now tick w = (expire-Frame now w).static_block

run-static : (w : Worker) (es : List (ℕ × Event)) → (run w es).static_block ≡ w.static_block
unfolding run
run-static w [] = refl
run-static w ((now, e) ∷ es) = run-static (handle now e w).node es ∙ handle-static now e w

-- Whatever a node has handled since its start: where its chain is at height 2 or above, starting
-- a block sends nothing, whether the node leads or not.
pub run_stalls :
    (port leader_port : Str) (peersnum : ℕ) (es : List (ℕ × Event)) (now : ℕ)
    → 2 ≤ (run (initt port leader_port peersnum) es).current_block
    → (start_consensus now (run (initt port leader_port peersnum) es)).effects ≡ []
run_stalls port leader_port peersnum es now long =
    let w = run (initt port leader_port peersnum) es in
    start_consensus_stalls now w
      (ground (arith, run-static (initt port leader_port peersnum) es, first_block))
  where
    first_block : (initt port leader_port peersnum).static_block ≡ genesis
    first_block = unfold initt in refl

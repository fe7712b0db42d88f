-- ===== src/Tests/Runs.antt =====
-- The handlers and runs of a node.
use pbft_block.Common.{
  ◌&&◌, leb, length, bytes_beq, ℕ, ◌+◌, ◌≤◌, ◌<◌, ◌≡◌, refl, true, List, [], ◌∷◌, arith, Distinct,
  lookup, insert, retain, mem, bytes_eq, nat_eq,
}
use pbft_block.Msg.{msg_id_eq}
use pbft_block.Worker.{initt, get_quorum, in_v, get_request_from_store}
use pbft_block.Cert.{
  cert_at, get_cert, set_cert, pre_prepared, prepared, committed, commit_quorum, tally,
  get_valid_res_from_commit, get_consensus_tx_exes, tx_exe_counts, best, remove_old_con_msg, msg_id,
}
use pbft_block.Cert.Counted.{Certified}
use pbft_block.Cert.Voters.{Quorum}
use pbft_block.Handlers.Prepare.{
  recv_prepare, find_request, count_prepare, reach_prepared, judge_block, send_commit, mark_commit,
  add_prepare, commit_of, vr_sign, opinion_on, is_valid, block_of,
}
use pbft_block.Handlers.Commit.{
  recv_commit, count_commit, reach_committed, act_on_votes, accept_block, finish, insert_block,
  add_commit,
}
use pbft_block.Handlers.Transfer.{send_con_msg_transfer2, send_con_msg_transfer3}
use pbft_block.Pool.{get_block}
use pbft_block.Node.{Event, run, prepare, commit, handle, sent}
use pbft_block.Node.Careful.{commit_heights}
use pbft_block.Node.Commits.{commits_once}
use pbft_block.Node.Certificates.{run-committed}
use pbft_block.Node.Height.{counted, recv_commit_extends}
use pbft_block.Tests.Data.{
  one, digest, cert_id, two, three, four, prepare_from, commit_from, preparing, committing,
}

-- A third prepare, the same sender again, and a commit.
abbrev events : List (ℕ × Event)
events =
    (9, prepare (prepare_from three))
    ∷ (10, prepare (prepare_from four))
    ∷ (11, commit (commit_from two true))
    ∷ []

commits_once_example : Distinct (commit_heights (sent preparing events))
commits_once_example = commits_once preparing events (tt, (tt, (omega arith, tt)))

-- The node does commit itself in this run.
sends_one : commit_heights (sent preparing events) ≡ 2 ∷ []
unfolding bytes_beq sent handle recv_prepare find_request count_prepare reach_prepared judge_block
    send_commit mark_commit add_prepare commit_of vr_sign get_cert set_cert cert_at in_v
    get_request_from_store prepared pre_prepared get_quorum block_of get_block opinion_on is_valid
    get_consensus_tx_exes tx_exe_counts best lookup insert retain recv_commit count_commit committed
    commit_quorum add_commit send_con_msg_transfer2 send_con_msg_transfer3 mem
sends_one = refl

-- The third commit makes the chain grow.
grows : (recv_commit 9 (commit_from three true) committing).node.current_block ≡ 2
unfolding bytes_beq get_cert set_cert cert_at in_v get_request_from_store prepared pre_prepared
    get_quorum lookup insert retain recv_commit count_commit committed commit_quorum add_commit
    send_con_msg_transfer3 reach_committed act_on_votes accept_block finish insert_block
    get_valid_res_from_commit tally mem remove_old_con_msg
grows = refl

recv_commit_extends_example :
    let c = commit_from three true in
    ((recv_commit 9 c committing).node.current_block ≡ committing.current_block + 1)
    × (committing.current_block < c.vr.block_height)
    × (prepared c.request_digest (msg_id c.view c.req_id) (counted c committing) ≡ true)
    × Quorum (counted c committing) (msg_id c.view c.req_id)
    × (get_quorum committing.n
        ≤ (tally [] (cert_at (msg_id c.view c.req_id) (counted c committing)).commit).poss)
recv_commit_extends_example =
    recv_commit_extends 9 (commit_from three true) committing (omega arith)
      (λ e. omega (arith, grows, e))

run-committed_example :
    let w = run (initt one one 4) events in
    Certified cert_id (cert_at cert_id w).commit
    × (committed digest cert_id w
        ≡ (prepared digest cert_id w && leb (get_quorum w.n) (length (cert_at cert_id w).commit)))
    × ((tally [] (cert_at cert_id w).commit).all ≡ length (cert_at cert_id w).commit)
run-committed_example = run-committed one one 4 events digest cert_id

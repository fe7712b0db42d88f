-- ===== src/Tests/Growth.antt =====
-- A node of a network of two, from its start to the second block, and what is left to it then.
use pbft_block.Common.{
  ℕ, ◌≡◌, refl, true, some, List, [], ◌∷◌, ◌++◌, arith, bytes_beq, lookup, insert, retain, mem,
}
use pbft_block.Text.{codes}
use pbft_block.Text.Itoa.{itoa, decimal}
use pbft_block.Msg.{Request, PrePrepare}
use pbft_block.Worker.{initt, in_v, note_req_id, get_request_from_store, get_quorum}
use pbft_block.Pool.{get_block, hash, put_block, add_beats, put_pvb_and_beats}
use pbft_block.Cert.{
  cert_at, get_cert, set_cert, pre_prepared, prepared, committed, commit_quorum, tally,
  get_valid_res_from_commit, get_consensus_tx_exes, tx_exe_counts, best, remove_old_con_msg,
}
use pbft_block.Handlers.Request.{new_hash_req, store_request}
use pbft_block.Handlers.PrePrepare.{
  recv_pre_prepare, admit_request, check_height, enter_cert, answer_pre_prepare, check_digest,
  file_block, use_block, send_prepare, track_pre_prepare, retry_prepare,
}
use pbft_block.Handlers.Prepare.{
  recv_prepare, find_request, count_prepare, reach_prepared, judge_block, send_commit, mark_commit,
  add_prepare, block_of, opinion_on, is_valid,
}
use pbft_block.Handlers.Commit.{
  recv_commit, count_commit, reach_committed, act_on_votes, accept_block, finish, insert_block,
  add_commit,
}
use pbft_block.Mining.{start_consensus}
use pbft_block.Node.{Event, pre_prepare, prepare, commit, handle, run}
use pbft_block.Node.Stalls.{run_stalls}
use pbft_block.Tests.Data.{one, two, req, pre, prepare_from, commit_from}

abbrev leader_req : Request
leader_req = record req { sender = codes "127.0.0.1" ++ one }

abbrev leader_pre : PrePrepare
leader_pre = record pre { request = some leader_req }

abbrev events : List (ℕ × Event)
events =
    (1, pre_prepare leader_pre)
    ∷ (2, prepare (prepare_from one))
    ∷ (3, prepare (prepare_from two))
    ∷ (4, commit (commit_from one true))
    ∷ (5, commit (commit_from two true))
    ∷ []

-- The chain has two blocks after the events.
two_blocks : (run (initt one one 2) events).current_block ≡ 2
unfolding run handle initt bytes_beq lookup insert retain mem itoa decimal in_v note_req_id
    get_request_from_store get_quorum get_block hash put_block add_beats put_pvb_and_beats cert_at
    get_cert set_cert pre_prepared prepared committed commit_quorum tally get_valid_res_from_commit
    get_consensus_tx_exes tx_exe_counts best remove_old_con_msg new_hash_req store_request
    recv_pre_prepare admit_request check_height enter_cert answer_pre_prepare check_digest
    file_block use_block send_prepare track_pre_prepare retry_prepare recv_prepare find_request
    count_prepare reach_prepared judge_block send_commit mark_commit add_prepare block_of opinion_on
    is_valid recv_commit count_commit reach_committed act_on_votes accept_block finish insert_block
    add_commit
two_blocks = refl

run_stalls_example : (start_consensus 9 (run (initt one one 2) events)).effects ≡ []
run_stalls_example = run_stalls one one 2 events 9 (omega (arith, two_blocks))

-- ===== src/Mining/Stall.antt =====
-- What a node that mines sends: `StartConsensus`, `SendRequest` (eth/pbft-core.go) and `JudgeSync`
-- (eth/pbft-core_basic.go).
use pbft_block.Common.{
  ℕ, ◌+◌, ◌≤◌, ◌<◌, ◌^◌, ◌≡◌, ◌≢◌, ◌↔◌, true, false, [], arith, nat_eq, has, leb, bytes_eq,
  bytes_beq_iff,
}
use pbft_block.Text.{Str}
use pbft_block.Msg.{Block}
use pbft_block.Worker.{
  Worker, running, is_leader, u64, cancel_consensus, set_ready, set_active_view, reset_commit_store,
}
use pbft_block.Pool.{put_pvb_and_beats, reset_pvb_and_beats}
use pbft_block.Cert.{reset_consensus_data}
use pbft_block.Mining.{
  start_consensus, build_block, send_request, new_block, can_mining, judge_sync, reset_con_data,
  block_text,
}

send_request_low :
    (now : ℕ) (b : Block) (text : Str) (w : Worker)
    → b.number ≤ w.current_block
    → (send_request now b text w).effects ≡ []
unfolding send_request
send_request_low now b text w low = ground arith

-- The block that a node builds has the number after that of `currentblock`. Once the chain has that
-- height no start of a block sends anything, whoever leads.
pub start_consensus_stalls :
    (now : ℕ) (w : Worker)
    → w.static_block.number + 1 ≤ w.current_block
    → (start_consensus now w).effects ≡ []
unfolding start_consensus build_block new_block put_pvb_and_beats
start_consensus_stalls now w low =
    let b = new_block now w in
    ground (
      arith,
      send_request_low now b block_text
          (put_pvb_and_beats now b (record w { consensus = running; mining = 1 })),
    )

-- Nobody but a leader that is ready sends a request for a block, and it does so only while no block
-- of the next height is in its pool and no consensus is running.
pub start_consensus_leads :
    (now : ℕ) (w : Worker)
    → (start_consensus now w).effects ≢ []
    → (w.leader ≡ w.node_id)
      × (w.ready ≡ true)
      × (has (u64 (w.current_block + 1)) w.possible_valid_block ≡ false)
      × (w.consensus ≢ running)
unfolding start_consensus can_mining is_leader build_block
start_consensus_leads now w out = ground (arith, bytes_beq_iff w.leader w.node_id)

-- For a block of number 1 or more, below 2^64, the check passes exactly when the chain has the block
-- before it, and a synchronisation is asked for exactly when it does not pass.
pub judge_sync_exact :
    (now bn : ℕ) (w : Worker)
    → 1 ≤ bn
    → bn < 2 ^ 64
    → ((judge_sync now bn w).0 ≡ leb bn (w.current_block + 1))
      × (((judge_sync now bn w).1 ≡ []) ↔ ((judge_sync now bn w).0 ≡ true))
unfolding judge_sync
judge_sync_exact now bn w pos small = ground arith

-- A reset empties the requests, the certificates, the pool and the committed heights, takes the
-- chain's height for the view, makes the node not ready and leaves no consensus running; the
-- record of checkpoints that the handler of checkpoints reads stays as it was.
pub reset_con_data_keeps :
    (w : Worker)
    → let v = reset_con_data w in
      (v.req_store ≡ [])
      × (v.cert_store ≡ [])
      × (v.possible_valid_block ≡ [])
      × (v.blockbeats ≡ [])
      × (v.commit_store ≡ [])
      × (v.view ≡ w.current_block)
      × (v.ready ≡ false)
      × (v.consensus ≢ running)
      × (v.checkpoint_store ≡ w.checkpoint_store)
unfolding reset_con_data set_active_view set_ready reset_commit_store reset_consensus_data
    reset_pvb_and_beats cancel_consensus
reset_con_data_keeps w = ground arith

-- ===== src/Handlers/Checkpoint.antt =====
-- `RecvCheckpoint` of eth/pbft-core.go.
use pbft_block.Common.{ℕ, false, not, ltb, if◌then◌else◌, bytes_eq, insert, retain, has}
use pbft_block.Msg.{Checkpoint}
use pbft_block.Worker.{
  Worker, Run, done, fail, stop, checkpoint_error, update_lease_beat, update_checkpoint_bh,
  set_chkpt, cancel_consensus,
}
use pbft_block.Pool.{delete_pvb_and_beats}

-- The hash is recorded with its height, and records below the chain's height go.
unfoldable pub store_checkpoint : Checkpoint → Worker → Worker
store_checkpoint c w = record w {
  checkpoint_store =
      retain (λ hash (height : ℕ). not (ltb height w.current_block))
        (insert c.block_hash c.block_height w.checkpoint_store);
}

unfoldable pub recv_checkpoint : ℕ → Checkpoint → Worker → Run
recv_checkpoint now c w =
    let begun = update_lease_beat now w in
    let noted = update_checkpoint_bh c.block_height begun in
    let cleared = delete_pvb_and_beats c.block_height c.block_hash (cancel_consensus noted) in
    if has c.block_hash begun.checkpoint_store
    then stop (set_chkpt false begun) (fail checkpoint_error)
    else if ltb c.block_height noted.current_block
    then stop (set_chkpt false noted) (fail checkpoint_error)
    else stop (set_chkpt false (store_checkpoint c cleared)) done

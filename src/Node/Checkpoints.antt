-- ===== src/Node/Checkpoints.antt =====
-- What `RecvCheckpoint` of eth/pbft-core.go leaves.
use pbft_block.Common.{
  ℕ, ◌≤◌, ◌≡◌, ◌||◌, false, not, none, some, arith, has, lookup, lookup-insert, lookup-retain,
  lookup-delete, insert-Unique, Unique, nat_eq, ltb, leb, if◌then◌else◌, bytes_eq, bytes_beq_iff,
  insert,
}
use pbft_block.Text.{Str}
use pbft_block.Msg.{Checkpoint}
use pbft_block.Worker.{
  Worker, done, fail, checkpoint_error, cancel_consensus, update_lease_beat, update_checkpoint_bh,
  set_chkpt,
}
use pbft_block.Pool.{get_block, delete_pvb_and_beats, delete_upto}
use pbft_block.Pool.Laws.{get_block-delete_pvb_and_beats}
use pbft_block.Handlers.Checkpoint.{recv_checkpoint, store_checkpoint}

stored :
    (c : Checkpoint) (w : Worker)
    → Unique w.checkpoint_store
    → w.current_block ≤ c.block_height
    → lookup c.block_hash (store_checkpoint c w).checkpoint_store ≡ some c.block_height
unfolding store_checkpoint
stored c w u above = ground (
  arith,
  lookup-retain (λ hash (height : ℕ). not (ltb height w.current_block)) c.block_hash
      (insert c.block_hash c.block_height w.checkpoint_store)
      (insert-Unique c.block_hash c.block_height w.checkpoint_store u),
  lookup-insert c.block_hash c.block_hash c.block_height w.checkpoint_store,
  bytes_beq_iff c.block_hash c.block_hash,
)

-- A checkpoint is taken exactly when its block is not recorded and it is not below the chain's
-- height; each other one is refused with an error.
pub recv_checkpoint_takes :
    (now : ℕ) (c : Checkpoint) (w : Worker)
    → ((recv_checkpoint now c w).reply ≡ (
        if has c.block_hash w.checkpoint_store || ltb c.block_height w.current_block
        then fail checkpoint_error
        else done))
unfolding recv_checkpoint update_lease_beat update_checkpoint_bh
recv_checkpoint_takes now c w = ground arith

-- The node before the checkpoint is recorded.
cleared : ℕ → Checkpoint → Worker → Worker
cleared now c w =
    delete_pvb_and_beats c.block_height c.block_hash
      (cancel_consensus (update_checkpoint_bh c.block_height (update_lease_beat now w)))

cleared-keeps :
    (now : ℕ) (c : Checkpoint) (w : Worker)
    → ((cleared now c w).checkpoint_store ≡ w.checkpoint_store)
      × ((cleared now c w).current_block ≡ w.current_block)
unfolding cleared update_lease_beat update_checkpoint_bh cancel_consensus delete_pvb_and_beats
cleared-keeps now c w = ground arith

cleared-blocks :
    (now bn : ℕ) (h : Str) (c : Checkpoint) (w : Worker)
    → get_block bn h (cleared now c w).possible_valid_block
      ≡ (if ltb c.block_height bn then get_block bn h w.possible_valid_block else none)
unfolding cleared update_lease_beat update_checkpoint_bh cancel_consensus
cleared-blocks now bn h c w =
    let noted = cancel_consensus (update_checkpoint_bh c.block_height (update_lease_beat now w)) in
    ground (arith, get_block-delete_pvb_and_beats c.block_height bn h c.block_hash noted)

cleared-beat :
    (now : ℕ) (c : Checkpoint) (w : Worker)
    → lookup c.block_hash (cleared now c w).blockbeats ≡ none
unfolding cleared delete_pvb_and_beats delete_upto
cleared-beat now c w = ground (
  arith,
  bytes_beq_iff c.block_hash c.block_hash,
  lookup-delete c.block_hash c.block_hash
      (delete_upto c.block_height (
        cancel_consensus
          (update_checkpoint_bh c.block_height (update_lease_beat now w)))).blockbeats,
)

taken_node :
    (now : ℕ) (c : Checkpoint) (w : Worker)
    → (recv_checkpoint now c w).reply ≡ done
    → ((recv_checkpoint now c w).node ≡ set_chkpt false (store_checkpoint c (cleared now c w)))
      × (w.current_block ≤ c.block_height)
unfolding recv_checkpoint cleared update_lease_beat update_checkpoint_bh
taken_node now c w h = ground arith

-- After a checkpoint that was taken, by a node that records no hash twice, no block up to its
-- height is in the pool, and the blocks above are as before; its block is recorded with its
-- height, its time is gone, and the same checkpoint is refused by that node.
pub recv_checkpoint_leaves :
    (now later bn : ℕ) (h : Str) (c : Checkpoint) (w : Worker)
    → Unique w.checkpoint_store
    → (recv_checkpoint now c w).reply ≡ done
    → (get_block bn h (recv_checkpoint now c w).node.possible_valid_block
        ≡ (if leb bn c.block_height then none else get_block bn h w.possible_valid_block))
      × (lookup c.block_hash (recv_checkpoint now c w).node.checkpoint_store ≡ some c.block_height)
      × (lookup c.block_hash (recv_checkpoint now c w).node.blockbeats ≡ none)
      × ((recv_checkpoint later c (recv_checkpoint now c w).node).reply ≡ fail checkpoint_error)
unfolding set_chkpt store_checkpoint
recv_checkpoint_leaves now later bn h c w u taken =
    let (same, above) = taken_node now c w taken in
    let (store, height) = cleared-keeps now c w in
    let there : lookup c.block_hash (recv_checkpoint now c w).node.checkpoint_store
        ≡ some c.block_height =
      ground (arith, stored c (cleared now c w)) in
    (
      ground (arith, cleared-blocks now bn h c w),
      there,
      ground (arith, cleared-beat now c w),
      ground (arith, recv_checkpoint_takes later c (recv_checkpoint now c w).node),
    )

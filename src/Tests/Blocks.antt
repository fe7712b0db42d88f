-- ===== src/Tests/Blocks.antt =====
-- The pool of blocks, its expiry, and the start of a block.
use pbft_block.Common.{◌≡◌, ◌≢◌, refl, false, [], ◌∷◌, arith, lookup, bytes_eq, bytes_beq, nat_eq}
use pbft_block.Worker.{is_leader, initt}
use pbft_block.Pool.{put_pvb_and_beats}
use pbft_block.Pool.Invariant.{IsPooled}
use pbft_block.Mining.{
  start_consensus, build_block, send_request, new_block, can_mining, judge_sync, expire,
}
use pbft_block.Mining.Expiry.{unless_overdue, lookup-expire}
use pbft_block.Node.{start, tick, request, run}
use pbft_block.Node.Invariant.{run-IsPooled, initt-IsPooled}
use pbft_block.Tests.Data.{one, two, leader, req, pooled}

run-IsPooled_example :
    IsPooled (run (initt one one 4) ((9, start) ∷ (10, request req) ∷ (11, tick) ∷ []))
run-IsPooled_example =
    run-IsPooled (initt one one 4) ((9, start) ∷ (10, request req) ∷ (11, tick) ∷ [])
      (initt-IsPooled one one 4)

-- The block has been there for more than 40 seconds, a thousand million nanoseconds each.
lookup-expire_example :
    lookup two (expire 50000000000 pooled).blockbeats
    ≡ unless_overdue 50000000000 pooled.max_consensus_lifetime (lookup two pooled.blockbeats)
lookup-expire_example = lookup-expire 50000000000 two pooled (unfold lookup in (refl, tt))

starts : (start_consensus 9 leader).effects ≢ []
unfolding start_consensus can_mining is_leader build_block send_request new_block lookup bytes_beq
    put_pvb_and_beats
starts e = ground arith

-- For number 0 the number before wraps around, and a synchronisation is asked for.
genesis_syncs : (judge_sync 9 0 leader).0 ≡ false
unfolding judge_sync
genesis_syncs = refl

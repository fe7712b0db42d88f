-- ===== src/Node.antt =====
-- A node as the sequence of events it handles: the messages that `handleMsg` of eth/handler.go hands
-- to the handlers, the calls that a handler starts with `go`, the start of a block and the rounds of
-- the expiry loop. Any order of events is a run.
pub mod Runs
pub mod Frame
pub mod Height
pub mod Careful
pub mod Committing
pub mod Quiet
pub mod Commits
pub mod Requests
pub mod PrePrepares
pub mod Prepares
pub mod Retries
pub mod Checkpoints
pub mod Pools
pub mod Stalls
pub mod Progress
pub mod Round
pub mod Invariant
pub mod Agreement
pub mod Kept
pub mod Certificates
use pbft_block.Common.{ℕ, List, [], ◌∷◌, ◌++◌, ◌<◌, ◌^◌, All}
use pbft_block.Msg.{Request, PrePrepare, Prepare, Commit, Checkpoint, Effect}
use pbft_block.Worker.{Worker, Run, stop, done}
use pbft_block.Handlers.Request.{recv_request}
use pbft_block.Handlers.PrePrepare.{recv_pre_prepare}
use pbft_block.Handlers.Prepare.{recv_prepare, recv_prepare_not_transfer}
use pbft_block.Handlers.Commit.{recv_commit}
use pbft_block.Handlers.Checkpoint.{recv_checkpoint}
use pbft_block.Mining.{start_consensus, expire}

pub data Event : Type 0 where
  request : Request → Event
  pre_prepare : PrePrepare → Event
  prepare : Prepare → Event
  prepare_not_transfer : Prepare → Event
  commit : Commit → Event
  checkpoint : Checkpoint → Event
  start : Event
  tick : Event

unfoldable pub handle : ℕ → Event → Worker → Run
handle now (request req) w = recv_request now req w
handle now (pre_prepare p) w = recv_pre_prepare now p w
handle now (prepare p) w = recv_prepare now p w
handle now (prepare_not_transfer p) w = recv_prepare_not_transfer now p w
handle now (commit c) w = recv_commit now c w
handle now (checkpoint c) w = recv_checkpoint now c w
handle now start w = start_consensus now w
handle now tick w = stop (expire now w) done

-- The node after the events, each with its time.
unfoldable pub run : Worker → List (ℕ × Event) → Worker
run w [] = w
run w ((now, e) ∷ es) = run (handle now e w).node es

-- All that the events made the node send or start.
unfoldable pub sent : Worker → List (ℕ × Event) → List Effect
sent w [] = []
sent w ((now, e) ∷ es) = (handle now e w).effects ++ sent (handle now e w).node es

-- A commit names a height that a uint64 holds.
abbrev pub InRange : ℕ × Event → Type 0
InRange (now, commit c) = c.vr.block_height < 2 ^ 64
InRange (now, _) = Unit

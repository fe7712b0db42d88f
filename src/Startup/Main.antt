-- ===== src/Startup/Main.antt =====
-- `main` of src/main.go after the start: the first node of the configuration waits until it has all
-- peers, and 15 seconds more, and starts the consensus once; the others only print. The hour after
-- which a process may end is left out.
pub mod Asleep
pub mod Once
pub mod FirstRound
pub mod FirstBlock
use pbft_block.Common.{
  ℕ, ◌+◌, Bool, true, false, ◌&&◌, List, [], ◌∷◌, ◌++◌, if◌then◌else◌, eqb, ◌==◌, bytes_eq, arith,
}
use pbft_block.Text.{Str, codes}
use pbft_block.Node.{start}
use pbft_block.Network.Wire.{Codec, Sm2}
use pbft_block.Network.Peers.{len}
use pbft_block.Network.Sessions.{Process, Turn, acts, run_turns}

-- Where the loop of the first node is: before the tick that sees all peers, asleep, or behind it. The
-- other nodes are in a loop of their own.
pub data Loop : Type 0 where
  waiting asleep over printing : Loop

pub record Main (Prv : Type 0) : Type 0 where
  pub process : Process Prv
  pub loop : Loop

-- What comes next: the ticker of the loop fires, the sleep ends, or the process does something else.
pub data Move : Type 0 where
  ticks wakes : Move
  turns : Turn → Move

abbrev pub asleep_now : Loop → Bool
asleep_now asleep = true
asleep_now _ = false

abbrev pub waiting_now : Loop → Bool
waiting_now waiting = true
waiting_now _ = false

-- The node is compared with the first address.
unfoldable pub enter : {Prv : Type 0} → Str → Process Prv → Main Prv
enter leader_port s = record {
  process = s;
  loop = if s.node.node_id == codes "127.0.0.1" ++ leader_port then waiting else printing;
}

module _ {Prv Pub : Type 0} (sm : Sm2 Prv Pub) (co : Codec) (date : ℕ → Str) (peersnum : ℕ) where
  unfoldable pub all_there : Process Prv → Bool
  all_there s = eqb (len s.manager.peers + 1) peersnum

  unfoldable pub move : ℕ → Move → Main Prv → Main Prv
  move now ticks m =
      if waiting_now m.loop && all_there m.process then record m { loop = asleep } else m
  move now wakes m =
      if asleep_now m.loop
      then record { process = run_turns sm co date ((now, acts start) ∷ []) m.process; loop = over }
      else m
  move now (turns t) m = record m { process = run_turns sm co date ((now, t) ∷ []) m.process }

  unfoldable pub moves : List (ℕ × Move) → Main Prv → Main Prv
  moves [] m = m
  moves ((now, mv) ∷ ms) m = moves ms (move now mv m)

-- ===== src/Startup/Main/FirstRound.antt =====
-- The first round of a network: what the first node does once `main` of src/main.go has seen all
-- peers.
use pbft_block.Common.{
  ℕ, ◌+◌, ◌≡◌, refl, true, some, [], ◌∷◌, ◌++◌, lookup, bytes_eq, bytes_beq_iff, arith, insert,
}
use pbft_block.Text.{Str, codes}
use pbft_block.Text.Hex.{hex_to_address}
use pbft_block.Msg.{Request, pbft_request, go_request}
use pbft_block.Worker.{Worker, initt, is_leader}
use pbft_block.Pool.{hash, put_pvb_and_beats}
use pbft_block.Handlers.Transfer.{broadcast}
use pbft_block.Mining.{
  new_block, block_text, start_consensus, can_mining, build_block, send_request,
}
use pbft_block.Node.{handle}
use pbft_block.Network.Wire.{Codec, Sm2}
use pbft_block.Network.Peers.{len}
use pbft_block.Network.Manager.{ProtocolManager}
use pbft_block.Network.Dispatch.{serve_event}
use pbft_block.Network.Sessions.{Process, turn, run_turns, launched}
use pbft_block.Startup.Main.{waiting, ticks, wakes, enter, move, moves, all_there}

-- The request of a leader that has just started.
abbrev pub first_request : ℕ → Worker → Request
first_request now w = record {
  req_id = 2;
  sender = w.node_id;
  view = 1;
  timestamp = now;
  block_height = 2;
  block_hash = hash (new_block now w);
  block_creator = hex_to_address w.node_id;
  block = block_text;
  real_block = some (new_block now w);
}

leads : (port : Str) (peersnum : ℕ) → can_mining (initt port port peersnum) ≡ true
unfolding can_mining is_leader initt lookup
leads port peersnum =
    ground (arith, bytes_beq_iff (codes "127.0.0.1" ++ port) (codes "127.0.0.1" ++ port))

start_consensus-first :
    (now : ℕ) (port : Str) (peersnum : ℕ)
    → (start_consensus now (initt port port peersnum)).effects
      ≡ go_request (first_request now (initt port port peersnum))
        ∷ broadcast now
            (pbft_request (first_request now (initt port port peersnum)))
            (initt port port peersnum)
        ∷ []
unfolding start_consensus build_block send_request initt new_block put_pvb_and_beats lookup insert
    hash
start_consensus-first now port peersnum = rw (start_consensus, leads port peersnum) refl

module _ {Prv Pub : Type 0} (sm : Sm2 Prv Pub) (co : Codec) (date : ℕ → Str) where
  entered :
      (port : Str) (peersnum : ℕ) (pm : ProtocolManager Prv)
      → enter port (launched (initt port port peersnum) pm)
        ≡ record { process = launched (initt port port peersnum) pm; loop = waiting }
  unfolding enter initt
  entered port peersnum pm =
      ground (arith, bytes_beq_iff (codes "127.0.0.1" ++ port) (codes "127.0.0.1" ++ port))

  there :
      (s : Process Prv) (peersnum : ℕ)
      → len s.manager.peers + 1 ≡ peersnum
      → all_there sm co date peersnum s ≡ true
  unfolding all_there
  there s peersnum all = ground (arith, all)

  -- Take a process with the node that the start makes for the first address, which has sent nothing.
  -- Let a tick see as many peers as the configuration has other nodes, and let the sleep after it end.
  -- Then the node hands itself the first request, for the block of number 2 that it builds, and
  -- broadcasts it.
  pub first_round :
      (port : Str) (peersnum : ℕ) (pm : ProtocolManager Prv) (t now : ℕ)
      → len pm.peers + 1 ≡ peersnum
      → let w = initt port port peersnum in
        let m = enter port (launched w pm) in
        (moves sm co date peersnum ((t, ticks) ∷ (now, wakes) ∷ []) m).process.effects
        ≡ go_request (first_request now w)
          ∷ broadcast now (pbft_request (first_request now w)) w
          ∷ []
  unfolding moves move run_turns turn serve_event handle
  first_round port peersnum pm t now all =
      let s = launched (initt port port peersnum) pm in
      rw (moves, move, entered port peersnum pm, there s peersnum all)
        (start_consensus-first now port peersnum)

-- ===== src/Network/Sessions.antt =====
-- A process under sessions: `Run` of a sub-protocol and the loop `handle` of eth/handler.go around
-- `handleMsg`, for any number of peers that come and go, with what the node does of itself.
--
-- A session is a peer in the set of the manager. An error that `handleMsg` returns ends it at once. An
-- error of the part in a goroutine comes through a channel that the loop reads before its next
-- packet, or the one after: it ends the session at any later time, as a failed read does (`leaves`).
pub mod Errors
pub mod Replay
pub mod Keyed
pub mod Accounted
use pbft_block.Common.{
  ℕ, Bool, true, false, Option, none, some, List, [], ◌∷◌, ◌++◌, is_some, not, if◌then◌else◌,
}
use pbft_block.Text.{Str}
use pbft_block.Msg.{Effect}
use pbft_block.Worker.{Worker}
use pbft_block.Node.{Event}
use pbft_block.Network.Wire.{Packet, Codec, Sm2}
use pbft_block.Network.Peers.{Peer, peer}
use pbft_block.Network.Manager.{
  ProtocolManager, P2pPeer, Session, quitting, panicked, joined, run_peer, remove_peer,
}
use pbft_block.Network.Dispatch.{
  ErrCode, err_msg_too_large, err_decode, err_invalid_msg_code, err_illegal_sig, Outcome, accepted,
  refused, process_ends, Served, handle_msg, serve_event,
}
use pbft_block.Network.Dispatch.Traffic.{Input, arrives, own}

pub record Process (Prv : Type 0) : Type 0 where
  pub node : Worker
  pub manager : ProtocolManager Prv
  pub effects : List Effect
  pub alive : Bool

-- What happens next: a peer connects under a version of the protocol, the session of an identifier
-- gets a packet, it ends, or the node acts of itself.
pub data Turn : Type 0 where
  connects : ℕ → P2pPeer → Turn
  sends : Str → (Str → ℕ) → Packet → Turn
  leaves : Str → Turn
  acts : Event → Turn

abbrev pub lives : Outcome → Bool
lives accepted = true
lives (refused e) = true
lives process_ends = false

-- The node after it was served.
abbrev pub serves : {Prv : Type 0} → Served → Process Prv → Process Prv
serves r s = record s { node = r.node; effects = s.effects ++ r.effects; alive = lives r.outcome }

abbrev pub admits : {Prv : Type 0} → Session → ProtocolManager Prv → Process Prv → Process Prv
admits quitting pm s = s
admits panicked pm s = record s { alive = false }
admits (joined p) pm s = record s { manager = pm }

module _ {Prv Pub : Type 0} (sm : Sm2 Prv Pub) (co : Codec) (date : ℕ → Str) where
  -- Whether `handleMsg` itself returns the error, and not its goroutine.
  unfoldable pub returned : Packet → Outcome → Bool
  returned packet (refused err_msg_too_large) = true
  returned packet (refused err_invalid_msg_code) = true
  returned packet (refused err_decode) = not (is_some (co.info.decode packet.payload))
  returned packet _ = false

  unfoldable pub deliver : ℕ → Str → (Str → ℕ) → Packet → Peer → Process Prv → Process Prv
  deliver now id seeds packet p s =
      let r = handle_msg sm co now date seeds s.manager p packet s.node in
      let s' = serves r s in
      if returned packet r.outcome then record s' { manager = remove_peer id s.manager } else s'

  unfoldable pub turn : ℕ → Turn → Process Prv → Process Prv
  turn now (connects version p) s =
      let (session, pm) = run_peer version p s.manager in admits session pm s
  turn now (sends id seeds packet) s = elim (peer id s.manager.peers) [
    | none ↦ s
    | some p ↦ deliver now id seeds packet p s
  ]
  turn now (leaves id) s = record s { manager = remove_peer id s.manager }
  turn now (acts e) s = serves (serve_event now e s.node) s

  -- Nothing happens to a process that has ended.
  unfoldable pub run_turns : List (ℕ × Turn) → Process Prv → Process Prv
  run_turns [] s = s
  run_turns ((now, t) ∷ ts) s =
      let rest = run_turns ts (turn now t s) in if s.alive then rest else s

  -- What the turn is to the node: a packet of the peer of the session, or an act of its own.
  unfoldable pub input_of : ℕ → Turn → Process Prv → List (ℕ × Input Prv)
  input_of now (connects version p) s = []
  input_of now (sends id seeds packet) s = elim (peer id s.manager.peers) [
    | none ↦ []
    | some p ↦ (now, arrives s.manager seeds p packet) ∷ []
  ]
  input_of now (leaves id) s = []
  input_of now (acts e) s = (now, own e) ∷ []

  unfoldable pub inputs_of : List (ℕ × Turn) → Process Prv → List (ℕ × Input Prv)
  inputs_of [] s = []
  inputs_of ((now, t) ∷ ts) s =
      let rest = inputs_of ts (turn now t s) in if s.alive then input_of now t s ++ rest else []

-- A process at its start: no session, nothing sent.
abbrev pub launched : {Prv : Type 0} → Worker → ProtocolManager Prv → Process Prv
launched w pm = record { node = w; manager = pm; effects = []; alive = true }

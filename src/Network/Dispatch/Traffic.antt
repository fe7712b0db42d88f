-- ===== src/Network/Dispatch/Traffic.antt =====
-- A node under traffic: packets of its peers through `handleMsg` of eth/handler.go, in any order with
-- what the node does of itself, until the process ends. It refines the node of the module Node.
use pbft_block.Common.{
  ℕ, ◌≡◌, refl, Bool, true, false, Option, none, some, List, [], ◌∷◌, ◌++◌, arith, ltb, eqb,
  if◌then◌else◌, nat_eq, bytes_eq, sym,
}
use mathlib.Core.List.{append-nil}
use pbft_block.Text.{Str}
use pbft_block.Msg.{Effect}
use pbft_block.Worker.{Worker}
use pbft_block.Node.{Event, checkpoint, handle, run, sent}
use pbft_block.Network.Wire.{
  Packet, Codec, Sm2, protocol_max_msg_size, test_send_msg, test_recive_msg, con_msg, checkpoin,
  zhuanfa,
}
use pbft_block.Network.Peers.{Peer}
use pbft_block.Network.Manager.{ProtocolManager}
use pbft_block.Network.Dispatch.{
  Opened, opens, shut, open_packet, handle_msg, serve_event, event_of, serve_text, serve_opened,
  serve_test, Served, Outcome, accepted, refused, process_ends, unchanged,
}

-- What happens at a node: a packet of a peer, with the manager of that time and the random bytes of
-- the answers, or an event of its own.
pub data Input (Prv : Type 0) : Type 0 where
  arrives : ProtocolManager Prv → (Str → ℕ) → Peer → Packet → Input Prv
  own : Event → Input Prv

-- The node, all that it has started, and whether its process still runs.
pub record State : Type 0 where
  pub node : Worker
  pub effects : List Effect
  pub alive : Bool

abbrev pub go_on : Outcome → Served → State → State
go_on accepted s rest = record rest { effects = s.effects ++ rest.effects }
go_on (refused e) s rest = record rest { effects = s.effects ++ rest.effects }
go_on process_ends s rest = record { node = s.node; effects = s.effects; alive = false }

abbrev pub with_time : ℕ → Option Event → List (ℕ × Event)
with_time now none = []
with_time now (some e) = (now, e) ∷ []

module _ {Prv Pub : Type 0} (sm : Sm2 Prv Pub) (co : Codec) (date : ℕ → Str) where
  abbrev pub serve : ℕ → Input Prv → Worker → Served
  serve now (arrives pm seeds p packet) w = handle_msg sm co now date seeds pm p packet w
  serve now (own e) w = serve_event now e w

  unfoldable pub serve_all : Worker → List (ℕ × Input Prv) → State
  serve_all w [] = record { node = w; effects = []; alive = true }
  serve_all w ((now, i) ∷ is) = let s = serve now i w in go_on s.outcome s (serve_all s.node is)

  abbrev pub of_opened : {A : Type 0} → Opened A → (A → Option Event) → Option Event
  of_opened (opens a) f = f a
  of_opened (shut o) f = none

  -- The one step of the node that a packet is good for, if any.
  unfoldable pub step_of : Input Prv → Option Event
  step_of (own e) = some e
  step_of (arrives pm seeds p packet) =
      if ltb protocol_max_msg_size packet.size
      then none
      else if eqb packet.code con_msg
      then of_opened (open_packet sm co co.cons p packet) (λ m. event_of co.json m.typ m.msg)
      else if eqb packet.code checkpoin
      then of_opened (open_packet sm co co.check p packet) (λ c. some (checkpoint c))
      else if eqb packet.code zhuanfa
      then of_opened (open_packet sm co co.cons2 p packet) (λ m. event_of co.json m.typ m.msg)
      else none

  unfoldable pub steps_of : List (ℕ × Input Prv) → List (ℕ × Event)
  steps_of [] = []
  steps_of ((now, i) ∷ is) = with_time now (step_of i) ++ steps_of is

  -- One input does to the node what its step does.
  pub record Steps (now : ℕ) (e : Option Event) (w : Worker) (s : Served) : Type 0 where
    pub node : s.node ≡ run w (with_time now e)
    pub effects : s.effects ≡ sent w (with_time now e)

  idle-Steps :
      (now : ℕ) (w : Worker) (s : Served) → s.node ≡ w → s.effects ≡ [] → Steps now none w s
  unfolding run sent
  idle-Steps now w s same quiet = record { node = same; effects = quiet }

  unchanged-Steps : (now : ℕ) (o : Outcome) (w : Worker) → Steps now none w (unchanged o w)
  unchanged-Steps now o w = idle-Steps now w (unchanged o w) refl refl

  serve_event-Steps :
      (now : ℕ) (e : Event) (w : Worker) → Steps now (some e) w (serve_event now e w)
  unfolding run sent serve_event
  serve_event-Steps now e w = record {
    node = refl;
    effects = sym (append-nil (handle now e w).effects);
  }

  serve_text-Steps :
      (now : ℕ) (typ text : Str) (w : Worker) (e : Option Event)
      → event_of co.json typ text ≡ e
      → Steps now e w (serve_text co.json now typ text w)
  serve_text-Steps now typ text w none h = rw (serve_text, h) (unchanged-Steps now accepted w)
  serve_text-Steps now typ text w (some e) h = rw (serve_text, h) (serve_event-Steps now e w)

  serve_opened-Steps :
      {A : Type 0} (now : ℕ) (o : Opened A) (f : A → Worker → Served) (g : A → Option Event)
      (w : Worker)
      → ((a : A) → Steps now (g a) w (f a w))
      → Steps now (of_opened o g) w (serve_opened sm co o f w)
  serve_opened-Steps now (opens a) f g w h = h a
  serve_opened-Steps now (shut o) f g w h = unchanged-Steps now o w

  either-Steps :
      (now : ℕ) (t : Bool) (e e' : Option Event) (w : Worker) (s s' : Served)
      → Steps now e w s
      → Steps now e' w s'
      → Steps now (if t then e else e') w (if t then s else s')
  either-Steps now true e e' w s s' h h' = h
  either-Steps now false e e' w s s' h h' = h'

  -- The tests of a test message come before the others, and it does nothing to the node.
  both-Steps :
      (now : ℕ) (t : Bool) (e : Option Event) (w : Worker) (s s' : Served)
      → (t ≡ true → Steps now e w s)
      → Steps now e w s'
      → Steps now e w (if t then s else s')
  both-Steps now true e w s s' h h' = h refl
  both-Steps now false e w s s' h h' = h'

  -- A test message does nothing to the node.
  test-Steps :
      {A : Type 0} (now : ℕ) (o : Opened A) (f : A → Worker → Served) (w : Worker)
      → ((a : A) → Steps now none w (f a w))
      → Steps now none w (serve_opened sm co o f w)
  test-Steps now (opens a) f w h = h a
  test-Steps now (shut o) f w h = unchanged-Steps now o w

  test_step :
      (now : ℕ) (code : ℕ) (a b c : Option Event) (w : Worker) (s : Served)
      → (eqb code con_msg ≡ false) × (eqb code checkpoin ≡ false) × (eqb code zhuanfa ≡ false)
      → Steps now none w s
      → Steps now
          (if eqb code con_msg
            then a
            else if eqb code checkpoin
            then b
            else if eqb code zhuanfa
            then c
            else none)
          w
          s
  test_step now code a b c w s (e, e', e'') h = rw (e, e', e'') h

  handle_msg-Steps :
      (now : ℕ) (pm : ProtocolManager Prv) (seeds : Str → ℕ) (p : Peer) (packet : Packet)
      (w : Worker)
      → Steps now
          (step_of (arrives pm seeds p packet))
          w
          (handle_msg sm co now date seeds pm p packet w)
  unfolding handle_msg step_of
  handle_msg-Steps now pm seeds p packet w =
      either-Steps now (ltb protocol_max_msg_size packet.size) _ _ w _ _ (unchanged-Steps now _ w) (
        both-Steps now (eqb packet.code test_send_msg) _ w _ _
          (λ e. test_step now packet.code _ _ _ w _ (ground (arith, e)) (
            test-Steps now (open_packet sm co co.test p packet) (serve_test sm co now date seeds pm)
              w (λ m. idle-Steps now w (serve_test sm co now date seeds pm m w) refl refl)))
          (both-Steps now (eqb packet.code test_recive_msg) _ w _ _
            (λ e. test_step now packet.code _ _ _ w _ (ground (arith, e)) (
              test-Steps now (open_packet sm co co.test p packet) (λ m. unchanged accepted) w
                (λ m. unchanged-Steps now accepted w)))
            (either-Steps now (eqb packet.code con_msg) _ _ w _ _
              (serve_opened-Steps now _ _ _ w (λ m. serve_text-Steps now m.typ m.msg w _ refl))
              (either-Steps now (eqb packet.code checkpoin) _ _ w _ _
                (serve_opened-Steps now _ _ _ w (λ c. serve_event-Steps now (checkpoint c) w))
                (either-Steps now (eqb packet.code zhuanfa) _ _ w _ _
                  (serve_opened-Steps now _ _ _ w (λ m. serve_text-Steps now m.typ m.msg w _ refl))
                  (unchanged-Steps now _ w))))))

  -- What an input does to the node is what its step does.
  pub serve-Steps : (now : ℕ) (i : Input Prv) (w : Worker) → Steps now (step_of i) w (serve now i w)
  unfolding step_of
  serve-Steps now (own e) w = serve_event-Steps now e w
  serve-Steps now (arrives pm seeds p packet) w = handle_msg-Steps now pm seeds p packet w

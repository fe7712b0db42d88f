-- ===== src/Network/Sessions/Replay.antt =====
-- A process of sessions does to its node what a run of the node's handlers does.
use pbft_block.Common.{
  ℕ, ◌≡◌, refl, sym, ap, ◌∙◌, Bool, true, false, List, [], ◌∷◌, ◌++◌, if◌then◌else◌, inl, inr,
  Option-cases,
}
use mathlib.Core.List.{append_assoc, append-nil}
use pbft_block.Text.{Str}
use pbft_block.Node.{run, sent}
use pbft_block.Network.Wire.{Codec, Sm2}
use pbft_block.Network.Peers.{peer}
use pbft_block.Network.Manager.{Session, quitting, panicked, joined, run_peer, ProtocolManager}
use pbft_block.Network.Dispatch.Traffic.{
  Input, arrives, own, with_time, step_of, steps_of, serve, serve-Steps,
}
use pbft_block.Node.Runs.{run-append, sent-append}
use pbft_block.Network.Sessions.{
  Process, Turn, connects, sends, leaves, acts, serves, admits, deliver, returned, turn, run_turns,
  input_of, inputs_of,
}

module _ {Prv Pub : Type 0} (sm : Sm2 Prv Pub) (co : Codec) (date : ℕ → Str) where
  -- The second process is the first after some inputs, as far as the node goes.
  pub record Replays (s : Process Prv) (is : List (ℕ × Input Prv)) (s' : Process Prv) : Type 0 where
    pub node : s'.node ≡ run s.node (steps_of sm co date is)
    pub effects : s'.effects ≡ s.effects ++ sent s.node (steps_of sm co date is)

  nothing-Replays :
      (s s' : Process Prv) → s'.node ≡ s.node → s'.effects ≡ s.effects → Replays s [] s'
  unfolding steps_of run sent
  nothing-Replays s s' e e' = record { node = e; effects = e' ∙ sym (append-nil s.effects) }

  serves-Replays :
      (now : ℕ) (i : Input Prv) (s : Process Prv)
      → Replays s ((now, i) ∷ []) (serves (serve sm co date now i s.node) s)
  unfolding steps_of
  serves-Replays now i s =
      let f = serve-Steps sm co date now i s.node in
      let e = sym (append-nil (with_time now (step_of sm co date i))) in
      record {
        node = f.node ∙ ap (run s.node) e;
        effects = ap (λ x. s.effects ++ x) (f.effects ∙ ap (sent s.node) e);
      }

  steps_of-append :
      (is js : List (ℕ × Input Prv))
      → steps_of sm co date (is ++ js) ≡ steps_of sm co date is ++ steps_of sm co date js
  unfolding steps_of
  steps_of-append [] js = refl
  steps_of-append ((now, i) ∷ is) js = rw (steps_of-append is js) (
      sym (
        append_assoc (with_time now (step_of sm co date i)) (steps_of sm co date is)
          (steps_of sm co date js)))

  both-Replays :
      (s s' s'' : Process Prv) (is js : List (ℕ × Input Prv))
      → Replays s is s'
      → Replays s' js s''
      → Replays s (is ++ js) s''
  both-Replays s s' s'' is js f g =
      let first = steps_of sm co date is in
      let more = steps_of sm co date js in
      record {
        node =
            g.node
            ∙ ap (λ x. run x more) f.node
            ∙ sym (run-append s.node first more)
            ∙ ap (run s.node) (sym (steps_of-append is js));
        effects =
            g.effects
            ∙ ap (λ x. x ++ sent s'.node more) f.effects
            ∙ ap (λ x. (s.effects ++ sent s.node first) ++ sent x more) f.node
            ∙ append_assoc s.effects (sent s.node first) (sent (run s.node first) more)
            ∙ ap (λ x. s.effects ++ x)
                (sym (sent-append s.node first more)
                  ∙ ap (sent s.node) (sym (steps_of-append is js)));
      }

  admits-Replays :
      (session : Session) (pm : ProtocolManager Prv) (s : Process Prv)
      → Replays s [] (admits session pm s)
  admits-Replays quitting pm s = nothing-Replays s s refl refl
  admits-Replays panicked pm s = nothing-Replays s _ refl refl
  admits-Replays (joined p) pm s = nothing-Replays s _ refl refl

  -- Whether the session ends with the packet is nothing to the node.
  either-Replays :
      (t : Bool) (s s' : Process Prv) (is : List (ℕ × Input Prv)) (pm : ProtocolManager Prv)
      → Replays s is s'
      → Replays s is (if t then record s' { manager = pm } else s')
  either-Replays true s s' is pm f = record { node = f.node; effects = f.effects }
  either-Replays false s s' is pm f = f

  turn-Replays :
      (now : ℕ) (t : Turn) (s : Process Prv)
      → Replays s (input_of sm co date now t s) (turn sm co date now t s)
  unfolding turn input_of deliver
  turn-Replays now (connects version p) s =
      let (session, pm) = run_peer version p s.manager in admits-Replays session pm s
  turn-Replays now (sends id seeds packet) s = elim (Option-cases (peer id s.manager.peers)) [
    | inl e ↦ rw (turn, input_of, e) (nothing-Replays s s refl refl)
    | inr (p, e) ↦
        let i = arrives s.manager seeds p packet in
        let r = serve sm co date now i s.node in
        rw (turn, input_of, e)
          (either-Replays (returned sm co date packet r.outcome) s (serves r s) ((now, i) ∷ []) _
            (serves-Replays now i s))
  ]
  turn-Replays now (leaves id) s = nothing-Replays s _ refl refl
  turn-Replays now (acts e) s = serves-Replays now (own e) s

  while_alive :
      (t : Bool) (s s' : Process Prv) (is : List (ℕ × Input Prv))
      → Replays s is s'
      → Replays s (if t then is else []) (if t then s' else s)
  while_alive true s s' is f = f
  while_alive false s s' is f = nothing-Replays s s refl refl

  -- What the turns do to a process is to its node a run over their inputs.
  pub run_turns-Replays :
      (ts : List (ℕ × Turn)) (s : Process Prv)
      → Replays s (inputs_of sm co date ts s) (run_turns sm co date ts s)
  unfolding run_turns inputs_of
  run_turns-Replays [] s = nothing-Replays s s refl refl
  run_turns-Replays ((now, t) ∷ ts) s =
      let s' = turn sm co date now t s in
      while_alive s.alive s _ _
        (both-Replays s s' _ _ _ (turn-Replays now t s) (run_turns-Replays ts s'))

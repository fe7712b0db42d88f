-- ===== src/Network/Dispatch/Refinement.antt =====
-- The traffic of eth/handler.go against the node that handles events: every state that packets lead
-- to is the state after a run of the handlers of eth/pbft-core.go.
use pbft_block.Common.{ℕ, ◌≡◌, refl, sym, ap, ◌∙◌, true, false, List, [], ◌∷◌, ◌++◌, arith, nat_eq}
use mathlib.Core.List.{append-nil}
use pbft_block.Text.{Str}
use pbft_block.Worker.{Worker}
use pbft_block.Node.{run, sent}
use pbft_block.Node.Runs.{run-append, sent-append}
use pbft_block.Network.Wire.{Codec, Sm2}
use pbft_block.Network.Dispatch.{Outcome, accepted, refused, process_ends, Served}
use pbft_block.Network.Dispatch.Traffic.{
  Input, State, serve, serve_all, go_on, with_time, step_of, steps_of, Steps, serve-Steps,
}

module _ {Prv Pub : Type 0} (sm : Sm2 Prv Pub) (co : Codec) (date : ℕ → Str) where
  -- A run of the node that is what the traffic came to: the inputs that were dealt with, and those
  -- that a process that had ended left.
  pub record Refined (w : Worker) (is : List (ℕ × Input Prv)) (s : State) : Type 0 where
    pub dealt : List (ℕ × Input Prv)
    pub left : List (ℕ × Input Prv)
    pub all : is ≡ dealt ++ left
    pub ended : s.alive ≡ true → left ≡ []
    pub node : s.node ≡ run w (steps_of sm co date dealt)
    pub effects : s.effects ≡ sent w (steps_of sm co date dealt)

  one_more :
      (now : ℕ) (i : Input Prv) (is : List (ℕ × Input Prv)) (w : Worker) (s : Served) (rest : State)
      → Steps sm co date now (step_of sm co date i) w s
      → Refined s.node is rest
      → Refined w ((now, i) ∷ is) (record rest { effects = s.effects ++ rest.effects })
  unfolding steps_of
  one_more now i is w s rest f r =
      let first = with_time now (step_of sm co date i) in
      let more = steps_of sm co date r.dealt in
      record {
        dealt = (now, i) ∷ r.dealt;
        left = r.left;
        all = ap (λ x. (now, i) ∷ x) r.all;
        ended = r.ended;
        node = r.node ∙ ap (λ x. run x more) f.node ∙ sym (run-append w first more);
        effects =
            ap (λ x. s.effects ++ x) r.effects
            ∙ ap (λ x. x ++ sent s.node more) f.effects
            ∙ ap (λ x. sent w first ++ sent x more) f.node
            ∙ sym (sent-append w first more);
      }

  the_end :
      (now : ℕ) (i : Input Prv) (is : List (ℕ × Input Prv)) (w : Worker) (s : Served)
      → Steps sm co date now (step_of sm co date i) w s
      → Refined w ((now, i) ∷ is) (record { node = s.node; effects = s.effects; alive = false })
  unfolding steps_of
  the_end now i is w s f = record {
    dealt = (now, i) ∷ [];
    left = is;
    all = refl;
    ended = λ e. ground arith;
    node = f.node ∙ ap (run w) (sym (append-nil (with_time now (step_of sm co date i))));
    effects = f.effects ∙ ap (sent w) (sym (append-nil (with_time now (step_of sm co date i))));
  }

  either_way :
      (now : ℕ) (i : Input Prv) (is : List (ℕ × Input Prv)) (w : Worker) (o : Outcome) (s : Served)
      (rest : State)
      → Steps sm co date now (step_of sm co date i) w s
      → Refined s.node is rest
      → Refined w ((now, i) ∷ is) (go_on o s rest)
  either_way now i is w accepted s rest f r = one_more now i is w s rest f r
  either_way now i is w (refused e) s rest f r = one_more now i is w s rest f r
  either_way now i is w process_ends s rest f r = the_end now i is w s f

  -- Whatever packets come from whatever peers, with what the node does of itself, in any order: the
  -- inputs up to the end of the process, all of them while it runs, leave the node as the run of their
  -- steps leaves it, and it has started exactly what that run starts. The step of an input is the
  -- message that its envelope opens to, if it is one for the node.
  pub serve_all-Refined :
      (w : Worker) (is : List (ℕ × Input Prv)) → Refined w is (serve_all sm co date w is)
  unfolding serve_all steps_of run sent
  serve_all-Refined w [] = record {
    dealt = [];
    left = [];
    all = refl;
    ended = λ e. refl;
    node = refl;
    effects = refl;
  }
  serve_all-Refined w ((now, i) ∷ is) =
      let s = serve sm co date now i w in
      either_way now i is w s.outcome s (serve_all sm co date s.node is)
        (serve-Steps sm co date now i w) (serve_all-Refined s.node is)

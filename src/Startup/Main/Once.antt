-- ===== src/Startup/Main/Once.antt =====
-- How often `main` of src/main.go starts the consensus, told by what happens to the process: the
-- turns that it takes, with or without a start among them.
use pbft_block.Common.{
  ℕ, ◌+◌, ◌≡◌, ◌≢◌, refl, sym, ap, subst, ◌∙◌, ◌⊎◌, inl, inr, Bool, false, ◌||◌, List, [], ◌∷◌,
  ◌++◌, ◌==◌, eqb, bytes_eq, arith, Bool-cases, bytes_beq_iff,
}
use pbft_block.Text.{Str, codes}
use pbft_block.Network.Wire.{Codec, Sm2}
use pbft_block.Network.Peers.{len}
use pbft_block.Network.Sessions.{Process, Turn, run_turns}
use pbft_block.Startup.Main.{
  waiting, printing, Move, ticks, wakes, turns, enter, all_there, move, moves,
}
use pbft_block.Startup.Main.Asleep.{
  turns_of, Sleeps, runs-cons, moves-over, Sleeps-from, asleep-Sleeps,
}

module _ {Prv Pub : Type 0} (sm : Sm2 Prv Pub) (co : Codec) (date : ℕ → Str) (peersnum : ℕ) where
  -- A tick among the moves sees a peer for each other node.
  unfoldable pub sees_all : List (ℕ × Move) → Process Prv → Bool
  sees_all [] s = false
  sees_all ((now, ticks) ∷ ms) s = eqb (len s.manager.peers + 1) peersnum || sees_all ms s
  sees_all ((now, wakes) ∷ ms) s = sees_all ms s
  sees_all ((now, turns t) ∷ ms) s = sees_all ms (run_turns sm co date ((now, t) ∷ []) s)

  -- The first tick that sees all, and the sleep from there on.
  pub record Seen (ms : List (ℕ × Move)) (s r : Process Prv) : Type 0 where
    pub before : List (ℕ × Move)
    pub time : ℕ
    pub later : List (ℕ × Move)
    pub split : ms ≡ before ++ (time, ticks) ∷ later
    pub first : sees_all before s ≡ false
    pub all : len (run_turns sm co date (turns_of before) s).manager.peers + 1 ≡ peersnum
    pub sleeps : Sleeps sm co date peersnum (turns_of before) later s r

  abbrev pub Waits : List (ℕ × Move) → Process Prv → Process Prv → Type 0
  Waits ms s r =
      ((sees_all ms s ≡ false) × (r ≡ run_turns sm co date (turns_of ms) s)) ⊎ Seen ms s r

  -- A move before the tick that sees all.
  Waits-cons :
      (now : ℕ) (mv : Move) (ms : List (ℕ × Move)) (s s' r : Process Prv)
      → ((bs : List (ℕ × Move)) → sees_all ((now, mv) ∷ bs) s ≡ sees_all bs s')
      → ((bs : List (ℕ × Move)) (vs : List (ℕ × Turn))
          → run_turns sm co date (turns_of bs ++ vs) s'
            ≡ run_turns sm co date (turns_of ((now, mv) ∷ bs) ++ vs) s)
      → ((bs : List (ℕ × Move))
          → run_turns sm co date (turns_of bs) s'
            ≡ run_turns sm co date (turns_of ((now, mv) ∷ bs)) s)
      → Waits ms s' r
      → Waits ((now, mv) ∷ ms) s r
  Waits-cons now mv ms s s' r blind same whole (inl (unseen, e)) =
      inl (blind ms ∙ unseen, e ∙ whole ms)
  Waits-cons now mv ms s s' r blind same whole (inr w) = inr (record {
    before = (now, mv) ∷ w.before;
    time = w.time;
    later = w.later;
    split = ap (λ x. (now, mv) ∷ x) w.split;
    first = blind w.before ∙ w.first;
    all = ap (λ (x : Process Prv). len x.manager.peers + 1) (sym (whole w.before)) ∙ w.all;
    sleeps =
        Sleeps-from sm co date peersnum (turns_of ((now, mv) ∷ w.before)) (turns_of w.before)
          w.later s s' r (same w.before) w.sleeps;
  })

  idle_tick :
      (now : ℕ) (s : Process Prv)
      → eqb (len s.manager.peers + 1) peersnum ≡ false
      → move sm co date peersnum now ticks (record { process = s; loop = waiting })
        ≡ record { process = s; loop = waiting }
  unfolding move all_there
  idle_tick now s e = rw (move, e) refl

  waiting-Waits :
      (ms : List (ℕ × Move)) (s : Process Prv)
      → Waits ms s (moves sm co date peersnum ms (record { process = s; loop = waiting })).process
  unfolding moves move all_there sees_all
  waiting-Waits [] s = inl (refl, unfold run_turns in refl)
  waiting-Waits ((now, ticks) ∷ ms) s = elim (Bool-cases (eqb (len s.manager.peers + 1) peersnum)) [
    | inl e ↦ inr (record {
      before = [];
      time = now;
      later = ms;
      split = refl;
      first = refl;
      all = unfold run_turns in ground (arith, e);
      sleeps = rw (moves, move, all_there, e) (asleep-Sleeps sm co date peersnum ms s);
    })
    | inr e ↦
        subst (λ m. Waits ((now, ticks) ∷ ms) s (moves sm co date peersnum ms m).process)
          (sym (idle_tick now s e))
          (Waits-cons now ticks ms s s _ (λ bs. ground (arith, e)) (λ bs vs. refl) (λ bs. refl)
            (waiting-Waits ms s))
  ]
  waiting-Waits ((now, wakes) ∷ ms) s =
      Waits-cons now wakes ms s s _ (λ bs. refl) (λ bs vs. refl) (λ bs. refl) (waiting-Waits ms s)
  waiting-Waits ((now, turns t) ∷ ms) s =
      Waits-cons now (turns t) ms s (run_turns sm co date ((now, t) ∷ []) s) _ (λ bs. refl)
        (λ bs vs. sym (runs-cons sm co date peersnum now t (turns_of bs ++ vs) s))
        (λ bs. sym (runs-cons sm co date peersnum now t (turns_of bs) s))
        (waiting-Waits ms (run_turns sm co date ((now, t) ∷ []) s))

  -- Let a process enter the loops of `main`, and let the ticker fire, sleeps end, peers come, send and
  -- go and the node act in any order. If the node is not the first of the configuration, the process
  -- ends as it does by these turns alone. If it is the first, so it does unless a tick sees as many
  -- peers as the configuration has other nodes and a sleep ends after the first such tick; then the
  -- process ends as it does by these turns with one start of the consensus among them, at the first
  -- end of a sleep after that tick, and no other.
  pub main_starts_once :
      (leader_port : Str) (s : Process Prv) (ms : List (ℕ × Move))
      → let r = (moves sm co date peersnum ms (enter leader_port s)).process in
        ((s.node.node_id ≢ codes "127.0.0.1" ++ leader_port)
          × (r ≡ run_turns sm co date (turns_of ms) s))
        ⊎ ((s.node.node_id ≡ codes "127.0.0.1" ++ leader_port) × Waits ms s r)
  unfolding enter
  main_starts_once leader_port s ms =
      elim (Bool-cases (s.node.node_id == codes "127.0.0.1" ++ leader_port)) [
        | inl e ↦ inr (
          ground (arith, bytes_beq_iff s.node.node_id (codes "127.0.0.1" ++ leader_port)),
          rw (enter, e) (waiting-Waits ms s),
        )
        | inr e ↦ inl (
          λ same. ground (arith, bytes_beq_iff s.node.node_id (codes "127.0.0.1" ++ leader_port)),
          rw (enter, e) (moves-over sm co date peersnum ms s printing refl refl),
        )
      ]

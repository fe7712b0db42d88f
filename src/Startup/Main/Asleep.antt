-- ===== src/Startup/Main/Asleep.antt =====
-- What a process of src/main.go comes to once its loop is asleep or over: the turns that it takes.
use pbft_block.Common.{
  ℕ, ◌≡◌, refl, sym, ap, ◌∙◌, ◌⊎◌, inl, inr, Bool, true, false, List, [], ◌∷◌, ◌++◌, bytes_eq,
  arith, Bool-cases,
}
use pbft_block.Text.{Str}
use pbft_block.Node.{start}
use pbft_block.Network.Wire.{Codec, Sm2}
use pbft_block.Network.Sessions.{Process, Turn, acts, run_turns}
use pbft_block.Startup.Main.{
  asleep, over, Loop, Move, ticks, wakes, turns, asleep_now, waiting_now, move, moves,
}

-- What happens besides the ticker and the sleep.
abbrev pub turns_of : List (ℕ × Move) → List (ℕ × Turn)
turns_of [] = []
turns_of ((now, ticks) ∷ ms) = turns_of ms
turns_of ((now, wakes) ∷ ms) = turns_of ms
turns_of ((now, turns t) ∷ ms) = (now, t) ∷ turns_of ms

-- A sleep may end among the moves.
abbrev pub wakes_among : List (ℕ × Move) → Bool
wakes_among [] = false
wakes_among ((now, wakes) ∷ ms) = true
wakes_among ((now, ticks) ∷ ms) = wakes_among ms
wakes_among ((now, turns t) ∷ ms) = wakes_among ms

module _ {Prv Pub : Type 0} (sm : Sm2 Prv Pub) (co : Codec) (date : ℕ → Str) (peersnum : ℕ) where
  ended : (ts : List (ℕ × Turn)) (s : Process Prv) → s.alive ≡ false → run_turns sm co date ts s ≡ s
  unfolding run_turns
  ended [] s e = refl
  ended ((now, t) ∷ ts) s e = rw (run_turns, e) refl

  -- One turn, and then the others.
  pub runs-cons :
      (now : ℕ) (t : Turn) (ts : List (ℕ × Turn)) (s : Process Prv)
      → run_turns sm co date ((now, t) ∷ ts) s
        ≡ run_turns sm co date ts (run_turns sm co date ((now, t) ∷ []) s)
  unfolding run_turns
  runs-cons now t ts s = ground (arith, ended ts s, Bool-cases s.alive)

  runs-append :
      (ts us : List (ℕ × Turn)) (s : Process Prv)
      → run_turns sm co date (ts ++ us) s ≡ run_turns sm co date us (run_turns sm co date ts s)
  unfolding run_turns
  runs-append [] us s = refl
  runs-append ((now, t) ∷ ts) us s =
      runs-cons now t (ts ++ us) s
      ∙ runs-append ts us (run_turns sm co date ((now, t) ∷ []) s)
      ∙ ap (run_turns sm co date us) (sym (runs-cons now t ts s))

  -- The sleep ends among the moves, which come after these turns: there is one start, in that place.
  pub record Woken (ts : List (ℕ × Turn)) (ms : List (ℕ × Move)) (s r : Process Prv) : Type 0 where
    pub before : List (ℕ × Move)
    pub time : ℕ
    pub later : List (ℕ × Move)
    pub split : ms ≡ before ++ (time, wakes) ∷ later
    pub first : wakes_among before ≡ false
    pub result :
        r ≡ run_turns sm co date (ts ++ (turns_of before ++ (time, acts start) ∷ turns_of later)) s

  abbrev pub Sleeps : List (ℕ × Turn) → List (ℕ × Move) → Process Prv → Process Prv → Type 0
  Sleeps ts ms s r =
      ((wakes_among ms ≡ false) × (r ≡ run_turns sm co date (ts ++ turns_of ms) s))
      ⊎ Woken ts ms s r

  -- Behind the loop, or in that of the other nodes, only the turns happen.
  pub moves-over :
      (ms : List (ℕ × Move)) (s : Process Prv) (l : Loop)
      → waiting_now l ≡ false
      → asleep_now l ≡ false
      → (moves sm co date peersnum ms (record { process = s; loop = l })).process
        ≡ run_turns sm co date (turns_of ms) s
  unfolding moves move
  moves-over [] s l h h' = unfold run_turns in refl
  moves-over ((now, ticks) ∷ ms) s l h h' = ground (arith, h, moves-over ms s l h h')
  moves-over ((now, wakes) ∷ ms) s l h h' = ground (arith, h', moves-over ms s l h h')
  moves-over ((now, turns t) ∷ ms) s l h h' =
      moves-over ms (run_turns sm co date ((now, t) ∷ []) s) l h h'
      ∙ sym (runs-cons now t (turns_of ms) s)

  -- The same end from another beginning.
  pub Sleeps-from :
      (ts us : List (ℕ × Turn)) (ms : List (ℕ × Move)) (s s' r : Process Prv)
      → ((vs : List (ℕ × Turn))
          → run_turns sm co date (us ++ vs) s' ≡ run_turns sm co date (ts ++ vs) s)
      → Sleeps us ms s' r
      → Sleeps ts ms s r
  Sleeps-from ts us ms s s' r same (inl (none_at_all, e)) =
      inl (none_at_all, e ∙ same (turns_of ms))
  Sleeps-from ts us ms s s' r same (inr w) = inr (record {
    before = w.before;
    time = w.time;
    later = w.later;
    split = w.split;
    first = w.first;
    result = w.result ∙ same (turns_of w.before ++ (w.time, acts start) ∷ turns_of w.later);
  })

  -- A move before the end of the sleep.
  Sleeps-cons :
      (now : ℕ) (mv : Move) (ms : List (ℕ × Move)) (s s' r : Process Prv)
      → ((bs : List (ℕ × Move)) → wakes_among ((now, mv) ∷ bs) ≡ wakes_among bs)
      → ((bs : List (ℕ × Move)) (vs : List (ℕ × Turn))
          → run_turns sm co date (turns_of bs ++ vs) s'
            ≡ run_turns sm co date (turns_of ((now, mv) ∷ bs) ++ vs) s)
      → run_turns sm co date (turns_of ms) s' ≡ run_turns sm co date (turns_of ((now, mv) ∷ ms)) s
      → Sleeps [] ms s' r
      → Sleeps [] ((now, mv) ∷ ms) s r
  Sleeps-cons now mv ms s s' r skips same whole (inl (none_at_all, e)) =
      inl (skips ms ∙ none_at_all, e ∙ whole)
  Sleeps-cons now mv ms s s' r skips same whole (inr w) = inr (record {
    before = (now, mv) ∷ w.before;
    time = w.time;
    later = w.later;
    split = ap (λ x. (now, mv) ∷ x) w.split;
    first = skips w.before ∙ w.first;
    result = w.result ∙ same w.before ((w.time, acts start) ∷ turns_of w.later);
  })

  pub asleep-Sleeps :
      (ms : List (ℕ × Move)) (s : Process Prv)
      → Sleeps [] ms s
          (moves sm co date peersnum ms (record { process = s; loop = asleep })).process
  unfolding moves move
  asleep-Sleeps [] s = inl (refl, unfold run_turns in refl)
  asleep-Sleeps ((now, ticks) ∷ ms) s =
      Sleeps-cons now ticks ms s s _ (λ bs. refl) (λ bs vs. refl) refl (asleep-Sleeps ms s)
  asleep-Sleeps ((now, wakes) ∷ ms) s = inr (record {
    before = [];
    time = now;
    later = ms;
    split = refl;
    first = refl;
    result =
        moves-over ms (run_turns sm co date ((now, acts start) ∷ []) s) over refl refl
        ∙ sym (runs-cons now (acts start) (turns_of ms) s);
  })
  asleep-Sleeps ((now, turns t) ∷ ms) s =
      Sleeps-cons now (turns t) ms s (run_turns sm co date ((now, t) ∷ []) s) _ (λ bs. refl)
        (λ bs vs. sym (runs-cons now t (turns_of bs ++ vs) s))
        (sym (runs-cons now t (turns_of ms) s))
        (asleep-Sleeps ms (run_turns sm co date ((now, t) ∷ []) s))

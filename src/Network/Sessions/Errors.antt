-- ===== src/Network/Sessions/Errors.antt =====
-- How an error of a goroutine ends a session: the channel between `sendHandleMsgRes`, the goroutine
-- of `handle` that reads it, the loop of `handle`, and `closeChan` (eth/handler.go).
--
-- The channel has no buffer: a sender waits until it is read. Any order of these steps is possible.
use pbft_block.Common.{
  ℕ, zero, suc, ◌≡◌, inl, inr, refl, ap, ◌∙◌, Bool, true, false, ◌&&◌, not, Option, none, some,
  List, [], ◌∷◌, ◌++◌, if◌then◌else◌, length, arith, is_some, Bool-cases,
}
use pbft_block.Network.Dispatch.{ErrCode}

pub record Channel : Type 0 where
  pub err : Option ErrCode  -- the variable `Err`
  pub reads : Bool  -- the goroutine that reads the channel is there
  pub waiting : List ErrCode  -- the senders that wait, by their errors
  pub cancelled : Bool
  pub closed : Bool
  pub returned : Option ErrCode  -- what `handle` has returned

pub data Step : Type 0 where
  -- a goroutine has failed, and its timer fires first, or its context is done first
  sends_error gives_up : ErrCode → Step
  -- the reading goroutine gets an error, or its context is done
  gets stops_reading : Step
  -- the loop looks at `Err`, and `handleMsg` returns an error itself
  looks : Step
  fails : ErrCode → Step
  -- a round of `closeChan`
  drains : Step

-- A session that begins.
abbrev pub new_channel : Channel
new_channel = record {
  err = none;
  reads = true;
  waiting = [];
  cancelled = false;
  closed = false;
  returned = none;
}

abbrev ends : Option ErrCode → Channel → Channel
ends none ch = ch
ends (some e) ch =
    if is_some ch.returned then ch else record ch { cancelled = true; returned = some e }

-- A closed channel is read as nil.
abbrev get_first : List ErrCode → Channel → Channel
get_first [] ch = if ch.closed then record ch { err = none; reads = false } else ch
get_first (e ∷ es) ch = record ch { err = some e; reads = false; waiting = es }

abbrev drain_first : List ErrCode → Channel → Channel
drain_first [] ch = record ch { closed = true }
drain_first (e ∷ es) ch = record ch { waiting = es }

-- A send on the closed channel panics, and the sender recovers.
unfoldable pub step : Step → Channel → Channel
step (sends_error e) ch = if ch.closed then ch else record ch { waiting = ch.waiting ++ e ∷ [] }
step (gives_up e) ch = ch
step gets ch = if ch.reads then get_first ch.waiting ch else ch
step stops_reading ch = if ch.cancelled then record ch { reads = false } else ch
step looks ch = ends ch.err ch
step (fails e) ch = ends (some e) ch
step drains ch = if is_some ch.returned && not ch.closed then drain_first ch.waiting ch else ch

unfoldable pub steps : List Step → Channel → Channel
steps [] ch = ch
steps (s ∷ ss) ch = steps ss (step s ch)

-- So many rounds of `closeChan`.
abbrev pub rounds : ℕ → List Step
rounds zero = []
rounds (suc n) = drains ∷ rounds n

-- Nobody waits at a closed channel.
IsSound : Channel → Type 0
IsSound ch = (ch.closed ≡ true) → ch.waiting ≡ []

gets-IsSound :
    (es : List ErrCode) (ch : Channel) → ch.waiting ≡ es → IsSound ch → IsSound (get_first es ch)
unfolding IsSound
gets-IsSound [] ch e i = ground (arith, i)
gets-IsSound (x ∷ es) ch e i = λ h. ground (arith, i h)

ends-IsSound : (e : Option ErrCode) (ch : Channel) → IsSound ch → IsSound (ends e ch)
unfolding IsSound
ends-IsSound none ch i = i
ends-IsSound (some e) ch i = λ h. ground (arith, i)

drains-IsSound :
    (es : List ErrCode) (ch : Channel) → ch.waiting ≡ es → IsSound ch → IsSound (drain_first es ch)
unfolding IsSound
drains-IsSound [] ch e i = λ h. ground (arith, e)
drains-IsSound (x ∷ es) ch e i = λ h. ground (arith, i h)

step-IsSound : (s : Step) (ch : Channel) → IsSound ch → IsSound (step s ch)
unfolding step IsSound
step-IsSound (sends_error e) ch i = λ h. ground (arith, i)
step-IsSound (gives_up e) ch i = i
step-IsSound gets ch i = λ h. ground (arith, gets-IsSound ch.waiting ch refl i, i)
step-IsSound stops_reading ch i = λ h. ground (arith, i)
step-IsSound looks ch i = ends-IsSound ch.err ch i
step-IsSound (fails e) ch i = ends-IsSound (some e) ch i
step-IsSound drains ch i = λ h. ground (arith, drains-IsSound ch.waiting ch refl i, i)

steps-IsSound : (ss : List Step) (ch : Channel) → IsSound ch → IsSound (steps ss ch)
unfolding steps
steps-IsSound [] ch i = i
steps-IsSound (s ∷ ss) ch i = steps-IsSound ss (step s ch) (step-IsSound s ch i)

get_first-closed :
    (es : List ErrCode) (ch : Channel) → ch.closed ≡ true → (get_first es ch).closed ≡ true
get_first-closed [] ch h = ground (arith, h)
get_first-closed (e ∷ es) ch h = h

ends-closed : (e : Option ErrCode) (ch : Channel) → ch.closed ≡ true → (ends e ch).closed ≡ true
ends-closed none ch h = h
ends-closed (some e) ch h = ground (arith, h)

-- A closed channel stays closed.
step-closed : (s : Step) (ch : Channel) → ch.closed ≡ true → (step s ch).closed ≡ true
unfolding step
step-closed (sends_error e) ch h = ground (arith, h)
step-closed (gives_up e) ch h = h
step-closed gets ch h = ground (arith, get_first-closed ch.waiting ch h)
step-closed stops_reading ch h = ground (arith, h)
step-closed looks ch h = ends-closed ch.err ch h
step-closed (fails e) ch h = ends-closed (some e) ch h
step-closed drains ch h = ground (arith, h)

steps-closed : (ss : List Step) (ch : Channel) → ch.closed ≡ true → (steps ss ch).closed ≡ true
unfolding steps
steps-closed [] ch h = h
steps-closed (s ∷ ss) ch h = steps-closed ss (step s ch) (step-closed s ch h)

drains-first :
    (es : List ErrCode) (ch : Channel)
    → ch.waiting ≡ es
    → is_some ch.returned ≡ true
    → ch.closed ≡ false
    → step drains ch ≡ drain_first es ch
unfolding step
drains-first es ch e over shut = rw (step, over, shut, e) refl

-- With a round for each sender that waits and one more, `closeChan` closes the channel.
rounds-close :
    (es : List ErrCode) (ch : Channel)
    → ch.waiting ≡ es
    → is_some ch.returned ≡ true
    → ch.closed ≡ false
    → (steps (rounds (suc (length es))) ch).closed ≡ true
unfolding steps
rounds-close [] ch e over shut = ap (λ (x : Channel). x.closed) (drains-first [] ch e over shut)
rounds-close (x ∷ es) ch e over shut =
    ap (λ y. (steps (rounds (suc (length es))) y).closed) (drains-first (x ∷ es) ch e over shut)
    ∙ rounds-close es (record ch { waiting = es }) refl over shut

closes :
    (ch : Channel)
    → is_some ch.returned ≡ true
    → (steps (rounds (suc (length ch.waiting))) ch).closed ≡ true
closes ch over = elim (Bool-cases ch.closed) [
  | inl shut ↦ steps-closed (rounds (suc (length ch.waiting))) ch shut
  | inr open_ ↦ rounds-close ch.waiting ch refl over open_
]

-- What holds of a channel for good: it is closed, and nobody waits at it.
pub record Settled (ch : Channel) : Type 0 where
  pub closed : ch.closed ≡ true
  pub nobody : ch.waiting ≡ []

-- Let the steps of a session, in any order, have made `handle` return. Then as many rounds of
-- `closeChan` as senders wait, and one more, close the channel, and whatever happens after that, it
-- stays closed and no goroutine waits at it.
pub channel_settles :
    (ss later : List Step)
    → is_some (steps ss new_channel).returned ≡ true
    → Settled (
        steps later
          (steps (rounds (suc (length (steps ss new_channel).waiting))) (steps ss new_channel)))
unfolding IsSound
channel_settles ss later over =
    let ch = steps ss new_channel in
    let done = rounds (suc (length ch.waiting)) in
    let shut = steps-closed later (steps done ch) (closes ch over) in
    let sound =
      steps-IsSound later (steps done ch)
        (steps-IsSound done ch (steps-IsSound ss new_channel (λ h. refl))) in
    record { closed = shut; nobody = sound shut }

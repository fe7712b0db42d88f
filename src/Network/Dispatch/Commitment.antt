-- ===== src/Network/Dispatch/Commitment.antt =====
-- One commit for a height, whatever packets `handleMsg` of eth/handler.go is given.
use pbft_block.Common.{
  ℕ, sym, subst, ◌<◌, ◌^◌, Bool, true, false, Option, none, some, List, [], ◌∷◌, ◌++◌, All,
  Distinct, nat_eq, ltb, eqb, if◌then◌else◌, ◌==◌, bytes_eq,
}
use pbft_block.Text.{Str, codes}
use pbft_block.Worker.{Worker}
use pbft_block.Node.{Event, checkpoint, InRange}
use pbft_block.Node.Careful.{commit_heights}
use pbft_block.Node.Commits.{commits_once}
use pbft_block.Network.Wire.{Codec, Sm2, con_msg, checkpoin, zhuanfa, protocol_max_msg_size}
use pbft_block.Network.Dispatch.{Opened, opens, shut, open_packet, event_of}
use pbft_block.Network.Dispatch.Traffic.{
  Input, arrives, own, serve_all, with_time, step_of, steps_of, of_opened,
}
use pbft_block.Network.Dispatch.Refinement.{serve_all-Refined}

-- JSON decodes a height into a uint64.
abbrev pub HeightsFit : Codec → Type 0
HeightsFit co = (text : Str) → (co.json.to_commit text).vr.block_height < 2 ^ 64

-- What the node does of itself names heights of a uint64.
abbrev pub OwnInRange : {Prv : Type 0} → ℕ × Input Prv → Type 0
OwnInRange (now, own e) = InRange (now, e)
OwnInRange (now, arrives pm seeds p packet) = Unit

module _ {Prv Pub : Type 0} (sm : Sm2 Prv Pub) (co : Codec) (date : ℕ → Str) where
  abbrev StepInRange : ℕ → Option Event → Type 0
  StepInRange now none = Unit
  StepInRange now (some e) = InRange (now, e)

  either_in_range :
      (now : ℕ) (t : Bool) (e e' : Option Event)
      → StepInRange now e
      → StepInRange now e'
      → StepInRange now (if t then e else e')
  either_in_range now true e e' h h' = h
  either_in_range now false e e' h h' = h'

  event_of_range :
      HeightsFit co → (now : ℕ) (typ text : Str) → StepInRange now (event_of co.json typ text)
  unfolding event_of
  event_of_range fit now typ text = either_in_range now (typ == codes "PBFTRequest") _ _ tt (
      either_in_range now (typ == codes "PBFTPrePrepare") _ _ tt (
        either_in_range now (typ == codes "PBFTPrepare") _ _ tt
          (either_in_range now (typ == codes "PBFTCommit") _ _ (fit text) tt)))

  opened_in_range :
      {A : Type 0} (now : ℕ) (o : Opened A) (f : A → Option Event)
      → ((a : A) → StepInRange now (f a))
      → StepInRange now (of_opened sm co date o f)
  opened_in_range now (opens a) f h = h a
  opened_in_range now (shut o) f h = tt

  step_of_range :
      HeightsFit co
      → (now : ℕ) (i : Input Prv) → OwnInRange (now, i)
      → StepInRange now (step_of sm co date i)
  unfolding step_of
  step_of_range fit now (own e) h = h
  step_of_range fit now (arrives pm seeds p packet) h =
      either_in_range now (ltb protocol_max_msg_size packet.size) _ _ tt (
        either_in_range now (eqb packet.code con_msg) _ _
          (opened_in_range now (open_packet sm co co.cons p packet)
            (λ m. event_of co.json m.typ m.msg) (λ m. event_of_range fit now m.typ m.msg))
          (either_in_range now (eqb packet.code checkpoin) _ _
            (opened_in_range now (open_packet sm co co.check p packet) (λ c. some (checkpoint c))
              (λ c. tt))
            (either_in_range now (eqb packet.code zhuanfa) _ _
              (opened_in_range now (open_packet sm co co.cons2 p packet)
                (λ m. event_of co.json m.typ m.msg) (λ m. event_of_range fit now m.typ m.msg))
              tt)))

  with_time_range :
      (now : ℕ) (e : Option Event) (es : List (ℕ × Event))
      → StepInRange now e
      → All InRange es
      → All InRange (with_time now e ++ es)
  with_time_range now none es h hs = hs
  with_time_range now (some e) es h hs = (h, hs)

  steps_of_range :
      HeightsFit co
      → (is : List (ℕ × Input Prv)) → All OwnInRange is
      → All InRange (steps_of sm co date is)
  unfolding steps_of
  steps_of_range fit [] h = tt
  steps_of_range fit ((now, i) ∷ is) h =
      with_time_range now (step_of sm co date i) (steps_of sm co date is)
        (step_of_range fit now i h.0) (steps_of_range fit is h.1)

  All-dealt :
      (dealt left : List (ℕ × Input Prv)) → All OwnInRange (dealt ++ left) → All OwnInRange dealt
  All-dealt [] left h = tt
  All-dealt (x ∷ dealt) left h = (h.0, All-dealt dealt left h.1)

  -- Whatever packets come to a node from whatever peers, signed by whomever, in any order with what it
  -- does of itself: it posts at most one commit for each block height, where JSON decodes the heights
  -- of commits to less than 2^64 and the commits that it hands to itself name such heights.
  pub traffic_commits_once :
      HeightsFit co
      → (w : Worker) (is : List (ℕ × Input Prv)) → All OwnInRange is
      → Distinct (commit_heights (serve_all sm co date w is).effects)
  traffic_commits_once fit w is ranges =
      let r = serve_all-Refined sm co date w is in
      subst (λ es. Distinct (commit_heights es)) (sym r.effects)
        (commits_once w (steps_of sm co date r.dealt) (
          steps_of_range fit r.dealt
            (All-dealt r.dealt r.left (subst (λ x. All OwnInRange x) r.all ranges))))

-- ===== src/Network/Agreement.antt =====
-- Agreement of the nodes of a network whose packets go through `handleMsg` of eth/handler.go.
use pbft_block.Common.{ℕ, ◌≡◌, ◌≤◌, true, List, All, length}
use pbft_block.Text.{Str}
use pbft_block.Msg.{MsgId, Effect}
use pbft_block.Worker.{Worker}
use pbft_block.Worker.Quorum.{faults}
use pbft_block.Cert.{committed}
use pbft_block.Cert.Overlap.{Senders}
use pbft_block.Node.Agreement.{Backed, committed_agreement}
use pbft_block.Network.Wire.{Codec, Sm2}
use pbft_block.Network.Dispatch.Traffic.{Input, serve_all}
use pbft_block.Network.Dispatch.Commitment.{HeightsFit, OwnInRange, traffic_commits_once}

-- A member of the network: its state at some time, and what happens at it from then on.
pub record Member (Prv : Type 0) : Type 0 where
  pub begin : Worker
  pub inputs : List (ℕ × Input Prv)
  pub in_range : All OwnInRange inputs

module _ {Prv Pub : Type 0} (sm : Sm2 Prv Pub) (co : Codec) (date : ℕ → Str) where
  -- All that the member has started, its posts among it.
  abbrev pub posts : Member Prv → List Effect
  posts m = (serve_all sm co date m.begin m.inputs).effects

  -- Let a network have two members or more, of which no more are faulty than its size allows for;
  -- the others run the program, on any packets from any peers and any events of their own, where
  -- JSON decodes the heights of commits to less than 2^64 and their own events name such heights.
  -- Let two nodes of the network have a request committed each, with commits from members alone, of
  -- which those under the names of members that are not faulty were posted by them, in the one
  -- certificate for a block of some height and in the other for a block of the same height. Then it
  -- is the same block.
  pub network_agreement :
      (network faulty : List Str) (members : Str → Member Prv) (digest digest' : Str)
      (id id' : MsgId) (v w : Worker) (h : ℕ) (a b : Str)
      → HeightsFit co
      → 2 ≤ length network
      → length faulty ≤ faults (length network)
      → v.n ≡ length network
      → w.n ≡ length network
      → Senders network id v
      → Senders network id' w
      → Backed (λ s. posts (members s)) faulty h a id v
      → Backed (λ s. posts (members s)) faulty h b id' w
      → committed digest id v ≡ true
      → committed digest' id' w ≡ true
      → a ≡ b
  network_agreement network faulty members digest digest' id id' v w h a b fit =
      committed_agreement network faulty (λ s. posts (members s)) digest digest' id id' v w h a b
        (λ s.
          traffic_commits_once sm co date fit (members s).begin (members s).inputs
            (members s).in_range)

-- ===== src/Network/Broadcast/Reach.antt =====
-- Whom the loops of eth/handler.go reach: every peer that is a permitted consensus node, and no other.
use pbft_block.Common.{
  ℕ, ◌≡◌, refl, ◌∙◌, inl, inr, ◌++◌, ◌≤◌, Bool, true, false, Option, none, some, is_some, List, [],
  ◌∷◌, Map, Unique, arith, lookup, length, ◌==◌, if◌then◌else◌, bytes_eq, bytes_beq_iff,
  Option-cases, Bool-cases,
}
use pbft_block.Text.{Str}
use pbft_block.Pns.{judge_con_permissioned}
use pbft_block.Msg.{ConsensusMsg}
use pbft_block.Network.Wire.{Packet, Codec, Sm2}
use pbft_block.Network.Envelope.{send_cons_send_msg}
use pbft_block.Network.Peers.{Peer, peer, values}
use pbft_block.Network.Peers.Filing.{IsFiled}
use pbft_block.Network.Manager.{ProtocolManager}
use pbft_block.Network.Broadcast.{addressed, returnadd, broadcast_loop, con_broadcast}

abbrev due : (Str → Bool) → (Str → Option Packet) → Str → Option Peer → Option Packet
due may make id none = none
due may make id (some p) = if may id then make id else none

-- A peer of the list under its own identifier.
abbrev Own : Map Str Peer → Type 0
Own m = (id : Str) (p : Peer) → lookup id m ≡ some p → p.id ≡ id

Own-rest : (k : Str) (p : Peer) (m : Map Str Peer) → lookup k m ≡ none → Own ((k, p) ∷ m) → Own m
unfolding lookup
Own-rest k p m fresh own id q h = ground (arith, own id q, bytes_beq_iff k id)

Own-first : (k : Str) (p : Peer) (m : Map Str Peer) → Own ((k, p) ∷ m) → p.id ≡ k
unfolding lookup
Own-first k p m own = ground (arith, own k p, bytes_beq_iff k k)

lookup-broadcast_loop :
    (may logs : Str → Bool) (make : Str → Option Packet) (id : Str) (m : Map Str Peer)
    → ((j : Str) → logs j ≡ true)
    → Unique m
    → Own m
    → (lookup id (broadcast_loop may logs make (values m)).packets ≡ due may make id (lookup id m))
      × ((broadcast_loop may logs make (values m)).panicked ≡ false)
unfolding broadcast_loop lookup
lookup-broadcast_loop may logs make id [] log u own = (refl, refl)
lookup-broadcast_loop may logs make id ((k, p) ∷ m) log u own =
    let same = Own-first k p m own in
    let rest = lookup-broadcast_loop may logs make id m log u.1 (Own-rest k p m u.0 own) in
    ground (
      arith,
      log p.id,
      same,
      rest,
      u.0,
      bytes_beq_iff k id,
      Option-cases (make p.id),
      Bool-cases (may p.id),
      Bool-cases (k == id),
    )

put_first :
    (k : Str) (packet : Option Packet) (m : Map Str Packet)
    → lookup k m ≡ none
    → Unique m
    → Unique (addressed k packet ++ m)
put_first k none m fresh u = u
put_first k (some packet) m fresh u = (fresh, u)

-- No identifier is sent to twice.
broadcast_loop-Unique :
    (may logs : Str → Bool) (make : Str → Option Packet) (m : Map Str Peer)
    → ((j : Str) → logs j ≡ true)
    → Unique m
    → Own m
    → Unique (broadcast_loop may logs make (values m)).packets
unfolding broadcast_loop
broadcast_loop-Unique may logs make [] log u own = tt
broadcast_loop-Unique may logs make ((k, p) ∷ m) log u own =
    let same = Own-first k p m own in
    let own' = Own-rest k p m u.0 own in
    let (fresh, _) = lookup-broadcast_loop may logs make k m log u.1 own' in
    let rest = broadcast_loop-Unique may logs make m log u.1 own' in
    elim (Bool-cases (may p.id)) [
      | inl e ↦ rw (e, log p.id, same) (put_first k (make k) _ (fresh ∙ rw u.0 refl) rest)
      | inr e ↦ rw e rest
    ]

returnadd_some :
    (peers : List Str) (id : Str) → 4 ≤ length peers → is_some (returnadd peers id) ≡ true
unfolding returnadd
returnadd_some (a ∷ b ∷ c ∷ d ∷ rest) id four = ground arith
returnadd_some _ id four = ground arith

module _ {Prv Pub : Type 0} (sm : Sm2 Prv Pub) (co : Codec) where
  -- With at least four addresses in the configuration and every peer under its own identifier, the
  -- loop does not end the process, and what it sends to an identifier is the signed message, if a
  -- peer is there under it and the file permits it as a consensus node, and nothing otherwise. It
  -- sends to no identifier twice.
  pub con_broadcast_reaches :
      (peers : List Str) (seeds : Str → ℕ) (m : ConsensusMsg) (pm : ProtocolManager Prv) (id : Str)
      → 4 ≤ length peers
      → IsFiled pm.peers
      → (lookup id (con_broadcast sm co peers seeds m pm).packets
          ≡ due
              (judge_con_permissioned pm.pn_service)
              (λ j. send_cons_send_msg sm co (seeds j) m pm.pn_service.node_prk)
              id
              (peer id pm.peers))
        × ((con_broadcast sm co peers seeds m pm).panicked ≡ false)
        × Unique (con_broadcast sm co peers seeds m pm).packets
  unfolding con_broadcast peer
  con_broadcast_reaches peers seeds m pm id four filed =
      let may = judge_con_permissioned pm.pn_service in
      let logged = λ (j : Str). returnadd_some peers j four in
      let (sent, quiet) =
        lookup-broadcast_loop may (λ j. is_some (returnadd peers j)) _ id pm.peers.peers logged
          filed.unique filed.own in
      (
        sent,
        quiet,
        broadcast_loop-Unique may (λ j. is_some (returnadd peers j)) _ pm.peers.peers logged
            filed.unique filed.own,
      )

-- ===== src/Network/Peers/Filing.antt =====
-- How the set of peers of eth/peer.go is kept: every peer under its own identifier, and nobody new
-- after the set is closed.
use pbft_block.Common.{
  ◌≡◌, refl, true, some, List, [], ◌∷◌, bytes_eq, bytes_beq_iff, lookup, lookup-insert,
  lookup-delete, Unique, insert-Unique, delete-Unique, arith,
}
use pbft_block.Text.{Str}
use pbft_block.Network.Peers.{Peer, PeerSet, new_peer_set, peer, register, unregister, close}

-- What the manager does to the set.
pub data Change : Type 0 where
  joins : Peer → Change
  leaves : Str → Change
  closes : Change

unfoldable pub change : Change → PeerSet → PeerSet
change (joins p) ps = (register p ps).1
change (leaves id) ps = (unregister id ps).1
change closes ps = (close ps).1

unfoldable pub changes : List Change → PeerSet → PeerSet
changes [] ps = ps
changes (c ∷ cs) ps = changes cs (change c ps)

pub record IsFiled (ps : PeerSet) : Type 0 where
  pub unique : Unique ps.peers
  pub own : (id : Str) (p : Peer) → lookup id ps.peers ≡ some p → p.id ≡ id

change-IsFiled : (c : Change) (ps : PeerSet) → IsFiled ps → IsFiled (change c ps)
unfolding change register unregister close
change-IsFiled (joins p) ps f = record {
  unique = ground (arith, f.unique, insert-Unique p.id p ps.peers f.unique);
  own =
      λ id q h. ground (arith, f.own id q, lookup-insert p.id id p ps.peers, bytes_beq_iff p.id id);
}
change-IsFiled (leaves id) ps f = record {
  unique = ground (arith, f.unique, delete-Unique id ps.peers f.unique);
  own = λ j q h. ground (arith, f.own j q, lookup-delete id j ps.peers);
}
change-IsFiled closes ps f = record { unique = f.unique; own = f.own }

run-IsFiled : (cs : List Change) (ps : PeerSet) → IsFiled ps → IsFiled (changes cs ps)
unfolding changes
run-IsFiled [] ps f = f
run-IsFiled (c ∷ cs) ps f = run-IsFiled cs (change c ps) (change-IsFiled c ps f)

nobody_joins :
    (cs : List Change) (ps : PeerSet) (id : Str) (p : Peer)
    → ps.closed ≡ true
    → peer id (changes cs ps) ≡ some p
    → peer id ps ≡ some p
unfolding changes change register unregister close peer
nobody_joins [] ps id p shut h = h
nobody_joins (joins q ∷ cs) ps id p shut h =
    ground (arith, nobody_joins cs (change (joins q) ps) id p)
nobody_joins (leaves j ∷ cs) ps id p shut h =
    ground (arith, nobody_joins cs (change (leaves j) ps) id p, lookup-delete j id ps.peers)
nobody_joins (closes ∷ cs) ps id p shut h = ground (arith, nobody_joins cs (change closes ps) id p)

new_peer_set-IsFiled : IsFiled new_peer_set
unfolding lookup
new_peer_set-IsFiled = record { unique = tt; own = λ id p h. ground arith }

-- Whatever peers have joined and left before and after the set was closed: a peer that is found under
-- an identifier then is the one of that identifier, and it was there when the set was closed.
pub peer-closed :
    (before later : List Change) (id : Str) (p : Peer)
    → peer id (changes later (close (changes before new_peer_set)).1) ≡ some p
    → (p.id ≡ id) × (peer id (changes before new_peer_set) ≡ some p)
unfolding close peer
peer-closed before later id p found =
    let there = nobody_joins later (close (changes before new_peer_set)).1 id p refl found in
    ((run-IsFiled before new_peer_set new_peer_set-IsFiled).own id p there, there)

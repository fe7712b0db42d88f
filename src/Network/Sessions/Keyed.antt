-- ===== src/Network/Sessions/Keyed.antt =====
-- The sessions of a process: every peer in the set is filed under its own identifier and has the key
-- that the permissions have for it.
use pbft_block.Common.{
  ℕ, ◌≡◌, refl, Bool, true, false, Option, none, some, List, if◌then◌else◌, inl, inr, Option-cases,
  lookup, lookup-insert, lookup-delete, bytes_eq, bytes_beq_iff, arith,
}
use pbft_block.Text.{Str}
use pbft_block.Text.Base64.{decode_string}
use pbft_block.Pns.{PermissionedNodeService, get_pk_by_pid}
use pbft_block.Network.Wire.{Codec, Sm2}
use pbft_block.Network.Peers.{Peer, PeerSet, PeerError, peer, register, unregister}
use pbft_block.Network.Manager.{
  ProtocolManager, P2pPeer, Session, quitting, panicked, joined, run_peer, remove_peer, new_peer,
  either_text, hex_text, new_protocol_manager,
}
use pbft_block.Network.Sessions.{
  Process, Turn, connects, sends, leaves, acts, admits, deliver, turn,
}

module _ {Prv : Type 0} (service : PermissionedNodeService Prv) where
  -- The key of an identifier.
  abbrev pub key_for : Str → List ℕ
  key_for id = (decode_string (either_text (get_pk_by_pid service id))).bytes

  abbrev pub Peered : Str → Peer → Type 0
  Peered id p = (p.id ≡ id) × (p.node_pk ≡ key_for id)

  pub record IsKeyed (pm : ProtocolManager Prv) : Type 0 where
    pub same : pm.pn_service ≡ service
    pub keyed : (id : Str) (p : Peer) → peer id pm.peers ≡ some p → Peered id p

  new_peer-Peered :
      (version : ℕ) (p : P2pPeer) (pm : ProtocolManager Prv)
      → pm.pn_service ≡ service
      → Peered (hex_text p.node_id) (new_peer version p pm)
  unfolding new_peer
  new_peer-Peered version p pm e = (refl, rw e refl)

  register-Keyed :
      (joining : Peer) (ps : PeerSet)
      → Peered joining.id joining
      → ((id : Str) (p : Peer) → peer id ps ≡ some p → Peered id p)
      → (id : Str) (p : Peer) → peer id (register joining ps).1 ≡ some p
      → Peered id p
  unfolding register peer
  register-Keyed joining ps new old id p h = ground (
    arith,
    new,
    old id p,
    lookup-insert joining.id id joining ps.peers,
    bytes_beq_iff joining.id id,
  )

  unregister-Keyed :
      (gone : Str) (ps : PeerSet)
      → ((id : Str) (p : Peer) → peer id ps ≡ some p → Peered id p)
      → (id : Str) (p : Peer) → peer id (unregister gone ps).1 ≡ some p
      → Peered id p
  unfolding unregister peer
  unregister-Keyed gone ps old id p h = ground (arith, old id p, lookup-delete gone id ps.peers)

  remove_peer-IsKeyed :
      (id : Str) (pm : ProtocolManager Prv) → IsKeyed pm → IsKeyed (remove_peer id pm)
  unfolding remove_peer
  remove_peer-IsKeyed id pm f = elim (Option-cases (peer id pm.peers)) [
    | inl e ↦ rw (remove_peer, e) f
    | inr (p, e) ↦
        rw (remove_peer, e) (record { same = f.same; keyed = unregister-Keyed id pm.peers f.keyed })
  ]

  abbrev After : Session × ProtocolManager Prv → Type 0
  After (session, pm) = IsKeyed pm

  run_peer-IsKeyed :
      (version : ℕ) (p : P2pPeer) (pm : ProtocolManager Prv)
      → IsKeyed pm
      → After (run_peer version p pm)
  unfolding run_peer
  run_peer-IsKeyed version p pm f =
      let joining = new_peer version p pm in
      let with_peers : IsKeyed (record pm { peers = (register joining pm.peers).1 }) = record {
        same = f.same;
        keyed = register-Keyed joining pm.peers (new_peer-Peered version p pm f.same) f.keyed;
      } in
      either pm.quit_sync (register joining pm.peers).0 joining (register joining pm.peers).1
        with_peers
    where
      either :
          (b : Bool) (err : Option PeerError) (joining : Peer) (ps : PeerSet)
          → IsKeyed (record pm { peers = ps })
          → After (
              if b then (quitting, pm) else elim err [
                | none ↦ (joined joining, record pm { peers = ps })
                | some e ↦ (panicked, pm)
              ])
      either true err joining ps g = f
      either false none joining ps g = g
      either false (some e) joining ps g = f

  pub new_protocol_manager-IsKeyed :
      (network_id : ℕ) (pm : ProtocolManager Prv)
      → new_protocol_manager network_id service ≡ some pm
      → IsKeyed pm
  unfolding new_protocol_manager peer lookup
  new_protocol_manager-IsKeyed network_id pm e = record {
    same = ground (arith, e);
    keyed = λ id p h. ground (arith, e, h);
  }

module _ {Prv Pub : Type 0} (sm : Sm2 Prv Pub) (co : Codec) (date : ℕ → Str)
    (service : PermissionedNodeService Prv) where
  admits-IsKeyed :
      (session : Session) (pm : ProtocolManager Prv) (s : Process Prv)
      → IsKeyed service s.manager
      → IsKeyed service pm
      → IsKeyed service (admits session pm s).manager
  admits-IsKeyed quitting pm s f g = f
  admits-IsKeyed panicked pm s f g = f
  admits-IsKeyed (joined p) pm s f g = g

  either-IsKeyed :
      (t : Bool) (s : Process Prv) (pm : ProtocolManager Prv)
      → IsKeyed service s.manager
      → IsKeyed service pm
      → IsKeyed service (if t then record s { manager = pm } else s).manager
  either-IsKeyed true s pm f g = g
  either-IsKeyed false s pm f g = f

  pub turn-IsKeyed :
      (now : ℕ) (t : Turn) (s : Process Prv)
      → IsKeyed service s.manager
      → IsKeyed service (turn sm co date now t s).manager
  unfolding turn deliver
  turn-IsKeyed now (connects version p) s f =
      admits-IsKeyed (run_peer version p s.manager).0 (run_peer version p s.manager).1 s f
        (run_peer-IsKeyed service version p s.manager f)
  turn-IsKeyed now (sends id seeds packet) s f = elim (Option-cases (peer id s.manager.peers)) [
    | inl e ↦ rw (turn, e) f
    | inr (p, e) ↦
        rw (turn, e) (either-IsKeyed _ _ _ f (remove_peer-IsKeyed service id s.manager f))
  ]
  turn-IsKeyed now (leaves id) s f = remove_peer-IsKeyed service id s.manager f
  turn-IsKeyed now (acts e) s f = f

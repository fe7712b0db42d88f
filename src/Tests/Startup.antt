-- ===== src/Tests/Startup.antt =====
-- A network of three: the start of its second node, and the first round of its first.
use pbft_block.Common.{
  ℕ, Distinct, ◌≡◌, ◌⊎◌, refl, true, false, Bool, Option, none, some, List, [], ◌∷◌, ◌++◌, ◌≢◌, mem,
  length, leb, is_some, if◌then◌else◌, bytes_beq, bytes_eq,
}
use pbft_block.Text.{Str, codes}
use pbft_block.Msg.{pbft_request, go_request}
use pbft_block.Worker.{initt, get_quorum}
use pbft_block.Pns.{Node}
use pbft_block.Handlers.Transfer.{broadcast}
use pbft_block.Network.Peers.{Peer, new_peer_set}
use pbft_block.Network.Manager.{ProtocolManager, new_protocol_manager, start}
use pbft_block.Network.Sessions.{launched, run_turns}
use pbft_block.Startup.{enode}
use pbft_block.Startup.StaticNodes.{complete}
use pbft_block.Startup.Boot.{Keys, Files, Server, missing, urls, boot}
use pbft_block.Startup.Boot.Complete.{Parsed, service_of, complete_server, boot-complete}
use pbft_block.Startup.Main.{Move, ticks, wakes, enter, moves}
use pbft_block.Startup.Main.Asleep.{turns_of}
use pbft_block.Startup.Main.Once.{Waits, main_starts_once}
use pbft_block.Startup.Main.FirstBlock.{addresses, FirstBlock, first_block}
use pbft_block.Startup.Main.FirstRound.{first_request, first_round}
use pbft_block.Tests.Data.{one, two, three}
use pbft_block.Tests.Library.{sm, co}

abbrev node : Str → Node
node id = record { node_id = id; node_pk = []; node_type = []; node_status = [] }

abbrev key_file : Str → Option (List ℕ)
key_file name = some (7 ∷ [])

absent : mem two (one ∷ []) ≡ false
unfolding mem bytes_beq
absent = refl

absent_after : mem two (three ∷ []) ≡ false
unfolding mem bytes_beq
absent_after = refl

abbrev keys : Keys Bool
keys = record { load = λ text. some true; text = λ key. 7 ∷ []; generated = none }

-- No configuration of the p2p server yet, and one trusted node.
abbrev files : Files
files = record {
  private_key = none;
  p2p_config = none;
  static_nodes = missing;
  trusted_nodes = urls ([] ∷ one ∷ []);
  author = some (node three ∷ node two ∷ node one ∷ []);
}

-- A parser of URLs that are not too long.
abbrev parse_node : Str → Option Str
parse_node url = if leb (length url) 200 then some url else none

abbrev manager : ProtocolManager Bool
manager = record {
  network_id = 20210704;
  peers = new_peer_set;
  sub_protocols = record { name = codes "eth"; version = 63; length = 27 } ∷ [];
  subscribed = false;
  quit_sync = false;
  node_type = 1;
  pn_service = service_of keys parse_node true (node three ∷ node two ∷ node one ∷ []);
}

made : new_protocol_manager 20210704 manager.pn_service ≡ some manager
unfolding new_protocol_manager
made = refl

-- A server that starts with a name.
abbrev start_server : Server Bool Str → Option Str
start_server server = elim server.name [ [] ↦ some (codes "no name") | c ∷ cs ↦ none ]

abbrev others : List Str
others = enode (node three) one ∷ enode (node one) three ∷ []

parsed : Parsed parse_node (node three ∷ node one ∷ []) (one ∷ three ∷ []) others
unfolding Parsed
parsed = (refl, (refl, refl))

boot-complete_example :
    let server = complete_server keys parse_node two others files true manager.sub_protocols in
    boot keys parse_node start_server (complete (one ∷ []) two (three ∷ [])) key_file files ≡ (
      if is_some (start_server server)
      then none
      else some (record { server = server; manager = start manager; node = initt two one 3 }))
boot-complete_example =
    boot-complete keys parse_node start_server (one ∷ []) (three ∷ []) two (node three ∷ [])
      (node one ∷ []) (node two) others key_file files (7 ∷ []) true manager absent absent_after
      refl refl refl refl refl parsed made

-- The process of the first node, with two peers, in a network of three.
abbrev peer_at : Str → Peer
peer_at port = record { id = port; version = 63; node_type = 1; node_pk = [] }

abbrev joined : ProtocolManager Bool
joined = record manager {
  peers = record { peers = (two, peer_at two) ∷ (three, peer_at three) ∷ []; closed = false };
}

first_round_example :
    (moves sm co
      (λ now. [])
      3
      ((5, ticks) ∷ (9, wakes) ∷ [])
      (enter one (launched (initt one one 3) joined))).process.effects
    ≡ go_request (first_request 9 (initt one one 3))
      ∷ broadcast 9 (pbft_request (first_request 9 (initt one one 3))) (initt one one 3)
      ∷ []
first_round_example = first_round sm co (λ now. []) one 3 joined 5 9 refl

abbrev ms : List (ℕ × Move)
ms = (5, ticks) ∷ (9, wakes) ∷ (11, ticks) ∷ (13, wakes) ∷ []

main_starts_once_example :
    let r =
      (moves sm co (λ now. []) 3 ms (enter one (launched (initt one one 3) joined))).process in
    (((initt one one 3).node_id ≢ codes "127.0.0.1" ++ one)
      × (r ≡ run_turns sm co (λ now. []) (turns_of ms) (launched (initt one one 3) joined)))
    ⊎ (((initt one one 3).node_id ≡ codes "127.0.0.1" ++ one)
        × Waits sm co (λ now. []) 3 ms (launched (initt one one 3) joined) r)
main_starts_once_example =
    main_starts_once sm co (λ now. []) 3 one (launched (initt one one 3) joined) ms

-- Three of the four nodes of a network whose first node is at the first port.
different : Distinct (addresses (one ∷ two ∷ three ∷ []))
unfolding mem bytes_beq
different = (refl, (refl, (refl, tt)))

first_block_example : FirstBlock one 4 5 6 7 8 9 (one ∷ two ∷ three ∷ [])
unfolding get_quorum
first_block_example = first_block one 4 5 6 7 8 9 one (two ∷ three ∷ []) different refl

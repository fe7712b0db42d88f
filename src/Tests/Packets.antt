-- ===== src/Tests/Packets.antt =====
-- Packets on their way to a node of a network of four.
use pbft_block.Common.{
  ℕ, ◌≡◌, refl, ◌⊎◌, true, false, Bool, inl, inr, none, some, Option, List, [], ◌∷◌, arith,
  Distinct, nat_eq,
}
use pbft_block.Text.{Str}
use pbft_block.Text.Base64.{decode_string, decode_letters, digit_of, encode_to_string, letter_of}
use pbft_block.Msg.{post}
use pbft_block.Node.{tick, commit}
use pbft_block.Node.Careful.{commit_heights}
use pbft_block.Network.Wire.{Packet, CommunicationInfo, con_msg, wire_of}
use pbft_block.Network.Envelope.{send_signed, sign_raw_data, sign_info, crypto_sign}
use pbft_block.Network.Peers.{Peer}
use pbft_block.Network.Manager.{new_peer}
use pbft_block.Network.Dispatch.{handle_msg, unchanged, process_ends, serve_event}
use pbft_block.Network.Dispatch.Source.{Idle, Permitted, handle_msg-Permitted}
use pbft_block.Network.Dispatch.Keyless.{handle_msg-crashed}
use pbft_block.Network.Dispatch.Delivery.{packet_for, handle_msg-packet_for}
use pbft_block.Network.Dispatch.Traffic.{Input, arrives, own, serve_all}
use pbft_block.Network.Dispatch.Refinement.{Refined, serve_all-Refined}
use pbft_block.Network.Dispatch.Commitment.{HeightsFit, traffic_commits_once}
use pbft_block.Network.Sessions.{Turn, connects, sends, leaves, acts}
use pbft_block.Network.Sessions.Accounted.{Answers, run_turns-Answers}
use pbft_block.Tests.Data.{two, preparing, commit_from}
use pbft_block.Tests.Library.{sm, sm-IsLawful, co, info_reads, cons_reads}
use pbft_block.Tests.Sessions.{manager, manager_made, session, session_id, service, vote}

abbrev date : ℕ → Str
date now = []

abbrev seeds : Str → ℕ
seeds id = 5

-- A peer with the second of the keys.
abbrev sender : Peer
sender = record { id = two; version = 63; node_type = 1; node_pk = encode_to_string (4 ∷ 2 ∷ []) }

abbrev or_empty : Option Packet → Packet
or_empty none = record { code = 0; size = 0; payload = [] }
or_empty (some packet) = packet

abbrev packet : Packet
packet = or_empty (packet_for sm co 5 (post vote) false)

made : packet_for sm co 5 (post vote) false ≡ some packet
unfolding send_signed sign_raw_data sign_info crypto_sign
made = refl

knows : (decode_string sender.node_pk).bytes ≡ 4 ∷ 2 ∷ []
unfolding decode_string decode_letters digit_of encode_to_string letter_of
knows = refl

handle_msg-packet_for_example :
    handle_msg sm co 9 date seeds manager sender packet preparing
    ≡ serve_event 9 (commit (commit_from two true)) preparing
unfolding send_signed sign_raw_data sign_info crypto_sign
handle_msg-packet_for_example =
    handle_msg-packet_for sm co sm-IsLawful 9 date seeds manager sender packet preparing 5 0
      (post vote) false info_reads (cons_reads (wire_of co vote), refl) knows made (omega arith)

handle_msg-Permitted_example :
    Idle preparing
      (handle_msg sm co 9 date seeds manager (new_peer 63 session manager) packet preparing)
    ⊎ Permitted sm co sm-IsLawful manager session.node_id packet
handle_msg-Permitted_example =
    handle_msg-Permitted sm co sm-IsLawful 9 date seeds manager 63 session packet preparing

abbrev keyless : CommunicationInfo
keyless = record { pay_load = []; sig = record { v = []; r = 1; s = 1 }; vrs = [] }

abbrev keyless_packet : Packet
keyless_packet = record { code = con_msg; size = 5; payload = 1 ∷ 1 ∷ 0 ∷ 0 ∷ 0 ∷ [] }

handle_msg-crashed_example :
    handle_msg sm co 9 date seeds manager sender keyless_packet preparing
    ≡ unchanged process_ends preparing
handle_msg-crashed_example =
    handle_msg-crashed sm co sm-IsLawful 9 date seeds manager sender keyless_packet preparing
      keyless (1 ∷ 1 ∷ []) (omega arith) (inr (inr (inl refl))) refl refl refl

abbrev traffic : List (ℕ × Input Bool)
traffic =
    (1, arrives manager seeds sender packet)
    ∷ (2, own tick)
    ∷ (3, arrives manager seeds sender keyless_packet)
    ∷ (4, own tick)
    ∷ []

serve_all-Refined_example :
    Refined sm co date preparing traffic (serve_all sm co date preparing traffic)
serve_all-Refined_example = serve_all-Refined sm co date preparing traffic

fits : HeightsFit co
fits text = omega arith

traffic_commits_once_example :
    Distinct (commit_heights (serve_all sm co date preparing traffic).effects)
traffic_commits_once_example =
    traffic_commits_once sm co date fits preparing traffic (tt, (tt, (tt, (tt, tt))))

-- A peer connects, sends a commit, and has the node end with its next packet.
abbrev visit : List (ℕ × Turn)
visit =
    (1, connects 63 session)
    ∷ (2, sends session_id seeds packet)
    ∷ (3, acts tick)
    ∷ (4, sends session_id seeds keyless_packet)
    ∷ (5, leaves session_id)
    ∷ []

run_turns-Answers_example : Answers sm co sm-IsLawful date service preparing manager visit
run_turns-Answers_example =
    run_turns-Answers sm co sm-IsLawful date service preparing 1 manager visit manager_made

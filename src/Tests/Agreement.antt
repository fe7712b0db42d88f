-- ===== src/Tests/Agreement.antt =====
-- Two nodes of a network of four that have a request committed, one member being faulty.
use pbft_block.Common.{
  ℕ, Bool, ◌≡◌, refl, true, some, List, [], ◌∷◌, arith, bytes_beq, bytes_beq_iff, lookup, insert,
  retain, mem, bytes_eq, nat_eq,
}
use pbft_block.Text.{Str}
use pbft_block.Msg.{Commit, MsgCert, msg_id_eq}
use pbft_block.Worker.{Worker, get_quorum, in_v, get_request_from_store}
use pbft_block.Cert.{
  cert_at, get_cert, set_cert, pre_prepared, prepared, committed, commit_quorum,
  get_consensus_tx_exes, tx_exe_counts, best, get_valid_res_from_commit,
}
use pbft_block.Cert.Overlap.{Senders}
use pbft_block.Cert.Ballots.{committed-ballots}
use pbft_block.Handlers.Prepare.{
  recv_prepare, find_request, count_prepare, reach_prepared, judge_block, send_commit, mark_commit,
  add_prepare, commit_of, vr_sign, opinion_on, is_valid, block_of,
}
use pbft_block.Handlers.Commit.{recv_commit, count_commit, add_commit}
use pbft_block.Handlers.Transfer.{send_con_msg_transfer2, send_con_msg_transfer3}
use pbft_block.Pool.{get_block}
use pbft_block.Node.{prepare, handle}
use pbft_block.Node.Agreement.{names_block}
use pbft_block.Network.Agreement.{Member, posts, network_agreement}
use pbft_block.Network.Dispatch.{serve_event}
use pbft_block.Network.Dispatch.Traffic.{own, serve_all}
use pbft_block.Network.Dispatch.Commitment.{HeightsFit}
use pbft_block.Tests.Library.{sm, co}
use pbft_block.Tests.Data.{
  one, two, three, four, network, digest, cert_id, prepares, prepare_from, commit_from, cert_with,
  node_with, preparing, decided,
}

abbrev date : ℕ → Str
date now = []

fits : HeightsFit co
fits text = omega arith

-- The members that are not faulty commit themselves on the third prepare.
abbrev member : Member Bool
member = record {
  begin = preparing;
  inputs = (9, own (prepare (prepare_from three))) ∷ [];
  in_range = (tt, tt);
}

member_commits : names_block 2 two (posts sm co date member) ≡ true
unfolding names_block bytes_beq serve_all serve_event handle recv_prepare find_request count_prepare
    reach_prepared judge_block send_commit mark_commit add_prepare commit_of vr_sign get_cert
    set_cert cert_at in_v get_request_from_store prepared pre_prepared get_quorum block_of get_block
    opinion_on is_valid get_consensus_tx_exes tx_exe_counts best lookup insert retain recv_commit
    count_commit committed commit_quorum add_commit send_con_msg_transfer2 send_con_msg_transfer3
    mem
member_commits = refl

-- Another node, with commits of other members.
abbrev decided2 : Worker
decided2 = node_with (
    cert_with prepares (commit_from two true ∷ commit_from three true ∷ commit_from four true ∷ []))

decided-committed : committed digest cert_id decided ≡ true
unfolding committed prepared pre_prepared get_quorum commit_quorum lookup mem bytes_beq
decided-committed = refl

decided2-committed : committed digest cert_id decided2 ≡ true
unfolding committed prepared pre_prepared get_quorum commit_quorum lookup mem bytes_beq
decided2-committed = refl

decided-Senders : Senders network cert_id decided
unfolding cert_at lookup mem
decided-Senders s h =
    ground
      (arith, bytes_beq_iff one s, bytes_beq_iff two s, bytes_beq_iff three s, bytes_beq_iff four s)

decided2-Senders : Senders network cert_id decided2
unfolding cert_at lookup mem
decided2-Senders s h =
    ground
      (arith, bytes_beq_iff one s, bytes_beq_iff two s, bytes_beq_iff three s, bytes_beq_iff four s)

network_agreement_example : two ≡ two
network_agreement_example =
    network_agreement sm co date network (four ∷ []) (λ s. member) digest digest cert_id cert_id
      decided decided2 2 two two fits (omega arith) (omega arith) refl refl decided-Senders
      decided2-Senders (λ s c h. member_commits) (λ s c h. member_commits) decided-committed
      decided2-committed

-- A commit for a block of another height.
abbrev elsewhere : Commit → Commit
elsewhere c = record c {
  request_digest = four;
  vr = record c.vr { block_height = 9; block_hash = three };
}

abbrev commits : List Commit
commits = commit_from one true ∷ commit_from two true ∷ commit_from four true ∷ []

abbrev others : List Commit
others =
    elsewhere (commit_from one true)
    ∷ elsewhere (commit_from two true)
    ∷ elsewhere (commit_from four true)
    ∷ []

abbrev cert : MsgCert
cert = cert_with prepares commits

decided-cert : lookup cert_id decided.cert_store ≡ some cert
unfolding lookup
decided-cert = refl

committed-ballots_example :
    (committed digest cert_id (set_cert cert_id (record cert { commit = others }) decided)
      ≡ committed digest cert_id decided)
    × (get_valid_res_from_commit 4 (record cert { commit = others })
        ≡ get_valid_res_from_commit 4 cert)
committed-ballots_example =
    committed-ballots digest cert_id decided cert others 4 decided-cert (refl, (refl, (refl, tt)))

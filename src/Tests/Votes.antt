-- ===== src/Tests/Votes.antt =====
-- Quorums, certificates and votes.
use pbft_block.Common.{
  ◌+◌, ◌*◌, ◌≤◌, ◌<◌, ◌≡◌, ◌≢◌, ◌↔◌, refl, true, false, [], ◌∷◌, arith, lookup, insert, mem,
  bytes_eq, bytes_beq, bytes_beq_iff, length,
}
use pbft_block.Msg.{msg_id_eq}
use pbft_block.Worker.{get_quorum}
use pbft_block.Worker.Quorum.{faults, get_quorum_bft}
use pbft_block.Cert.{
  committed, prepared, pre_prepared, commit_quorum, get_consensus_tx_exes, exes, tx_exe_counts,
  best, cert_at,
}
use pbft_block.Cert.Voters.{Quorum, committed_iff}
use pbft_block.Cert.Overlap.{Senders, SharedVoters, committed_overlap}
use pbft_block.Cert.Txs.{txs_votes, get_consensus_tx_exes_agreed}
use pbft_block.Tests.Data.{
  one, two, three, four, network, digest, cert_id, cert_with, prepares, commit_from, committing,
  decided,
}

get_quorum_bft_example :
    (4 + faults 4 < 2 * get_quorum 4) × (get_quorum 4 + faults 4 ≤ 4) × (4 < 2 * get_quorum 4)
get_quorum_bft_example = get_quorum_bft 4 (omega arith)

committed_iff_example :
    (committed digest cert_id decided ≡ true)
    ↔ ((prepared digest cert_id decided ≡ true) × Quorum decided cert_id)
committed_iff_example = committed_iff digest cert_id decided

decided-committed : committed digest cert_id decided ≡ true
unfolding committed prepared pre_prepared get_quorum commit_quorum lookup mem bytes_beq
decided-committed = refl

committing_open : committed digest cert_id committing ≡ false
unfolding committed prepared pre_prepared get_quorum commit_quorum lookup mem bytes_beq
committing_open = refl

decided-Senders : Senders network cert_id decided
unfolding cert_at lookup mem
decided-Senders s h =
    ground
      (arith, bytes_beq_iff one s, bytes_beq_iff two s, bytes_beq_iff three s, bytes_beq_iff four s)

committed_overlap_example : SharedVoters decided decided cert_id cert_id (faults (length network))
committed_overlap_example =
    committed_overlap network digest digest cert_id cert_id decided decided (omega arith) refl refl
      decided-Senders decided-Senders decided-committed decided-committed

-- Two of four against.

sequence_found : get_consensus_tx_exes digest cert_id decided ≡ exes three
unfolding get_consensus_tx_exes tx_exe_counts best lookup insert bytes_beq get_quorum
sequence_found = refl

get_consensus_tx_exes_agreed_example :
    (three ≢ []) × (get_quorum 4 ≤ txs_votes digest cert_id three prepares)
unfolding lookup
get_consensus_tx_exes_agreed_example =
    get_consensus_tx_exes_agreed digest cert_id decided
      (cert_with prepares
        (commit_from one true ∷ commit_from two true ∷ commit_from four true ∷ []))
      refl three sequence_found

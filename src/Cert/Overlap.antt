-- ===== src/Cert/Overlap.antt =====
-- Why two quorums of eth/pbft-core_basic.go cannot be of faulty nodes alone: `committed` in two nodes
-- of the same network.
use pbft_block.Common.{
  ℕ, ◌≤◌, ◌<◌, ◌≡◌, true, Bool, List, arith, length, keep, mem, Distinct, overlap, mem-keep,
  keep-Distinct, nat_eq, bytes_eq,
}
use pbft_block.Text.{Str}
use pbft_block.Msg.{MsgId}
use pbft_block.Worker.{Worker}
use pbft_block.Worker.Quorum.{faults, get_quorum_bft}
use pbft_block.Cert.{cert_at, committed}
use pbft_block.Cert.Voters.{has_voted, committed_iff}

-- The senders of the commits are nodes of the network.
abbrev pub Senders : List Str → MsgId → Worker → Type 0
Senders network id w =
    (s : Str) → has_voted id (cert_at id w).commit s ≡ true → mem s network ≡ true

-- Those that both nodes have a commit from.
pub record SharedVoters (v w : Worker) (id id' : MsgId) (least : ℕ) : Type 0 where
  pub both : List Str
  pub different : Distinct both
  pub more : least < length both
  pub first : (s : Str) → mem s both ≡ true → has_voted id (cert_at id v).commit s ≡ true
  pub second : (s : Str) → mem s both ≡ true → has_voted id' (cert_at id' w).commit s ≡ true

-- Let two nodes of one network, of two members or more, have a request committed each, and let the
-- commits be from members. Then more members than can be faulty have sent both a commit for the one
-- and a commit for the other.
pub committed_overlap :
    (network : List Str) (digest digest' : Str) (id id' : MsgId) (v w : Worker)
    → 2 ≤ length network
    → v.n ≡ length network
    → w.n ≡ length network
    → Senders network id v
    → Senders network id' w
    → committed digest id v ≡ true
    → committed digest' id' w ≡ true
    → SharedVoters v w id id' (faults (length network))
committed_overlap network digest digest' id id' v w two nv nw sv sw cv cw =
    let p = ((committed_iff digest id v).0 cv).1 in
    let q = ((committed_iff digest' id' w).0 cw).1 in
    let shared : Str → Bool = λ x. mem x q.members in
    record {
      both = keep shared p.members;
      different = keep-Distinct shared p.members p.different;
      more = ground (
        arith,
        overlap p.members q.members network p.different q.different (λ s h. sv s (p.voted s h))
            (λ s h. sw s (q.voted s h)),
        get_quorum_bft (length network) two,
        p.enough,
        q.enough,
      );
      first = λ s h. p.voted s (mem-keep shared s p.members h).0;
      second = λ s h. q.voted s (mem-keep shared s p.members h).1;
    }

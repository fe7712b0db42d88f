-- ===== src/Worker/Quorum.antt =====
-- The thresholds of eth/pbft-core_basic.go (`getQuorum`, `getElectionQuorum`).
use pbft_block.Common.{ℕ, ◌+◌, ◌-◌, ◌*◌, ◌/◌, ◌≤◌, ◌<◌, arith}
use pbft_block.Worker.{get_quorum, get_election_quorum}

-- The largest number of faulty nodes of which `n` nodes can bear.
abbrev pub faults : ℕ → ℕ
faults n = (n - 1) / 3

-- For two nodes and more: two quorums overlap in more nodes than can be faulty, the nodes that are
-- not faulty make a quorum, and a quorum is a majority.
pub get_quorum_bft :
    (n : ℕ)
    → 2 ≤ n
    → (n + faults n < 2 * get_quorum n) × (get_quorum n + faults n ≤ n) × (n < 2 * get_quorum n)
unfolding get_quorum
get_quorum_bft n h = ground arith

-- With fewer than two nodes no number of votes that the network can give is enough.
pub get_quorum_alone : (n : ℕ) → n < 2 → n < get_quorum n
unfolding get_quorum
get_quorum_alone n h = ground arith

-- For two nodes and more: two election quorums share a node, and an election quorum is no larger
-- than the network and than a commit quorum.
pub get_election_quorum_majority :
    (n : ℕ)
    → 2 ≤ n
    → (n < 2 * get_election_quorum n)
      × (get_election_quorum n ≤ n)
      × (get_election_quorum n ≤ get_quorum n)
unfolding get_election_quorum get_quorum
get_election_quorum_majority n h = ground arith

pub get_quorum-pos : (n : ℕ) → 1 ≤ get_quorum n
unfolding get_quorum
get_quorum-pos n = ground arith

-- ===== src/Startup/Main/FirstBlock.antt =====
-- The first block of a network: what comes of the first round of src/main.go where the messages of a
-- quorum of nodes reach everybody, phase by phase.
use pbft_block.Common.{
  ℕ, ◌≡◌, ◌≢◌, ◌∙◌, refl, sym, subst, true, List, [], ◌∷◌, ◌++◌, All, Distinct, length, arith,
  bytes_eq, lookup,
}
use pbft_block.Text.{Str, codes}
use pbft_block.Msg.{
  Block, Request, Prepare, Commit, Effect, pbft_commit, pbft_prepare, pbft_pre_prepare,
  go_pre_prepare, go_prepare,
}
use pbft_block.Worker.{Worker, initt, get_quorum, in_v}
use pbft_block.Handlers.Transfer.{broadcast}
use pbft_block.Handlers.Txs.{txs_exe_of, txs_exe_to_string}
use pbft_block.Handlers.Request.{new_hash_req}
use pbft_block.Handlers.PrePrepare.{prepare_of}
use pbft_block.Handlers.Prepare.{is_valid}
use pbft_block.Mining.{new_block}
use pbft_block.Node.{Event, run, sent}
use pbft_block.Node.Round.Counts.{Fits, prepare_senders, commit_senders}
use pbft_block.Node.Round.Prepares.{as_prepares, prepares_of, Says}
use pbft_block.Node.Round.Commits.{as_commits, commits_of, Accepts}
use pbft_block.Node.Round.Opening.{Opens}
use pbft_block.Node.Round.Complete.{own_pre_prepare, opening, begins, round-Says, round_grows}
use pbft_block.Startup.Main.FirstRound.{first_request}

-- The node identifiers of some ports.
abbrev pub addresses : List Str → List Str
addresses [] = []
addresses (m ∷ ms) = (codes "127.0.0.1" ++ m) ∷ addresses ms

module _ (leader : Str) (n t t0 t1 t2 t3 : ℕ) where
  -- The node at a port as it starts, and the request and the block of the leader.
  abbrev pub node : Str → Worker
  node m = initt m leader n

  abbrev pub req : Request
  req = first_request t (node leader)

  abbrev pub block : Block
  block = new_block t (node leader)

  abbrev seq : Str
  seq = txs_exe_to_string (txs_exe_of block)

  -- The prepare of a node.
  abbrev pub prepare_by : Str → Prepare
  prepare_by m = prepare_of t1 (own_pre_prepare seq req block t0 (node m)) block (node m)

  abbrev pub prepares_by : List Str → List (ℕ × Prepare)
  prepares_by [] = []
  prepares_by (m ∷ ms) = (t2, prepare_by m) ∷ prepares_by ms

  abbrev pub commits_by : (Str → Commit) → List Str → List (ℕ × Commit)
  commits_by c [] = []
  commits_by c (m ∷ ms) = (t3, c m) ∷ commits_by c ms

  node-Opens : (m : Str) → Opens req block (node m)
  unfolding initt in_v lookup new_block
  node-Opens m = record {
    ready = refl;
    in_view = refl;
    sender = refl;
    unknown = refl;
    above = omega arith;
    real = refl;
    number = refl;
    hash = refl;
    no_cert = refl;
    unmarked = refl;
  }

  valid : is_valid block ≡ true
  unfolding is_valid new_block
  valid = refl

  named : seq ≢ []
  unfolding txs_exe_to_string
  named e = ground (arith, e)

  prepare_by-Fits : (m : Str) → Fits 1 2 (new_hash_req req) seq (prepare_by m)
  unfolding prepare_of
  prepare_by-Fits m = record { view = refl; req_id = refl; request_digest = refl; txs = refl }

  prepares_by-Fits :
      (ms : List Str) → All (Fits 1 2 (new_hash_req req) seq) (prepares_of (prepares_by ms))
  prepares_by-Fits [] = tt
  prepares_by-Fits (m ∷ ms) = (prepare_by-Fits m, prepares_by-Fits ms)

  prepare_senders-by :
      (ms : List Str) → prepare_senders (prepares_of (prepares_by ms)) ≡ addresses ms
  unfolding prepare_of initt
  prepare_senders-by [] = refl
  prepare_senders-by (m ∷ ms) = rw (prepare_senders-by ms) refl

  length-prepares_by : (ms : List Str) → length (prepares_of (prepares_by ms)) ≡ length ms
  length-prepares_by [] = refl
  length-prepares_by (m ∷ ms) = rw (length-prepares_by ms) refl

  length-commits_by :
      (c : Str → Commit) (ms : List Str) → length (commits_of (commits_by c ms)) ≡ length ms
  length-commits_by c [] = refl
  length-commits_by c (m ∷ ms) = rw (length-commits_by c ms) refl

  -- What a node does first: the request comes in, and its own pre-prepare.
  abbrev pub first_steps : Str → List (ℕ × Event)
  first_steps m = opening seq req block t0 t1 (node m)

  -- A message is among the effects.
  pub record Posts (es : List Effect) (e : Effect) : Type 0 where
    pub before : List Effect
    pub after : List Effect
    pub split : es ≡ before ++ e ∷ after

  -- The round of the nodes at some ports, at every node of the network: what it posts, and its chain.
  pub record FirstBlock (qs : List Str) : Type 0 where
    pub commit_by : Str → Commit
    pub prepares :
        (m : Str)
        → Posts
            (sent (node m) (first_steps m))
            (broadcast t1 (pbft_prepare (prepare_by m)) (node m))
    pub at : Str → ℕ
    pub commits :
        (m : Str)
        → Posts
            (sent (node m) (first_steps m ++ as_prepares (prepares_by qs)))
            (broadcast (at m) (pbft_commit (commit_by m)) (node m))
    pub grows :
        (m : Str)
        → (run (node m) (
            first_steps m
            ++ (as_prepares (prepares_by qs)
                ++ as_commits (commits_by commit_by qs)))).current_block
          ≡ 2

  says :
      (q : Str) (qs : List Str)
      → Distinct (addresses (q ∷ qs))
      → length (q ∷ qs) ≡ get_quorum n
      → (m : Str)
      → Says 1 2
          (new_hash_req req)
          seq
          req
          block
          (node m).node_id
          (sent (node m) (first_steps m ++ as_prepares (prepares_by (q ∷ qs))))
  unfolding initt
  says q qs d enough m =
      round-Says seq req block t0 t1 t2 (prepare_by q) (prepares_by qs) (node m) (node-Opens m)
        valid named (prepares_by-Fits (q ∷ qs))
        (subst (λ xs. Distinct xs) (sym (prepare_senders-by (q ∷ qs))) d)
        (length-prepares_by (q ∷ qs) ∙ enough)

  module _ (q : Str) (qs : List Str) (d : Distinct (addresses (q ∷ qs)))
      (enough : length (q ∷ qs) ≡ get_quorum n) where
    commit_of_says : Str → Commit
    commit_of_says m = (says q qs d enough m).c

    commits_by-Accepts :
        (ms : List Str)
        → All
            (Accepts 1 2 (new_hash_req req) seq req block)
            (commits_of (commits_by commit_of_says ms))
    unfolding commit_of_says
    commits_by-Accepts [] = tt
    commits_by-Accepts (m ∷ ms) = (
      record { approves = (says q qs d enough m).approves; height = (says q qs d enough m).height },
      commits_by-Accepts ms,
    )

    commit_senders-by :
        (ms : List Str) → commit_senders (commits_of (commits_by commit_of_says ms)) ≡ addresses ms
    unfolding commit_of_says initt
    commit_senders-by [] = refl
    commit_senders-by (m ∷ ms) = rw (commit_senders-by ms, (says q qs d enough m).sender) refl

    all_grow :
        (m : Str)
        → (run (node m) (
            first_steps m
            ++ (as_prepares (prepares_by (q ∷ qs))
                ++ as_commits (commits_by commit_of_says (q ∷ qs))))).current_block
          ≡ 2
    unfolding initt
    all_grow m =
        round_grows seq req block t0 t1 t2 t3 (prepare_by q) (prepares_by qs) (commit_of_says q)
          (commits_by commit_of_says qs) (node m) (node-Opens m) valid named
          (prepares_by-Fits (q ∷ qs))
          (subst (λ xs. Distinct xs) (sym (prepare_senders-by (q ∷ qs))) d)
          (length-prepares_by (q ∷ qs) ∙ enough) (commits_by-Accepts (q ∷ qs))
          (subst (λ xs. Distinct xs) (sym (commit_senders-by (q ∷ qs))) d)
          (length-commits_by commit_of_says (q ∷ qs) ∙ enough)

  -- Let all nodes of a network start with the same first address, and let the ports of a quorum of
  -- them make different identifiers. Then every node, at whatever port, that gets the first request
  -- of the leader and its own pre-prepare posts its prepare; when it gets the prepares of the quorum
  -- as well, it posts a commit; and when it gets the commits that the nodes of the quorum have posted
  -- in this way, its chain has the block of number 2.
  pub first_block :
      (q : Str) (qs : List Str)
      → Distinct (addresses (q ∷ qs))
      → length (q ∷ qs) ≡ get_quorum n
      → FirstBlock (q ∷ qs)
  unfolding commit_of_says
  first_block q qs d enough = record {
    commit_by = commit_of_says q qs d enough;
    prepares = λ m. record {
      before =
          go_pre_prepare (own_pre_prepare seq req block t0 (node m))
          ∷ broadcast t0 (pbft_pre_prepare (own_pre_prepare seq req block t0 (node m))) (node m)
          ∷ [];
      after = go_prepare (prepare_by m) ∷ [];
      split = (begins seq req block t0 t1 (node m) (node-Opens m)).effects;
    };
    at = λ m. (says q qs d enough m).at;
    commits = λ m. record {
      before = (says q qs d enough m).before;
      after = (says q qs d enough m).after;
      split = (says q qs d enough m).split;
    };
    grows = all_grow q qs d enough;
  }

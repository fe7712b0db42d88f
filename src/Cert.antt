-- ===== src/Cert.antt =====
-- The certificates of eth/pbft-core_basic.go: how far a request has come in one node, and what the
-- votes in the commits amount to. `removeOldConMsg` is of eth/worker.go.
--
-- `certStore` holds pointers; a handler that has one reads and writes the entry of its key.
pub mod Voters
pub mod Txs
pub mod Votes
pub mod Overlap
pub mod Removal
pub mod Ballots
pub mod Counted
use pbft_block.Common.{
  ℕ, ◌+◌, Bool, true, false, not, ◌&&◌, ◌||◌, Option, none, some, List, [], ◌∷◌, ◌++◌, Map, ltb,
  leb, eqb, if◌then◌else◌, ◌==◌, nat_eq, bytes_eq, mem, lookup, insert, retain, has, count_if,
}
use pbft_block.Text.{Str}
use pbft_block.Msg.{PrePrepare, Prepare, Commit, Request, MsgId, msg_id_eq, MsgCert}
use pbft_block.Worker.{Worker, Error, cert_is_nil, no_consensus_txs, get_quorum}

-- `&msgCert{}`
abbrev pub empty_cert : MsgCert
empty_cert = record {
  pre_prepare = none;
  sent_prepare = false;
  prepare = [];
  sent_commit = false;
  commit = [];
  is_prepre = false;
  is_pre = false;
  is_comitt = false;
}

abbrev pub msg_id : ℕ → ℕ → MsgId
msg_id view req_id = record { v = view; n = req_id }

-- The certificate of a key, as a pointer to it shows it.
unfoldable pub cert_at : MsgId → Worker → MsgCert
cert_at id w = elim (lookup id w.cert_store) [ none ↦ empty_cert | some cert ↦ cert ]

-- A write through the pointer.
unfoldable pub set_cert : MsgId → MsgCert → Worker → Worker
set_cert id cert w = record w { cert_store = insert id cert w.cert_store }

-- Makes the entry if there is none; the certificate is then `cert_at`.
unfoldable pub get_cert : MsgId → Worker → Worker
unfolding set_cert
get_cert id w = elim (lookup id w.cert_store) [ none ↦ set_cert id empty_cert w | some cert ↦ w ]

unfoldable pub put_pre_prepare_in_cert : ℕ → ℕ → PrePrepare → Worker → Worker
put_pre_prepare_in_cert view req_id preprep w =
    let w' = get_cert (msg_id view req_id) w in
    let cert = cert_at (msg_id view req_id) w' in
    set_cert (msg_id view req_id) (record cert { pre_prepare = some preprep }) w'

abbrev pub fits_pre_prepare : Str → MsgId → PrePrepare → Bool
fits_pre_prepare digest id p = p.view == id.v && p.req_id == id.n && p.request_digest == digest

abbrev pub fits_prepare : Str → MsgId → Prepare → Bool
fits_prepare digest id p = p.view == id.v && p.req_id == id.n && p.request_digest == digest

-- `p != nil && …` on the stored pre-prepare.
abbrev pub stored_fits : Str → MsgId → Option PrePrepare → Bool
stored_fits digest id none = false
stored_fits digest id (some p) = fits_pre_prepare digest id p

unfoldable pub pre_prepared : Str → MsgId → Worker → Bool
pre_prepared digest id w =
    if not (digest == []) && not (has digest w.req_store)
    then false
    else elim (lookup id w.cert_store) [
      | none ↦ false
      | some cert ↦ stored_fits digest id cert.pre_prepare
    ]

unfoldable pub prepared : Str → MsgId → Worker → Bool
prepared digest id w =
    if not (pre_prepared digest id w) then false else elim (lookup id w.cert_store) [
      | none ↦ false
      | some cert ↦ leb (get_quorum w.n) (count_if (fits_prepare digest id) cert.prepare)
    ]

-- The commits of the view and the number, from senders that are not in `seen`, each sender once.
-- The digest of a commit is not compared.
unfoldable pub commit_quorum : MsgId → List Str → List Commit → ℕ
commit_quorum id seen [] = 0
commit_quorum id seen (p ∷ cs) =
    let fresh = p.view == id.v && p.req_id == id.n && not (mem p.sender seen) in
    (if fresh then 1 else 0) + commit_quorum id (if fresh then p.sender ∷ seen else seen) cs

unfoldable pub committed : Str → MsgId → Worker → Bool
committed digest id w =
    if not (prepared digest id w) then false else elim (lookup id w.cert_store) [
      | none ↦ false
      | some cert ↦ leb (get_quorum w.n) (commit_quorum id [] cert.commit)
    ]

-- What `GetValidResFromCommit` counts.
pub record Tally : Type 0 where
  pub poss : ℕ
  pub neg : ℕ
  pub all : ℕ

abbrev pub add_vote : Bool → Tally → Tally
add_vote opinion t = record {
  poss = (if opinion then 1 else 0) + t.poss;
  neg = (if opinion then 0 else 1) + t.neg;
  all = 1 + t.all;
}

-- One vote for each sender that is not in `seen`, its first.
unfoldable pub tally : List Str → List Commit → Tally
tally seen [] = record { poss = 0; neg = 0; all = 0 }
tally seen (c ∷ cs) =
    let rest = tally (if mem c.sender seen then seen else c.sender ∷ seen) cs in
    if mem c.sender seen then rest else add_vote c.vr.opinion rest

pub data VotesRes : Type 0 where
  possitive future_possitive negative : VotesRes

-- `poss + future >= quorum` is on signed numbers, `future` being N - all; both sides have `all` added.
votes_res : ℕ → Tally → VotesRes
votes_res n t =
    if leb (get_quorum n) t.poss
    then possitive
    else if leb (get_quorum n + t.all) (t.poss + n)
    then future_possitive
    else negative

unfoldable pub get_valid_res_from_commit : ℕ → MsgCert → VotesRes
unfolding votes_res
get_valid_res_from_commit n cert = votes_res n (tally [] cert.commit)

-- `txExeCounts`: how many matching prepares give each sequence that is not empty.
unfoldable pub tx_exe_counts : Str → MsgId → Map Str ℕ → List Prepare → Map Str ℕ
tx_exe_counts digest id counts [] = counts
tx_exe_counts digest id counts (p ∷ ps) =
    tx_exe_counts digest id
      (if fits_prepare digest id p && not (p.txs_exe_seqs == [])
        then insert p.txs_exe_seqs
            ((elim (lookup p.txs_exe_seqs counts) [ none ↦ 0 | some c ↦ c ]) + 1) counts
        else counts)
      ps

-- The largest count with its sequence. Go's order over a map is open; this is the map's own.
unfoldable pub best : ℕ → Str → Map Str ℕ → Str × ℕ
best count exe [] = (exe, count)
best count exe ((seq, c) ∷ m) =
    best (if ltb count c then c else count) (if ltb count c then seq else exe) m

pub data TxExes : Type 0 where
  exes : Str → TxExes
  err : Error → TxExes

unfoldable pub get_consensus_tx_exes : Str → MsgId → Worker → TxExes
unfolding best
get_consensus_tx_exes digest id w = elim (lookup id w.cert_store) [
  | none ↦ err cert_is_nil
  | some cert ↦
      let b = best 0 [] (tx_exe_counts digest id [] cert.prepare) in
      if leb (get_quorum w.n) b.1 then exes b.0 else err no_consensus_txs
]

-- The certificates and the requests up to a number.
unfoldable pub remove_old_con_msg : ℕ → Worker → Worker
remove_old_con_msg req_id w = record w {
  cert_store = retain (λ id cert. ltb req_id id.n) w.cert_store;
  req_store = retain (λ digest (req : Request). ltb req_id req.req_id) w.req_store;
}

-- `ResetConsensusData`
unfoldable pub reset_consensus_data : Worker → Worker
reset_consensus_data w = record w { cert_store = []; req_store = [] }

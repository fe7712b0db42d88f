-- ===== src/Cert/Ballots.antt =====
-- What of a commit counts in `committed` and `GetValidResFromCommit` of eth/pbft-core_basic.go: not
-- the height, nor the hash of the block, nor the digest.
use pbft_block.Common.{
  ℕ, ◌≡◌, refl, Bool, some, List, [], ◌∷◌, lookup, lookup-insert, arith, bytes_eq, nat_eq,
}
use pbft_block.Text.{Str}
use pbft_block.Msg.{Commit, MsgId, MsgCert, msg_id_eq, msg_id_beq_iff}
use pbft_block.Worker.{Worker}
use pbft_block.Cert.{
  commit_quorum, committed, prepared, pre_prepared, tally, get_valid_res_from_commit, set_cert,
}

pub record Ballot : Type 0 where
  pub view : ℕ
  pub req_id : ℕ
  pub sender : Str
  pub opinion : Bool

-- What a commit says of the vote.
abbrev pub ballot : Commit → Ballot
ballot c = record { view = c.view; req_id = c.req_id; sender = c.sender; opinion = c.vr.opinion }

abbrev pub SameBallots : List Commit → List Commit → Type 0
SameBallots [] [] = Unit
SameBallots (c ∷ cs) (d ∷ ds) = (ballot c ≡ ballot d) × SameBallots cs ds
SameBallots _ _ = ⊥

commit_quorum-ballots :
    (id : MsgId) (seen : List Str) (cs ds : List Commit)
    → SameBallots cs ds
    → commit_quorum id seen cs ≡ commit_quorum id seen ds
unfolding commit_quorum
commit_quorum-ballots id seen [] [] same = refl
commit_quorum-ballots id seen [] (d ∷ ds) same = absurd same
commit_quorum-ballots id seen (c ∷ cs) [] same = absurd same
commit_quorum-ballots id seen (c ∷ cs) (d ∷ ds) same = ground (
  arith,
  same.0,
  commit_quorum-ballots id (c.sender ∷ seen) cs ds same.1,
  commit_quorum-ballots id seen cs ds same.1,
)

tally-ballots :
    (seen : List Str) (cs ds : List Commit) → SameBallots cs ds → tally seen cs ≡ tally seen ds
unfolding tally
tally-ballots seen [] [] same = refl
tally-ballots seen [] (d ∷ ds) same = absurd same
tally-ballots seen (c ∷ cs) [] same = absurd same
tally-ballots seen (c ∷ cs) (d ∷ ds) same =
    ground
      (arith, same.0, tally-ballots (c.sender ∷ seen) cs ds same.1, tally-ballots seen cs ds same.1)

prepared-set_cert :
    (digest : Str) (id : MsgId) (w : Worker) (cert : MsgCert) (ds : List Commit)
    → lookup id w.cert_store ≡ some cert
    → prepared digest id (set_cert id (record cert { commit = ds }) w) ≡ prepared digest id w
unfolding prepared pre_prepared set_cert
prepared-set_cert digest id w cert ds there = ground (
  arith,
  there,
  lookup-insert id id (record cert { commit = ds }) w.cert_store,
  msg_id_beq_iff id id,
)

-- Let the commits of a certificate be replaced by as many others that agree with them, one by one, in
-- the view, the number, the sender and the opinion, whatever heights, hashes and digests they name.
-- Then the request is committed as before, and the votes come to the same for any size of the network.
pub committed-ballots :
    (digest : Str) (id : MsgId) (w : Worker) (cert : MsgCert) (ds : List Commit) (n : ℕ)
    → lookup id w.cert_store ≡ some cert
    → SameBallots cert.commit ds
    → (committed digest id (set_cert id (record cert { commit = ds }) w) ≡ committed digest id w)
      × (get_valid_res_from_commit n (record cert { commit = ds })
          ≡ get_valid_res_from_commit n cert)
unfolding committed get_valid_res_from_commit
committed-ballots digest id w cert ds n there same = (
  unfold set_cert in
      ground (
        arith,
        there,
        lookup-insert id id (record cert { commit = ds }) w.cert_store,
        msg_id_beq_iff id id,
        prepared-set_cert digest id w cert ds there,
        commit_quorum-ballots id [] cert.commit ds same,
      ),
  ground (arith, tally-ballots [] cert.commit ds same),
)

-- ===== src/Cert/Votes.antt =====
-- What the three answers of `GetValidResFromCommit` (eth/pbft-core_basic.go) say about the votes that
-- are still to come.
use pbft_block.Common.{ℕ, ◌+◌, ◌≤◌, ◌≡◌, ◌≢◌, List, [], ◌∷◌, ◌++◌, bytes_eq, arith}
use pbft_block.Text.{Str}
use pbft_block.Msg.{Commit, MsgCert}
use pbft_block.Worker.{get_quorum}
use pbft_block.Cert.{tally, votes_res, get_valid_res_from_commit, possitive, negative}

tally_total :
    (seen : List Str) (cs : List Commit)
    → (tally seen cs).poss + (tally seen cs).neg ≡ (tally seen cs).all
unfolding tally
tally_total seen [] = omega arith
tally_total seen (c ∷ cs) = ground (arith, tally_total (c.sender ∷ seen) cs, tally_total seen cs)

-- More commits only add votes.
tally-append :
    (seen : List Str) (cs ds : List Commit)
    → ((tally seen cs).poss ≤ (tally seen (cs ++ ds)).poss)
      × ((tally seen cs).neg ≤ (tally seen (cs ++ ds)).neg)
unfolding tally
tally-append seen [] ds = omega arith
tally-append seen (c ∷ cs) ds =
    ground (arith, tally-append (c.sender ∷ seen) cs ds, tally-append seen cs ds)

abbrev pub with_commits : MsgCert → List Commit → MsgCert
with_commits cert ds = record cert { commit = cert.commit ++ ds }

-- What the tallies before and after satisfy.
grown :
    (cert : MsgCert) (ds : List Commit)
    → let t = tally [] cert.commit in
      let u = tally [] (cert.commit ++ ds) in
      (t.poss + t.neg ≡ t.all) × (u.poss + u.neg ≡ u.all) × (t.poss ≤ u.poss) × (t.neg ≤ u.neg)
grown cert ds =
    let (poss, neg) = tally-append [] cert.commit ds in
    (tally_total [] cert.commit, tally_total [] (cert.commit ++ ds), poss, neg)

-- Once the votes are negative they do not become positive, whatever commits still come in from
-- senders that make no more than `n` in all.
pub negative_stays :
    (n : ℕ) (cert : MsgCert) (ds : List Commit)
    → (tally [] (cert.commit ++ ds)).all ≤ n
    → get_valid_res_from_commit n cert ≡ negative
    → get_valid_res_from_commit n (with_commits cert ds) ≢ possitive
unfolding get_valid_res_from_commit votes_res
negative_stays n cert ds h e = ground (arith, grown cert ds)

-- Once the votes are positive they stay so, whatever commits still come in.
pub possitive_stays :
    (n : ℕ) (cert : MsgCert) (ds : List Commit)
    → get_valid_res_from_commit n cert ≡ possitive
    → get_valid_res_from_commit n (with_commits cert ds) ≡ possitive
unfolding get_valid_res_from_commit votes_res
possitive_stays n cert ds e = ground (arith, grown cert ds)

-- Votes that are not negative become positive if the commits that come in complete the number of
-- `n` senders and none of the new votes is against.
pub future_attained :
    (n : ℕ) (cert : MsgCert) (ds : List Commit)
    → get_valid_res_from_commit n cert ≢ negative
    → (tally [] (cert.commit ++ ds)).all ≡ n
    → (tally [] (cert.commit ++ ds)).neg ≡ (tally [] cert.commit).neg
    → get_valid_res_from_commit n (with_commits cert ds) ≡ possitive
unfolding get_valid_res_from_commit votes_res
future_attained n cert ds e all_in none_against = ground (arith, grown cert ds)

pub possitive_votes :
    (n : ℕ) (cert : MsgCert)
    → get_valid_res_from_commit n cert ≡ possitive
    → get_quorum n ≤ (tally [] cert.commit).poss
unfolding get_valid_res_from_commit votes_res
possitive_votes n cert h = ground arith

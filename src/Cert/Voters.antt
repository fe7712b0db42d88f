-- ===== src/Cert/Voters.antt =====
-- What `committed` of eth/pbft-core_basic.go decides: whether a quorum of different senders has
-- committed in the view and number.
use pbft_block.Common.{
  ◌≤◌, ◌≡◌, refl, ◌↔◌, Bool, true, false, not, ◌&&◌, ◌||◌, some, List, [], ◌∷◌, if◌then◌else◌, ◌==◌,
  nat_eq, bytes_eq, bytes_beq_iff, mem, Distinct, length, length-le_of_Subset, lookup, any, arith,
  inl, inr, Option-cases,
}
use pbft_block.Text.{Str}
use pbft_block.Msg.{Commit, MsgId, msg_id_eq, MsgCert}
use pbft_block.Worker.{Worker, get_quorum}
use pbft_block.Cert.{cert_at, commit_quorum, prepared, committed}

-- Some commit of the view and number is from `s`.
abbrev pub has_voted : MsgId → List Commit → Str → Bool
has_voted id cs s = any (λ (p : Commit). p.view == id.v && p.req_id == id.n && p.sender == s) cs

-- The senders that the loop counts.
voters : MsgId → List Str → List Commit → List Str
voters id seen [] = []
voters id seen (p ∷ cs) =
    let fresh = p.view == id.v && p.req_id == id.n && not (mem p.sender seen) in
    let rest = voters id (if fresh then p.sender ∷ seen else seen) cs in
    if fresh then p.sender ∷ rest else rest

length-voters :
    (id : MsgId) (seen : List Str) (cs : List Commit)
    → length (voters id seen cs) ≡ commit_quorum id seen cs
unfolding voters commit_quorum
length-voters id seen [] = refl
length-voters id seen (p ∷ cs) =
    ground (arith, length-voters id (p.sender ∷ seen) cs, length-voters id seen cs)

voters_unseen :
    (id : MsgId) (seen : List Str) (cs : List Commit) (s : Str)
    → mem s (voters id seen cs) ≡ true
    → (mem s seen ≡ false) × (has_voted id cs s ≡ true)
unfolding voters mem
voters_unseen id seen [] s h = ground arith
voters_unseen id seen (p ∷ cs) s h = ground (
  arith,
  bytes_beq_iff p.sender s,
  voters_unseen id (p.sender ∷ seen) cs s,
  voters_unseen id seen cs s,
)

voters-Distinct : (id : MsgId) (seen : List Str) (cs : List Commit) → Distinct (voters id seen cs)
unfolding voters mem
voters-Distinct id seen [] = tt
voters-Distinct id seen (p ∷ cs) = ground (
  arith,
  bytes_beq_iff p.sender p.sender,
  voters_unseen id (p.sender ∷ seen) cs p.sender,
  voters-Distinct id (p.sender ∷ seen) cs,
  voters-Distinct id seen cs,
)

has_voted-voters :
    (id : MsgId) (seen : List Str) (cs : List Commit) (s : Str)
    → has_voted id cs s ≡ true
    → (mem s seen || mem s (voters id seen cs)) ≡ true
unfolding voters mem
has_voted-voters id seen [] s h = ground arith
has_voted-voters id seen (p ∷ cs) s h = ground (
  arith,
  bytes_beq_iff p.sender s,
  has_voted-voters id (p.sender ∷ seen) cs s,
  has_voted-voters id seen cs s,
)

-- A set of voters of a certificate that is a quorum.
pub record Quorum (w : Worker) (id : MsgId) : Type 0 where
  pub members : List Str
  pub different : Distinct members
  pub enough : get_quorum w.n ≤ length members
  pub voted : (s : Str) → mem s members ≡ true → has_voted id (cert_at id w).commit s ≡ true

Quorum-counted :
    (w : Worker) (id : MsgId)
    → Quorum w id
    → get_quorum w.n ≤ commit_quorum id [] (cert_at id w).commit
unfolding mem
Quorum-counted w id q = omega (
  arith,
  length-voters id [] (cert_at id w).commit,
  length-le_of_Subset q.members (voters id [] (cert_at id w).commit) q.different
      (λ s h. ground (arith, has_voted-voters id [] (cert_at id w).commit s (q.voted s h))),
  q.enough,
)

counted-Quorum :
    (w : Worker) (id : MsgId)
    → get_quorum w.n ≤ commit_quorum id [] (cert_at id w).commit
    → Quorum w id
counted-Quorum w id h = record {
  members = voters id [] (cert_at id w).commit;
  different = voters-Distinct id [] (cert_at id w).commit;
  enough = omega (arith, length-voters id [] (cert_at id w).commit);
  voted = λ s m. (voters_unseen id [] (cert_at id w).commit s m).1;
}

pub prepared_cert :
    (digest : Str) (w : Worker) (id : MsgId)
    → prepared digest id w ≡ true
    → (c : MsgCert) × (lookup id w.cert_store ≡ some c)
unfolding prepared
prepared_cert digest w id h = elim (Option-cases (lookup id w.cert_store)) [
  | inl e ↦ ground arith
  | inr f ↦ f
]

-- A request is committed exactly when it is prepared and some set of different senders, as large as
-- the quorum, has a commit in the certificate for this view and number.
pub committed_iff :
    (digest : Str) (id : MsgId) (w : Worker)
    → (committed digest id w ≡ true) ↔ ((prepared digest id w ≡ true) × Quorum w id)
unfolding committed cert_at
committed_iff digest id w = (
  λ h. (ground arith, counted-Quorum w id (ground arith)),
  λ h. let (c, e) = prepared_cert digest w id h.0 in ground (arith, Quorum-counted w id h.1),
)

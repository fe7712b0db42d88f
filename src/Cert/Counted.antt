-- ===== src/Cert/Counted.antt =====
-- Certificates of eth/pbft-core_basic.go in which every commit counts: of the view and number of the
-- certificate, each from another sender.
use pbft_block.Common.{
  ◌≡◌, refl, Bool, true, false, any, ◌||◌, List, [], ◌∷◌, ◌++◌, arith, length, mem, ◌==◌, bytes_eq,
  bytes_beq_iff, nat_eq,
}
use pbft_block.Text.{Str}
use pbft_block.Msg.{Commit, MsgId}
use pbft_block.Cert.{commit_quorum, tally}

-- Some commit is from the sender.
abbrev sent_by : Str → List Commit → Bool
sent_by s cs = any (λ (c : Commit). c.sender == s) cs

-- Commits of one view and number, no two of one sender.
abbrev pub Certified : MsgId → List Commit → Type 0
Certified id [] = Unit
Certified id (c ∷ cs) =
    (c.view ≡ id.v) × (c.req_id ≡ id.n) × (sent_by c.sender cs ≡ false) × Certified id cs

sent_by-append :
    (s : Str) (cs : List Commit) (c : Commit)
    → sent_by s (cs ++ c ∷ []) ≡ (sent_by s cs || c.sender == s)
sent_by-append s [] c = ground arith
sent_by-append s (d ∷ cs) c = ground (arith, sent_by-append s cs c)

pub Certified-append :
    (id : MsgId) (cs : List Commit) (c : Commit)
    → Certified id cs
    → c.view ≡ id.v
    → c.req_id ≡ id.n
    → sent_by c.sender cs ≡ false
    → Certified id (cs ++ c ∷ [])
Certified-append id [] c h v n fresh = (v, n, refl, tt)
Certified-append id (d ∷ cs) c h v n fresh = ground (
  arith,
  sent_by-append d.sender cs c,
  bytes_beq_iff d.sender c.sender,
  bytes_beq_iff c.sender d.sender,
  Certified-append id cs c h.3 v n,
  h,
)

-- All of the commits count.
pub commit_quorum-length :
    (id : MsgId) (seen : List Str) (cs : List Commit)
    → Certified id cs
    → ((s : Str) → sent_by s cs ≡ true → mem s seen ≡ false)
    → commit_quorum id seen cs ≡ length cs
unfolding commit_quorum mem
commit_quorum-length id seen [] h new = refl
commit_quorum-length id seen (c ∷ cs) h new = ground (
  arith,
  h,
  new c.sender,
  bytes_beq_iff c.sender c.sender,
  commit_quorum-length id (c.sender ∷ seen) cs h.3
      (λ s e. ground (arith, new s, e, h.2, bytes_beq_iff c.sender s)),
)

pub tally-length :
    (id : MsgId) (seen : List Str) (cs : List Commit)
    → Certified id cs
    → ((s : Str) → sent_by s cs ≡ true → mem s seen ≡ false)
    → (tally seen cs).all ≡ length cs
unfolding tally mem
tally-length id seen [] h new = refl
tally-length id seen (c ∷ cs) h new = ground (
  arith,
  h,
  new c.sender,
  bytes_beq_iff c.sender c.sender,
  tally-length id (c.sender ∷ seen) cs h.3
      (λ s e. ground (arith, new s, e, h.2, bytes_beq_iff c.sender s)),
)

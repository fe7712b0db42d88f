-- ===== src/Node/Prepares/Outgoing.antt =====
-- The commits that go out with `RecvPrepare` of eth/pbft-core.go.
use pbft_block.Common.{
  ℕ, ◌≡◌, ◌≢◌, ◌⊎◌, refl, Bool, true, false, not, ◌&&◌, some, List, [], ◌∷◌, ◌++◌, arith, sym,
  Option-cases, inl, inr, has, leb, if◌then◌else◌, Bool-cases, nat_eq, subst,
}
use pbft_block.Msg.{
  Block, Request, Prepare, Commit, Payload, pbft_commit, msg_id_eq, Effect, go_commit, post,
  forward,
}
use pbft_block.Worker.{Worker, Run, and_then, in_v, get_request_from_store}
use pbft_block.Cert.{msg_id, cert_at, get_cert, set_cert, prepared}
use pbft_block.Handlers.Transfer.{send_con_msg_transfer2}
use pbft_block.Handlers.Prepare.{
  recv_prepare, find_request, count_prepare, reach_prepared, judge_block, send_commit, add_prepare,
  commit_of, prepared_by, opinion_on, block_of,
}

-- The commits that go out with the effects: those that are broadcast, passed on for another node, or
-- handed to the node itself.
abbrev commit_in : Payload → List Commit
commit_in (pbft_commit c) = c ∷ []
commit_in _ = []

abbrev commits_with : Effect → List Commit
commits_with (post m) = commit_in m.msg
commits_with (forward m) = commit_in m.msg
commits_with (go_commit c) = c ∷ []
commits_with _ = []

abbrev pub commits_out : List Effect → List Commit
commits_out [] = []
commits_out (e ∷ es) = commits_with e ++ commits_out es

commits_out-append :
    (es fs : List Effect) → commits_out fs ≡ [] → commits_out (es ++ fs) ≡ commits_out es
commits_out-append [] fs e = e
commits_out-append (x ∷ es) fs e = ground (arith, commits_out-append es fs e)

transfer2_own :
    (now : ℕ) (p : Prepare) (w : Worker) → commits_out (send_con_msg_transfer2 now p w) ≡ []
unfolding send_con_msg_transfer2
transfer2_own now p w = ground arith

-- The node as it is when the handler has counted the prepare.
abbrev pub counted : Prepare → Worker → Worker
counted p w = add_prepare p (get_cert (msg_id p.view p.req_id) w)

-- What goes into a commit: the request, its block, and the opinion.
pub record Vote (now : ℕ) (p : Prepare) (w : Worker) (c : Commit) : Type 0 where
  pub req : Request
  pub block : Block
  pub requested : get_request_from_store p.request_digest w ≡ some req
  pub found : block_of req w ≡ some block
  pub made : c ≡ commit_of now p req (opinion_on block p w) w
  pub ready : prepared p.request_digest (msg_id p.view p.req_id) w ≡ true

Votes : ℕ → Prepare → Worker → List Commit → Type 0
Votes now p w cs = (cs ≡ []) ⊎ ((c : Commit) × (cs ≡ c ∷ c ∷ []) × Vote now p w c)

module _ (now : ℕ) (p : Prepare) where
  reach_prepared-Votes :
      (req : Request) (w : Worker)
      → get_request_from_store p.request_digest w ≡ some req
      → prepared p.request_digest (msg_id p.view p.req_id) w ≡ true
      → Votes now p w (commits_out (reach_prepared now p req w).effects)
  unfolding Votes reach_prepared judge_block send_commit
  reach_prepared-Votes req w known ready =
      elim (Bool-cases (leb req.block_height w.current_block)) [
        | inl e ↦ rw e (inl refl)
        | inr e ↦ rw e (elim (Option-cases (block_of req w)) [
          | inl n ↦ rw n (inl refl)
          | inr (b, f) ↦ rw f (elim (Bool-cases (has req.block_height w.commit_store)) [
            | inl h ↦ rw h (inl refl)
            | inr h ↦ rw h (
                inr (
                  commit_of now p req (opinion_on b p w) w,
                  refl,
                  record {
                    req = req;
                    block = b;
                    requested = known;
                    found = f;
                    made = refl;
                    ready = ready;
                  },
                ))
          ])
        ])
      ]

  count_prepare-Votes :
      (req : Request) (rest : List Effect) (w : Worker)
      → get_request_from_store p.request_digest w ≡ some req
      → commits_out rest ≡ []
      → Votes now p (add_prepare p w) (commits_out (count_prepare now p req rest w).effects)
  unfolding count_prepare
  count_prepare-Votes req rest w known quiet =
      let id = msg_id p.view p.req_id in
      let w' = add_prepare p w in
      elim (Bool-cases (prepared p.request_digest id w && (cert_at id w).sent_commit)) [
        | inl e ↦ rw e (unfold Votes in inl refl)
        | inr e ↦
            rw e
              (elim (Bool-cases
                (prepared p.request_digest id w' && not (cert_at id w').sent_commit)) [
                  | inl f ↦ rw f (
                      and_then_votes (reach_prepared now p req w') (
                        reach_prepared-Votes req w'
                          (unfold add_prepare set_cert get_request_from_store in known)
                          (ground arith)))
                  | inr f ↦ rw f (unfold Votes in inl quiet)
                ])
      ]
    where
      and_then_votes :
          (r : Run)
          → Votes now p (add_prepare p w) (commits_out r.effects)
          → Votes now p (add_prepare p w) (commits_out (and_then r rest).effects)
      and_then_votes r v = subst (Votes now p (add_prepare p w)) (sym (same r)) v
        where
          same : (r : Run) → commits_out (and_then r rest).effects ≡ commits_out r.effects
          same r = ground (arith, commits_out-append r.effects rest quiet)

  none_out : (w : Worker) → Votes now p w []
  unfolding Votes
  none_out w = inl refl

  find_request-Votes :
      (rest : List Effect) (w : Worker)
      → commits_out rest ≡ []
      → Votes now p (add_prepare p w) (
          commits_out
            (find_request now p (get_request_from_store p.request_digest w) rest w).effects)
  unfolding find_request
  find_request-Votes rest w quiet =
      elim (Option-cases (get_request_from_store p.request_digest w)) [
        | inl n ↦ rw n (none_out _)
        | inr (req, known) ↦ rw known (elim (Bool-cases (leb req.block_height w.current_block)) [
          | inl e ↦ rw e (none_out _)
          | inr e ↦ rw e (elim (Bool-cases (has req.block_height w.commit_store)) [
            | inl h ↦ rw h (none_out _)
            | inr h ↦ rw h (count_prepare-Votes req rest w known quiet)
          ])
        ])
      ]

  either_way :
      (b : Bool) (x y : Run) (w : Worker)
      → Votes now p w (commits_out x.effects)
      → Votes now p w (commits_out y.effects)
      → Votes now p w (commits_out (if b then x else y).effects)
  either_way true x y w u v = u
  either_way false x y w u v = v

  recv_prepare-Votes :
      (w : Worker) → Votes now p (counted p w) (commits_out (recv_prepare now p w).effects)
  unfolding recv_prepare
  recv_prepare-Votes w =
      let w' = get_cert (msg_id p.view p.req_id) w in
      either_way (not (in_v p.view w)) _ _ _ (none_out _) (
        either_way (not w.ready) _ _ _ (none_out _) (
          either_way (prepared_by p.sender (cert_at (msg_id p.view p.req_id) w').prepare) _ _ _
            (none_out _)
            (find_request-Votes (send_con_msg_transfer2 now p w') w' (transfer2_own now p w'))))

one_of_none : (c : Commit) (before later cs : List Commit) → cs ≡ before ++ c ∷ later → cs ≢ []
one_of_none c [] later cs e f = ground arith
one_of_none c (x ∷ before) later cs e f = ground arith

-- One of the two equal commits of a list.
one_of_two :
    (c d : Commit) (before later cs : List Commit)
    → cs ≡ before ++ c ∷ later
    → cs ≡ d ∷ d ∷ []
    → c ≡ d
one_of_two c d [] later cs e f = ground arith
one_of_two c d (x ∷ []) later cs e f = ground arith
one_of_two c d (x ∷ y ∷ before) later cs e f =
    ground (arith, one_of_none c before later (before ++ c ∷ later) refl)

pub counted-node_id : (p : Prepare) (w : Worker) → (counted p w).node_id ≡ w.node_id
unfolding add_prepare get_cert set_cert
counted-node_id p w = ground arith

-- A commit that is among what goes out with the handler of a prepare goes out twice, in a broadcast
-- and to the node itself, and is the only one.
pub sent_twice :
    (now : ℕ) (p : Prepare) (w : Worker) (c : Commit) (before later : List Commit)
    → commits_out (recv_prepare now p w).effects ≡ before ++ c ∷ later
    → (commits_out (recv_prepare now p w).effects ≡ c ∷ c ∷ []) × Vote now p (counted p w) c
unfolding Votes
sent_twice now p w c before later e = elim (recv_prepare-Votes now p w) [
  | inl none_sent ↦ elim (one_of_none c before later _ e none_sent) [ ]
  | inr (d, two, v) ↦
      subst
        (λ x.
          (commits_out (recv_prepare now p w).effects ≡ x ∷ x ∷ []) × Vote now p (counted p w) x)
        (sym (one_of_two c d before later _ e two)) (two, v)
]

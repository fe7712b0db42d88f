-- ===== src/Node/Careful.antt =====
-- How often a node commits itself to a block height: `commitStore` of eth/pbft-core.go.
use pbft_block.Common.{
  ℕ, ◌≤◌, ◌<◌, ◌≡◌, refl, ◌⊎◌, inl, true, false, List, [], ◌∷◌, ◌++◌, arith, has, nat_eq, sym,
}
use mathlib.Core.List.{append_assoc, append-nil}
use pbft_block.Msg.{Payload, pbft_commit, Effect, post}
use pbft_block.Worker.{Worker, Run, and_then}

-- The heights of the commits that are posted.
abbrev payload_height : Payload → List ℕ
payload_height (pbft_commit c) = c.vr.block_height ∷ []
payload_height _ = []

abbrev effect_height : Effect → List ℕ
effect_height (post m) = payload_height m.msg
effect_height _ = []

abbrev pub commit_heights : List Effect → List ℕ
commit_heights [] = []
commit_heights (e ∷ es) = effect_height e ++ commit_heights es

-- The node will not commit itself to the height any more.
abbrev pub Spent : ℕ → Worker → Type 0
Spent h w = (has h w.commit_store ≡ true) ⊎ (h ≤ w.current_block)

-- What a handler does about commits: it posts none, or one for a height that was open.
pub record Careful (w : Worker) (r : Run) : Type 0 where
  pub height : w.current_block ≤ r.node.current_block
  pub keeps : (h : ℕ) → Spent h w → Spent h r.node
  pub posts :
      (commit_heights r.effects ≡ [])
      ⊎ ((h : ℕ) × (commit_heights r.effects ≡ h ∷ [])
          × (has h w.commit_store ≡ false)
          × (w.current_block < h)
          × Spent h r.node)

-- A handler that returns early, with nothing about commits changed.
pub idle-Careful :
    (w w' : Worker) (r : Run)
    → w'.commit_store ≡ w.commit_store
    → w'.current_block ≡ w.current_block
    → r.node ≡ w'
    → commit_heights r.effects ≡ []
    → Careful w r
idle-Careful w w' r store height e quiet = record {
  height = ground arith;
  keeps = λ h s. ground arith;
  posts = inl quiet;
}

pub Careful-from :
    (w w' : Worker) (r : Run)
    → w'.commit_store ≡ w.commit_store
    → w'.current_block ≡ w.current_block
    → Careful w' r
    → Careful w r
Careful-from w w' r store height c = record {
  height = ground (arith, c.height);
  keeps = λ h s. ground (arith, c.keeps h);
  posts = ground (arith, c.posts);
}

pub commit_heights-append :
    (es fs : List Effect) → commit_heights (es ++ fs) ≡ commit_heights es ++ commit_heights fs
commit_heights-append [] fs = refl
commit_heights-append (e ∷ es) fs =
    rw (commit_heights-append es fs)
      (sym (append_assoc (effect_height e) (commit_heights es) (commit_heights fs)))

and_then-node : (r : Run) (rest : List Effect) → (and_then r rest).node ≡ r.node
and_then-node r rest = ground arith

commit_heights-and_then :
    (r : Run) (rest : List Effect)
    → commit_heights rest ≡ []
    → commit_heights (and_then r rest).effects ≡ commit_heights r.effects
commit_heights-and_then r rest quiet =
    ground (arith, commit_heights-append r.effects rest, append-nil (commit_heights r.effects))

-- More effects at the end that are no commits.
pub and_then-Careful :
    (w : Worker) (r : Run) (rest : List Effect)
    → commit_heights rest ≡ []
    → Careful w r
    → Careful w (and_then r rest)
and_then-Careful w r rest quiet c =
    let heights = commit_heights-and_then r rest quiet in
    record {
      height = rw (and_then-node r rest) c.height;
      keeps = λ h s. rw (and_then-node r rest) (c.keeps h s);
      posts = rw (and_then-node r rest, heights) c.posts;
    }

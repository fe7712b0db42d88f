-- ===== src/Network/Peers/Head.antt =====
-- What a node knows of the chain of a peer: `Head`, `SetHead`, `Info`, `BlockHeight` and
-- `SetBlockHeight` of eth/peer.go. The integers of math/big are a parameter, with their 0.
use pbft_block.Common.{
  ℕ, zero, suc, ◌≡◌, refl, Bool, true, false, Option, none, some, List, [], ◌∷◌, ◌++◌, arith,
}
use pbft_block.Text.{Str, codes}
use pbft_block.Network.Manager.{hex_text}

pub record Standing (Big : Type 0) : Type 0 where
  pub head : List ℕ
  pub td : Option Big
  pub blockheight : ℕ

pub record PeerInfo (Big : Type 0) : Type 0 where
  pub version : ℕ
  pub difficulty : Big
  pub head : Str

abbrev zero_bytes : ℕ → List ℕ
zero_bytes zero = []
zero_bytes (suc n) = 0 ∷ zero_bytes n

-- The two setters, with the integer that may be nil.
pub data Update (Big : Type 0) : Type 0 where
  sets_head : List ℕ → Option Big → Update Big
  sets_block_height : ℕ → Update Big

module _ {Big : Type 0} (zero_big : Big) where
  -- The fields of a peer that newPeer has made.
  abbrev pub no_standing : Standing Big
  no_standing = record { head = zero_bytes 32; td = none; blockheight = 0 }

  abbrev copied : Option Big → Big
  copied none = zero_big
  copied (some d) = d

  unfoldable pub head_of : Standing Big → List ℕ × Big
  head_of s = (s.head, copied s.td)

  unfoldable pub info : ℕ → Standing Big → PeerInfo Big
  unfolding hex_text
  info version s = record {
    version = version;
    difficulty = (head_of s).1;
    head = codes "0x" ++ hex_text (head_of s).0;
  }

-- `td.Set(x)` of math/big: the value after it, and whether it panics. A nil is only set to itself.
abbrev set_big : {Big : Type 0} → Option Big → Option Big → Option Big × Bool
set_big none none = (none, false)
set_big none (some x) = (none, true)
set_big (some d) none = (some d, true)
set_big (some d) (some x) = (some x, false)

-- The peer after it, and whether it panics: the head is copied first.
unfoldable pub set_head : {Big : Type 0} → List ℕ → Option Big → Standing Big → Standing Big × Bool
set_head hash td s = (record s { head = hash; td = (set_big s.td td).0 }, (set_big s.td td).1)

unfoldable pub set_block_height : {Big : Type 0} → ℕ → Standing Big → Standing Big
set_block_height h s = record s { blockheight = h }

unfoldable pub update : {Big : Type 0} → Update Big → Standing Big → Standing Big
update (sets_head hash td) s = (set_head hash td s).0
update (sets_block_height h) s = set_block_height h s

-- Calls in this order, panics recovered.
unfoldable pub updates : {Big : Type 0} → List (Update Big) → Standing Big → Standing Big
updates [] s = s
updates (c ∷ cs) s = updates cs (update c s)

-- The hash of the last call of SetHead.
unfoldable pub last_hash : {Big : Type 0} → List (Update Big) → List ℕ → List ℕ
last_hash [] hash = hash
last_hash (sets_head later td ∷ cs) hash = last_hash cs later
last_hash (sets_block_height h ∷ cs) hash = last_hash cs hash

-- A peer with no difficulty keeps none, and has the last head.
updates-from :
    {Big : Type 0} (cs : List (Update Big)) (s : Standing Big)
    → s.td ≡ none
    → ((updates cs s).td ≡ none) × ((updates cs s).head ≡ last_hash cs s.head)
unfolding updates update set_head set_block_height last_hash
updates-from [] s e = (e, refl)
updates-from (sets_head hash none ∷ cs) s e =
    updates-from cs (update (sets_head hash none) s) (ground (arith, e))
updates-from (sets_head hash (some x) ∷ cs) s e =
    updates-from cs (update (sets_head hash (some x)) s) (ground (arith, e))
updates-from (sets_block_height h ∷ cs) s e = updates-from cs (set_block_height h s) e

-- Whatever has been set of a peer that newPeer has made, Info tells the hash of the last SetHead and
-- the difficulty 0, and a SetHead with a difficulty that is not nil panics.
pub info-updates :
    {Big : Type 0} (zero_big : Big) (version : ℕ) (cs : List (Update Big)) (hash : List ℕ)
    (td : Big)
    → (info zero_big version (updates cs (no_standing zero_big)) ≡ record {
      version = version;
      difficulty = zero_big;
      head = codes "0x" ++ hex_text (last_hash cs (zero_bytes 32));
    })
      × ((set_head hash (some td) (updates cs (no_standing zero_big))).1 ≡ true)
unfolding info head_of set_head
info-updates zero_big version cs hash td =
    let (no_td, known) = updates-from cs (no_standing zero_big) refl in
    (rw (no_td, known) refl, rw (no_td) refl)

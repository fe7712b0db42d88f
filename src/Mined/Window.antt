-- ===== src/Mined/Window.antt =====
-- The ring of mined blocks of eth/worker.go is a window on the numbers that were written to it: it
-- holds the last six of them.
use pbft_block.Common.{
  ℕ, zero, suc, ◌+◌, ◌%◌, ◌≡◌, refl, sym, ap, ◌∙◌, subst, Bool, false, Option, none, some, List, [],
  ◌∷◌, ◌++◌, arith, eqb, ◌||◌, length, length-append,
}
use mathlib.Core.List.{append_assoc, append-nil}
use native.Mathlib.Nat.{mod_self, mod-eq_of_lt}
use pbft_block.Mined.{
  Ring, ring_of, set, zero_ints, new_local_mined_block, take_out, is_block_locally_mined,
}

-- Whether a number is in a list.
unfoldable pub holds : ℕ → List ℕ → Bool
holds n [] = false
holds n (x ∷ xs) = eqb n x || holds n xs

pub holds-append : (n : ℕ) (xs ys : List ℕ) → holds n (xs ++ ys) ≡ (holds n xs || holds n ys)
unfolding holds
holds-append n [] ys = refl
holds-append n (x ∷ xs) ys = ground (arith, holds-append n xs ys)

-- A block is said to be mined here where its number is in the ring.
pub take_out-holds : (n : ℕ) (xs : List ℕ) → (take_out n xs).0 ≡ holds n xs
unfolding take_out holds
take_out-holds n [] = refl
take_out-holds n (x ∷ xs) = ground (arith, take_out-holds n xs)

-- The list less so many elements at its front.
abbrev pub drop : ℕ → List ℕ → List ℕ
drop zero xs = xs
drop (suc n) [] = []
drop (suc n) (x ∷ xs) = drop n xs

-- The numbers of a ring from the oldest to the newest.
record Shows (r : Ring) (window : List ℕ) : Type 0 where
  before : List ℕ
  oldest : ℕ
  after : List ℕ
  ints : r.ints ≡ before ++ oldest ∷ after
  next : r.next ≡ length before
  all : window ≡ oldest ∷ after ++ before

set-at : (xs ys : List ℕ) (y x : ℕ) → set (length xs) x (xs ++ y ∷ ys) ≡ some (xs ++ x ∷ ys)
unfolding set
set-at [] ys y x = refl
set-at (z ∷ xs) ys y x = rw (set-at xs ys y x) refl

-- The ring after a number was written over the oldest one.
abbrev over : List ℕ → List ℕ → ℕ → Ring
over before after x = record {
  ints = before ++ x ∷ after;
  next = (length before + 1) % length (before ++ x ∷ after);
}

wraps : (k n : ℕ) → n ≡ k → (k + 1) % suc n ≡ 0
wraps k n h = subst (λ m. m % suc n ≡ 0) (omega arith) (mod_self (suc n))

over-Shows :
    (before after : List ℕ) (x : ℕ) → Shows (over before after x) ((after ++ before) ++ x ∷ [])
over-Shows [] [] x = record {
  before = [];
  oldest = x;
  after = [];
  ints = refl;
  next = refl;
  all = refl;
}
over-Shows (y ∷ before) [] x = record {
  before = [];
  oldest = y;
  after = before ++ x ∷ [];
  ints = refl;
  next =
      wraps (suc (length before)) (length (before ++ x ∷ []))
        (omega (arith, length-append before (x ∷ [])));
  all = ap (λ zs. y ∷ zs) (sym (append-nil (before ++ x ∷ [])));
}
over-Shows before (y ∷ after) x = record {
  before = before ++ x ∷ [];
  oldest = y;
  after = after;
  ints = sym (append_assoc before (x ∷ []) (y ∷ after));
  next =
      mod-eq_of_lt (omega (arith, length-append before (x ∷ y ∷ after)))
      ∙ sym (length-append before (x ∷ []));
  all = ap (λ zs. y ∷ zs) (append_assoc after before (x ∷ []));
}

new_local_mined_block-over :
    (x : ℕ) (prev : Option Ring) (window : List ℕ) (f : Shows (ring_of prev) window)
    → new_local_mined_block x prev ≡ some (over f.before f.after x)
unfolding new_local_mined_block
new_local_mined_block-over x prev window f =
    rw (new_local_mined_block, f.ints, f.next, set-at f.before f.after f.oldest x)
      (ap
        (λ k. some (record {
          ints = f.before ++ x ∷ f.after;
          next = (k + 1) % length (f.before ++ x ∷ f.after);
        }))
        f.next)

-- The numbers of the blocks that are mined, the first of them with the given ring.
unfoldable pub mine_all : ℕ → List ℕ → Option Ring → Option Ring
mine_all b [] prev = new_local_mined_block b prev
mine_all b (c ∷ cs) prev = elim (new_local_mined_block b prev) [
  | none ↦ none
  | some r ↦ mine_all c cs (some r)
]

record Mines (b : ℕ) (bs : List ℕ) (prev : Option Ring) (window : List ℕ) : Type 0 where
  ring : Ring
  result : mine_all b bs prev ≡ some ring
  shows : Shows ring (drop (suc (length bs)) (window ++ b ∷ bs))

mine_all-Mines :
    (b : ℕ) (bs : List ℕ) (prev : Option Ring) (window : List ℕ)
    → Shows (ring_of prev) window
    → Mines b bs prev window
unfolding mine_all
mine_all-Mines b [] prev window f = record {
  ring = over f.before f.after b;
  result = new_local_mined_block-over b prev window f;
  shows = rw (f.all) (over-Shows f.before f.after b);
}
mine_all-Mines b (c ∷ cs) prev window f =
    let r = over f.before f.after b in
    let rest =
      mine_all-Mines c cs (some r) ((f.after ++ f.before) ++ b ∷ [])
        (over-Shows f.before f.after b) in
    record {
      ring = rest.ring;
      result = rw (mine_all, new_local_mined_block-over b prev window f) rest.result;
      shows = rw (f.all) (
          subst (λ w. Shows rest.ring (drop (suc (length cs)) w))
            (append_assoc (f.after ++ f.before) (b ∷ []) (c ∷ cs)) rest.shows);
    }

holds-around : (n x : ℕ) (xs ys : List ℕ) → holds n (xs ++ x ∷ ys) ≡ holds n (x ∷ ys ++ xs)
unfolding holds
holds-around n x xs ys = ground (arith, holds-append n xs (x ∷ ys), holds-append n ys xs)

-- What a ring says after a list of numbers was written to a new one.
pub record Lately (b : ℕ) (bs : List ℕ) : Type 0 where
  pub ring : Ring
  pub result : mine_all b bs none ≡ some ring
  pub says :
      (n : ℕ)
      → (is_block_locally_mined n ring).0 ≡ holds n (drop (suc (length bs)) (zero_ints 6 ++ b ∷ bs))

zero_ints-Shows : Shows (ring_of none) (zero_ints 6)
zero_ints-Shows = record {
  before = [];
  oldest = 0;
  after = zero_ints 5;
  ints = refl;
  next = refl;
  all = refl;
}

-- Write the numbers of one or more blocks to a new ring, one after the other: no write panics, and a
-- number counts as mined here exactly if it is among the last six elements of the list that is six
-- zero_ints and then the numbers.
pub mine_all-Lately : (b : ℕ) (bs : List ℕ) → Lately b bs
unfolding is_block_locally_mined
mine_all-Lately b bs =
    let m = mine_all-Mines b bs none (zero_ints 6) zero_ints-Shows in
    record {
      ring = m.ring;
      result = m.result;
      says = λ n.
          take_out-holds n m.ring.ints
          ∙ ap (holds n) m.shows.ints
          ∙ holds-around n m.shows.oldest m.shows.before m.shows.after
          ∙ ap (holds n) (sym m.shows.all);
    }

-- ===== src/Mined.antt =====
-- The current work of eth/worker.go and the ring of the numbers of the blocks that the node has mined
-- last (`makeCurrent`, `pending`, `newLocalMinedBlock`, `isBlockLocallyMined`, `logLocalMinedBlocks`).
--
-- A ring is shared by pointer between a work and the one that replaces it; here it goes over by value,
-- since the source never reads it through the older work again.
pub mod Window
pub mod Report
use pbft_block.Common.{
  ℕ, zero, suc, ◌+◌, ◌-◌, ◌%◌, ◌^◌, Bool, true, false, Option, none, some, List, [], ◌∷◌, ltb, eqb,
  if◌then◌else◌, length,
}
use pbft_block.Msg.{Header, Transaction, Receipt, Block}
use pbft_block.Worker.{u64}

-- `miningLogAtDepth`
abbrev pub mining_log_at_depth : ℕ
mining_log_at_depth = 5

-- `uint64RingBuffer`
pub record Ring : Type 0 where
  pub ints : List ℕ
  pub next : ℕ

-- `Work`, less the fields that stay empty.
pub record Work : Type 0 where
  pub tcount : ℕ
  pub local_mined_blocks : Option Ring
  pub block : Option Block
  pub header : Option Header
  pub txs : List (Option Transaction)
  pub receipts : List (Option Receipt)

-- `xs[i] = x`; `none` for a panic.
unfoldable pub set : ℕ → ℕ → List ℕ → Option (List ℕ)
set i x [] = none
set zero x (y ∷ ys) = some (x ∷ ys)
set (suc i) x (y ∷ ys) = elim (set i x ys) [ none ↦ none | some zs ↦ some (y ∷ zs) ]

abbrev pub zero_ints : ℕ → List ℕ
zero_ints zero = []
zero_ints (suc n) = 0 ∷ zero_ints n

abbrev pub ring_of : Option Ring → Ring
ring_of none = record { ints = zero_ints (mining_log_at_depth + 1); next = 0 }
ring_of (some r) = r

-- `none` for a panic.
unfoldable pub new_local_mined_block : ℕ → Option Ring → Option Ring
new_local_mined_block number prev =
    let r = ring_of prev in
    elim (set r.next number r.ints) [
      | none ↦ none
      | some ints ↦ some (record { ints = ints; next = (r.next + 1) % length ints })
    ]

-- The work is a new one, but for the ring.
unfoldable pub make_current : Option Header → Option Work → Work
make_current header current = record {
  tcount = 0;
  local_mined_blocks = elim current [ none ↦ none | some work ↦ work.local_mined_blocks ];
  block = none;
  header = header;
  txs = [];
  receipts = [];
}

-- Where no block is being built, one is put together from the work.
unfoldable pub pending : ℕ → Work → Option Block
pending mining current =
    if eqb mining 0
    then some (record {
      number = 0;
      valid = 0;
      timee = 0;
      header = current.header;
      txs = current.txs;
      uncles = [];
      receipt = current.receipts;
    })
    else current.block

-- The first slot with the number is set to 0.
unfoldable pub take_out : ℕ → List ℕ → Bool × List ℕ
take_out number [] = (false, [])
take_out number (x ∷ xs) =
    let (found, ys) = take_out number xs in if eqb number x then (true, 0 ∷ xs) else (found, x ∷ ys)

-- The block that it looks at after the ring is a variable, which is never nil.
unfoldable pub is_block_locally_mined : ℕ → Ring → Bool × Ring
is_block_locally_mined number r =
    let (found, ints) = take_out number r.ints in (found, record r { ints = ints })

-- The numbers that the loop reports, the ring it leaves, and the number it stops at.
pub record LoggedBlocks : Type 0 where
  pub reported : List ℕ
  pub ring : Ring
  pub at : ℕ

abbrev pub report : Bool → ℕ → LoggedBlocks → LoggedBlocks
report true number c = record c { reported = number ∷ c.reported }
report false number c = c

-- The number that the loop inspects: a uint64 that wraps around.
abbrev pub inspected : ℕ → ℕ
inspected check = u64 (check + (2 ^ 64 - mining_log_at_depth))

-- The loop, for at most so many rounds.
unfoldable pub check_blocks : ℕ → ℕ → ℕ → Ring → LoggedBlocks
check_blocks zero check next r = record { reported = []; ring = r; at = check }
check_blocks (suc fuel) check next r =
    let (found, r') = is_block_locally_mined (inspected check) r in
    let rest = check_blocks fuel (u64 (check + 1)) next r' in
    if ltb check next
    then report found (inspected check) rest
    else record { reported = []; ring = r; at = check }

abbrev logged : Work → LoggedBlocks → List ℕ × Work
logged current c = (c.reported, record current { local_mined_blocks = some c.ring })

-- The numbers that are logged, and the work with its ring; `none` for a panic on a work without a
-- block.
unfoldable pub log_local_mined_blocks : Work → Option Work → Option (List ℕ × Work)
log_local_mined_blocks current none = some ([], current)
log_local_mined_blocks current (some previous) = elim current.local_mined_blocks [
  | none ↦ some ([], current)
  | some r ↦ elim current.block [
    | none ↦ none
    | some next ↦ elim previous.block [
      | none ↦ none
      | some first ↦
          some
            (logged current (check_blocks (next.number - first.number) first.number next.number r))
    ]
  ]
]

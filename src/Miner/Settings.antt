-- ===== src/Miner/Settings.antt =====
-- What reaches the blocks of what eth/miner.go sets.
use pbft_block.Common.{
  ℕ, ◌≤◌, ◌≡◌, refl, ap, ◌∙◌, some, List, [], ◌∷◌, ltb, if◌then◌else◌, length, arith,
}
use pbft_block.Text.{Str}
use pbft_block.Msg.{Block, Header}
use pbft_block.Mining.{new_block}
use pbft_block.Miner.{Miner, set_extra, set_etherbase}

-- What the rest of a node sets.
pub data Call : Type 0 where
  extra_data : Str → Call
  etherbase : Str → Call

unfoldable pub calls : List Call → Miner → Miner
calls [] m = m
calls (extra_data e ∷ cs) m = calls cs (set_extra e m).1
calls (etherbase a ∷ cs) m = calls cs (set_etherbase a m)

-- The last extra data that is short enough, and the last address.
abbrev pub last_extra : List Call → Str → Str
last_extra [] e = e
last_extra (extra_data x ∷ cs) e = last_extra cs (if ltb 32 (length x) then e else x)
last_extra (etherbase a ∷ cs) e = last_extra cs e

abbrev pub last_base : List Call → Str → Str
last_base [] a = a
last_base (extra_data x ∷ cs) a = last_base cs a
last_base (etherbase b ∷ cs) a = last_base cs b

-- A block that is built then.
pub record Carries (cs : List Call) (m : Miner) (b : Block) : Type 0 where
  pub header : Header
  pub held : b.header ≡ some header
  pub extra : header.extra ≡ last_extra cs m.worker.extra
  pub small : length header.extra ≤ 32
  pub coinbase : header.coinbase ≡ last_base cs m.worker.coinbase

set_extra-extra :
    (e : Str) (m : Miner)
    → (set_extra e m).1.worker.extra ≡ (if ltb 32 (length e) then m.worker.extra else e)
unfolding set_extra
set_extra-extra e m = ground arith

set_extra-coinbase : (e : Str) (m : Miner) → (set_extra e m).1.worker.coinbase ≡ m.worker.coinbase
unfolding set_extra
set_extra-coinbase e m = ground arith

-- Let the extra data of a miner have at most 32 bytes, and call SetExtra and SetEtherbase in any order
-- with any values. The block that is built then has a header with the last extra data of the calls
-- that is at most 32 bytes, or the former where none is, and with the last address of the calls; its
-- extra data has at most 32 bytes.
pub calls-Carries :
    (now : ℕ) (cs : List Call) (m : Miner)
    → length m.worker.extra ≤ 32
    → Carries cs m (new_block now (calls cs m).worker)
unfolding calls set_extra set_etherbase new_block
calls-Carries now [] m h = record {
  header = _;
  held = refl;
  extra = refl;
  small = h;
  coinbase = refl;
}
calls-Carries now (extra_data e ∷ cs) m h =
    let m' = (set_extra e m).1 in
    let c = calls-Carries now cs m' (ground (arith, set_extra-extra e m)) in
    record {
      header = c.header;
      held = c.held;
      extra = c.extra ∙ ap (last_extra cs) (set_extra-extra e m);
      small = c.small;
      coinbase = c.coinbase ∙ ap (last_base cs) (set_extra-coinbase e m);
    }
calls-Carries now (etherbase a ∷ cs) m h =
    let c = calls-Carries now cs (set_etherbase a m) h in
    record {
      header = c.header;
      held = c.held;
      extra = c.extra;
      small = c.small;
      coinbase = c.coinbase;
    }

-- ===== src/Mining.antt =====
-- The other side of eth/pbft-core.go: building a block and sending the request for it
-- (`StartConsensus`, `SendRequest`), the expiry of blocks (`expirationLoop`), the resets of
-- eth/worker.go, and the tests and messages of eth/pbft-core_basic.go around them.
pub mod Expiry
pub mod Stall
use pbft_block.Common.{
  ℕ, ◌+◌, ◌-◌, ◌/◌, ◌%◌, ◌^◌, Bool, true, false, not, ◌&&◌, ◌||◌, none, some, List, [], ◌∷◌, ◌++◌,
  Map, leb, ltb, eqb, if◌then◌else◌, has, nat_eq, length,
}
use pbft_block.Text.{Str, codes}
use pbft_block.Text.Hex.{hex_to_address}
use pbft_block.Msg.{
  Header, Block, Request, pbft_request, con_status_request, Effect, go_request, force_sync,
}
use pbft_block.Worker.{
  Worker, Run, done, fail, stop, running, consensus_error, is_leader, cancel_consensus, set_ready,
  set_active_view, reset_commit_store, second, u64,
}
use pbft_block.Pool.{
  hash, put_pvb_and_beats, delete_pvb_and_beats_by_hash, get_bh_by_hash, reset_pvb_and_beats,
}
use pbft_block.Cert.{reset_consensus_data}
use pbft_block.Handlers.Transfer.{broadcast}
use pbft_block.Handlers.Txs.{tx_pool}

-- No block is being built, none is in the pool for the next height, and the node is the leader and
-- ready.
unfoldable pub can_mining : Worker → Bool
can_mining w =
    not (eqb w.mining 1)
    && (not (has (u64 (w.current_block + 1)) w.possible_valid_block) && (is_leader w && w.ready))

unfoldable pub send_request : ℕ → Block → Str → Worker → Run
send_request now block block_byte w =
    let w' = record w { last_req_id = u64 (w.last_req_id + 1) } in
    let req : Request = record {
      req_id = w'.last_req_id;
      sender = w.node_id;
      view = w.view;
      timestamp = now;
      block_height = block.number;
      block_hash = hash block;
      block_creator = hex_to_address w.node_id;
      block = block_byte;
      real_block = some block;
    } in
    if leb block.number w.current_block then stop w' done else record {
      node = w';
      effects = go_request req ∷ broadcast now (pbft_request req) w ∷ [];
      reply = done;
    }

-- `string(n)` of an integer is the UTF-8 text of the code point, or of U+FFFD where it is none.
rune_text : ℕ → Str
rune_text n =
    if ltb n 0x80
    then n ∷ []
    else if ltb n 0x800
    then (0xc0 + n / 64) ∷ (0x80 + n % 64) ∷ []
    else if leb 0xd800 n && leb n 0xdfff || ltb 0x10ffff n
    then 0xef ∷ 0xbf ∷ 0xbd ∷ []
    else if ltb n 0x10000
    then (0xe0 + n / 4096) ∷ (0x80 + n / 64 % 64) ∷ (0x80 + n % 64) ∷ []
    else (0xf0 + n / 262144) ∷ (0x80 + n / 4096 % 64) ∷ (0x80 + n / 64 % 64) ∷ (0x80 + n % 64) ∷ []

-- The block after `currentblock`, with one transaction and one receipt that stand for any.
unfoldable pub new_block : ℕ → Worker → Block
unfolding rune_text
new_block now w = record {
  number = w.static_block.number + 1;
  valid = 0;
  timee = 0;
  header = some header;
  txs = some (record { string = codes "dddd" }) ∷ [];
  uncles = some header ∷ [];
  receipt = some (record { string = codes "receipt" }) ∷ [];
}
  where
    header : Header
    header = record {
      parent_hash = hash w.static_block;
      number = w.static_block.number + 1;
      coinbase = w.coinbase;
      extra = w.extra;
      time = now / second;
      chain_name = w.chain_name;
      root = rune_text (w.static_block.number + 1) ++ hash w.static_block;
    }

-- The bytes of the text that stands for the block.
abbrev pub block_text : Str
block_text = 0xe9 ∷ 0x9a ∷ 0x8f ∷ 0xe4 ∷ 0xbe ∷ 0xbf ∷ []

-- One block is built at a time, until the consensus on it is cancelled.
unfoldable pub build_block : ℕ → Worker → Run
build_block now w = elim w.consensus [
  | running ↦ stop w (fail consensus_error)
  | _ ↦
      let block = new_block now w in
      let w' = record w { consensus = running; mining = 1 } in
      let sent = send_request now block block_text (put_pvb_and_beats now block w') in
      record { node = record (sent.node) { mining = 0 }; effects = sent.effects; reply = done }
]

unfoldable pub start_consensus : ℕ → Worker → Run
unfolding tx_pool
start_consensus now w =
    if ltb 0 w.tx_num_startconsens && ltb (length tx_pool.0) w.tx_num_startconsens
    then stop (record w { has_un_deal_txs = true }) (fail consensus_error)
    else if can_mining w
    then build_block now w
    else stop (record w { has_un_deal_txs = true }) done

-- What one timed hash does: an old block goes, and the loop notes whether it was the next one.
unfoldable pub expire_one : ℕ → Str → ℕ → Worker × Bool → Worker × Bool
expire_one now id beat (w, expired) =
    if ltb w.max_consensus_lifetime (now - beat)
    then (
      delete_pvb_and_beats_by_hash id w,
      expired || (elim (get_bh_by_hash id w.possible_valid_block) [
        | none ↦ false
        | some bh ↦ eqb bh (u64 (w.current_block + 1))
      ]),
    )
    else (w, expired)

unfoldable pub expire_all : ℕ → Map Str ℕ → Worker × Bool → Worker × Bool
expire_all now [] s = s
expire_all now ((id, beat) ∷ beats) s = expire_all now beats (expire_one now id beat s)

-- One round of the loop.
unfoldable pub expire : ℕ → Worker → Worker
expire now w =
    let (w', expired) = expire_all now w.blockbeats (w, false) in
    if expired then cancel_consensus w' else w'

unfoldable pub sync_con_status : ℕ → Worker → List Effect
sync_con_status now w = broadcast now (con_status_request w.node_id) w ∷ []

-- Whether the chain has the block before the given one; if not, a synchronisation is asked for.
unfoldable pub judge_sync : ℕ → ℕ → Worker → Bool × List Effect
judge_sync now bn w =
    if ltb w.current_block (u64 (bn + (2 ^ 64 - 1)))
    then (false, force_sync ∷ sync_con_status now w)
    else (true, [])

-- Back to the state at the start, for the chain's height.
unfoldable pub reset_con_data : Worker → Worker
reset_con_data w =
    let viewed = record w { view = w.current_block } in
    let flags = set_active_view true (set_ready false (reset_commit_store viewed)) in
    let emptied = reset_consensus_data (reset_pvb_and_beats flags) in
    cancel_consensus (record emptied { own_checkpoint_store = [] })

unfoldable pub reset_con_data2 : Worker → Worker
reset_con_data2 w =
    let emptied = reset_consensus_data (reset_pvb_and_beats w) in
    cancel_consensus (record emptied { own_checkpoint_store = [] })

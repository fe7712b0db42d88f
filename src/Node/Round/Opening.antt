-- ===== src/Node/Round/Opening.antt =====
-- How a round begins at a node of eth/pbft-core.go: with the request of the leader.
use pbft_block.Common.{
  ℕ, ◌<◌, ◌≡◌, ◌∙◌, refl, Bool, true, false, none, some, List, [], ◌∷◌, bytes_eq, nat_eq,
  bytes_beq_iff, lookup, lookup-insert, insert, has, arith,
}
use pbft_block.Text.{Str}
use pbft_block.Msg.{
  Block, Request, Prepare, Commit, msg_id_eq, msg_id_beq_iff, pbft_pre_prepare, go_pre_prepare,
}
use pbft_block.Worker.{Worker, done, in_v, note_req_id}
use pbft_block.Pool.{hash, put_pvb_and_beats}
use pbft_block.Pool.Laws.{get_block-put_block}
use pbft_block.Cert.{
  msg_id, cert_at, set_cert, get_cert, put_pre_prepare_in_cert, stored_fits, empty_cert,
}
use pbft_block.Handlers.Transfer.{broadcast}
use pbft_block.Handlers.Request.{
  recv_request, accept_request, propose, store_request, new_hash_req, pre_prepare_of,
}
use pbft_block.Handlers.Prepare.{block_of}
use pbft_block.Node.Round.{Gathers}

-- A ready node gets the leader's request of its view, for a block above its chain, and has nothing of
-- it yet.
pub record Opens (req : Request) (block : Block) (w : Worker) : Type 0 where
  pub ready : w.ready ≡ true
  pub in_view : in_v req.view w ≡ true
  pub sender : req.sender ≡ w.leader
  pub unknown : lookup (new_hash_req req) w.req_store ≡ none
  pub above : w.current_block < req.block_height
  pub real : req.real_block ≡ some block
  pub number : block.number ≡ req.block_height
  pub hash : hash block ≡ req.block_hash
  pub no_cert : lookup (msg_id req.view req.req_id) w.cert_store ≡ none
  pub unmarked : has req.block_height w.commit_store ≡ false

-- The node after the request.
abbrev pub opened : ℕ → Request → Block → Worker → Worker
opened now req block w =
    let d = new_hash_req req in
    let w' = store_request d req (note_req_id req.req_id w) in
    put_pre_prepare_in_cert req.view req.req_id (pre_prepare_of now d req w')
      (put_pvb_and_beats now block w')

pub recv_request-opened :
    (now : ℕ) (req : Request) (block : Block) (w : Worker)
    → Opens req block w
    → recv_request now req w ≡ record {
      node = opened now req block w;
      effects =
          go_pre_prepare (pre_prepare_of now (new_hash_req req) req w)
          ∷ broadcast now (pbft_pre_prepare (pre_prepare_of now (new_hash_req req) req w)) w
          ∷ [];
      reply = done;
    }
unfolding recv_request accept_request propose in_v note_req_id store_request put_pvb_and_beats
recv_request-opened now req block w o = ground (
  arith,
  o.ready,
  o.in_view,
  o.sender,
  o.unknown,
  o.above,
  o.real,
  bytes_beq_iff req.sender w.leader,
)

block_of-opened :
    (now : ℕ) (req : Request) (block : Block) (w : Worker)
    → Opens req block w
    → block_of req (opened now req block w) ≡ some block
unfolding block_of put_pre_prepare_in_cert get_cert set_cert cert_at put_pvb_and_beats store_request
    note_req_id
block_of-opened now req block w o = ground (
  arith,
  o.number,
  o.hash,
  o.real,
  get_block-put_block block req.block_height req.block_hash w.possible_valid_block,
  bytes_beq_iff (hash block) req.block_hash,
)

opened-known :
    (now : ℕ) (req : Request) (block : Block) (w : Worker)
    → lookup (new_hash_req req) (opened now req block w).req_store ≡ some req
unfolding put_pre_prepare_in_cert get_cert set_cert cert_at put_pvb_and_beats store_request
    note_req_id
opened-known now req block w = ground (
  arith,
  lookup-insert (new_hash_req req) (new_hash_req req) req w.req_store,
  bytes_beq_iff (new_hash_req req) (new_hash_req req),
)

pub opened-rest :
    (now : ℕ) (req : Request) (block : Block) (w : Worker)
    → let w' = opened now req block w in
      (w'.ready ≡ w.ready)
      × (w'.view ≡ w.view)
      × (w'.current_block ≡ w.current_block)
      × (w'.commit_store ≡ w.commit_store)
      × (w'.n ≡ w.n)
      × (w'.node_id ≡ w.node_id)
unfolding put_pre_prepare_in_cert get_cert set_cert cert_at put_pvb_and_beats store_request
    note_req_id
opened-rest now req block w = ground arith

pub opened-cert :
    (now : ℕ) (req : Request) (block : Block) (w : Worker)
    → Opens req block w
    → lookup (msg_id req.view req.req_id) (opened now req block w).cert_store
      ≡ some
          (record empty_cert { pre_prepare = some (pre_prepare_of now (new_hash_req req) req w) })
unfolding put_pre_prepare_in_cert get_cert set_cert cert_at put_pvb_and_beats store_request
    note_req_id
opened-cert now req block w o = ground (
  arith,
  o.no_cert,
  lookup-insert (msg_id req.view req.req_id) (msg_id req.view req.req_id) empty_cert w.cert_store,
  lookup-insert (msg_id req.view req.req_id) (msg_id req.view req.req_id)
      (record empty_cert { pre_prepare = some (pre_prepare_of now (new_hash_req req) req w) })
      (insert (msg_id req.view req.req_id) empty_cert w.cert_store),
  msg_id_beq_iff (msg_id req.view req.req_id) (msg_id req.view req.req_id),
)

own_fits :
    (now : ℕ) (req : Request) (w : Worker)
    → stored_fits
        (new_hash_req req)
        (msg_id req.view req.req_id)
        (some (pre_prepare_of now (new_hash_req req) req w))
      ≡ true
own_fits now req w = ground (arith, bytes_beq_iff (new_hash_req req) (new_hash_req req))

module _ (seq : Str) (req : Request) (block : Block) where
  abbrev Gathered : Bool → List Prepare → List Commit → Worker → Type 0
  Gathered = Gathers req.view req.req_id (new_hash_req req) seq req block

  pub opened-Gathers :
      (now : ℕ) (w : Worker) → Opens req block w → Gathered false [] [] (opened now req block w)
  unfolding in_v
  opened-Gathers now w o =
      let (ready, view, current_block, commit_store, size, node_id) = opened-rest now req block w in
      record {
        in_view = ground (arith, view, o.in_view);
        ready = ready ∙ o.ready;
        above = ground (arith, current_block, o.above);
        known = opened-known now req block w;
        has_block = block_of-opened now req block w o;
        cert = record empty_cert {
          pre_prepare = some (pre_prepare_of now (new_hash_req req) req w);
        };
        held = opened-cert now req block w o;
        pre = own_fits now req w;
        prepares = refl;
        commits = refl;
        sent_commit = refl;
        marked = ground (arith, commit_store, o.unmarked);
      }

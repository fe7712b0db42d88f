-- ===== src/Node/Requests.antt =====
-- What `RecvRequest` of eth/pbft-core.go makes of a request.
use pbft_block.Common.{
  ℕ, ◌<◌, ◌≡◌, ◌↔◌, true, false, Option, none, some, arith, has, nat_eq, bytes_eq, bytes_beq_iff,
}
use pbft_block.Text.{Str}
use pbft_block.Text.Itoa.{itoa-injective, uint64_mod}
use pbft_block.Msg.{Block, Request}
use pbft_block.Worker.{Worker, panic, note_req_id, in_v}
use pbft_block.Handlers.Request.{recv_request, accept_request, propose, store_request, new_hash_req}

-- Requests with different uint64 numbers have different digests.
pub new_hash_req-injective :
    (a b : Request)
    → a.req_id < uint64_mod
    → b.req_id < uint64_mod
    → new_hash_req a ≡ new_hash_req b
    → a.req_id ≡ b.req_id
unfolding new_hash_req
new_hash_req-injective a b ha hb e = itoa-injective a.req_id b.req_id ha hb e

-- A request that this node takes on: from the leader, of this view, new, and above the chain.
abbrev pub Admissible : Request → Worker → Type 0
Admissible req w =
    (w.ready ≡ true)
    × (req.sender ≡ w.leader)
    × (req.view ≡ w.view)
    × (has (new_hash_req req) w.req_store ≡ false)
    × (w.current_block < req.block_height)

propose-reply :
    (now : ℕ) (digest : Str) (req : Request) (real : Option Block) (w : Worker)
    → ((propose now digest req real w).reply ≡ panic) ↔ (real ≡ none)
unfolding propose
propose-reply now digest req none w = ground arith
propose-reply now digest req (some b) w = ground arith

-- The handler of requests panics exactly on a request with no block that a ready node has not
-- stored, of the leader, of the node's view and above its chain.
pub recv_request_panics :
    (now : ℕ) (req : Request) (w : Worker)
    → ((recv_request now req w).reply ≡ panic) ↔ (Admissible req w × (req.real_block ≡ none))
unfolding recv_request accept_request in_v store_request note_req_id
recv_request_panics now req w = ground (
  arith,
  bytes_beq_iff req.sender w.leader,
  propose-reply now (new_hash_req req) req req.real_block
      (store_request (new_hash_req req) req (note_req_id req.req_id w)),
)

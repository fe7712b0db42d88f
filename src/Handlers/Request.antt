-- ===== src/Handlers/Request.antt =====
-- `RecvRequest` of eth/pbft-core.go. It does not recover from a panic.
use pbft_block.Common.{
  ℕ, not, ◌||◌, Option, none, some, [], ◌∷◌, leb, ltb, if◌then◌else◌, ◌==◌, bytes_eq, insert, has,
}
use pbft_block.Text.{Str}
use pbft_block.Text.Itoa.{itoa}
use pbft_block.Msg.{Block, Request, PrePrepare, pbft_pre_prepare, go_pre_prepare}
use pbft_block.Worker.{
  Worker, Run, done, fail, panic, stop, being_selection_leader, wrong_leader_or_view, req_exists,
  already_onchain, note_req_id, in_v,
}
use pbft_block.Pool.{put_pvb_and_beats}
use pbft_block.Cert.{put_pre_prepare_in_cert}
use pbft_block.Handlers.Transfer.{broadcast}

-- The digest of a request is the decimal text of its number.
unfoldable pub new_hash_req : Request → Str
new_hash_req req = itoa req.req_id

-- `reqStore.Store`
unfoldable pub store_request : Str → Request → Worker → Worker
store_request digest req w = record w { req_store = insert digest req w.req_store }

abbrev pub pre_prepare_of : ℕ → Str → Request → Worker → PrePrepare
pre_prepare_of now digest req w = record {
  sender = w.node_id;
  view = req.view;
  timestamp = now;
  req_id = req.req_id;
  request_digest = digest;
  request = some req;
}

-- The block goes to the pool, the node's pre-prepare into the certificate, and to everybody. A
-- request with no block makes the pool panic.
unfoldable pub propose : ℕ → Str → Request → Option Block → Worker → Run
propose now digest req none w = stop w panic
propose now digest req (some block) w =
    let preprep = pre_prepare_of now digest req w in
    record {
      node = put_pre_prepare_in_cert req.view req.req_id preprep (put_pvb_and_beats now block w);
      effects = go_pre_prepare preprep ∷ broadcast now (pbft_pre_prepare preprep) w ∷ [];
      reply = done;
    }

unfoldable pub accept_request : ℕ → Request → Worker → Run
unfolding new_hash_req
accept_request now req w =
    let w' = store_request (new_hash_req req) req w in
    if in_v req.view w' then propose now (new_hash_req req) req req.real_block w' else stop w' done

unfoldable pub recv_request : ℕ → Request → Worker → Run
unfolding accept_request
recv_request now req w =
    let w' = note_req_id req.req_id w in
    if not w'.ready
    then stop w' (fail being_selection_leader)
    else if not (req.sender == w'.leader) || ltb req.view w'.view
    then stop w' (fail wrong_leader_or_view)
    else if has (new_hash_req req) w'.req_store
    then stop w' (fail req_exists)
    else if leb req.block_height w'.current_block
    then stop w' (fail already_onchain)
    else accept_request now req w'

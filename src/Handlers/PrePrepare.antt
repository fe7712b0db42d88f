-- ===== src/Handlers/PrePrepare.antt =====
-- `RecvPrePrepare` of eth/pbft-core.go, which recovers from a panic.
--
-- The certificate that the handler holds is that of the number in the request; the readings of
-- `prePrepared` go by the number in the pre-prepare.
use pbft_block.Common.{
  ℕ, Bool, true, false, not, ◌&&◌, ◌||◌, Option, none, some, List, [], ◌∷◌, leb, ltb, if◌then◌else◌,
  ◌==◌, bytes_eq, has,
}
use pbft_block.Text.{Str}
use pbft_block.Msg.{
  Block, Request, PrePrepare, Prepare, MsgId, pbft_prepare, Effect, go_prepare,
  go_prepare_not_transfer,
}
use pbft_block.Worker.{
  Worker, Run, done, fail, stop, after, being_selection_leader, wrong_leader_or_view,
  already_onchain, caught_panic, note_req_id, in_v,
}
use pbft_block.Pool.{get_block, put_pvb_and_beats}
use pbft_block.Cert.{msg_id, cert_at, set_cert, get_cert, pre_prepared, prepared}
use pbft_block.Handlers.Transfer.{broadcast, send_con_msg_transfer1}
use pbft_block.Handlers.Txs.{txs_exe_of, txs_exe_to_string}
use pbft_block.Handlers.Request.{new_hash_req, store_request}

unfoldable pub prepare_of : ℕ → PrePrepare → Block → Worker → Prepare
prepare_of now p block w = record {
  sender = w.node_id;
  view = p.view;
  timestamp = now;
  req_id = p.req_id;
  request_digest = p.request_digest;
  txs_exe_seqs = txs_exe_to_string (txs_exe_of block);
  real_txs_exe_seqs = some (txs_exe_of block);
}

-- The node's own prepare, once for a certificate.
unfoldable pub send_prepare : ℕ → PrePrepare → MsgId → Block → Worker → Run
send_prepare now p id block w =
    if pre_prepared p.request_digest (msg_id p.view p.req_id) w && not (cert_at id w).sent_prepare
    then record {
      node = set_cert id (record (cert_at id w) { sent_prepare = true }) w;
      effects =
          broadcast now (pbft_prepare (prepare_of now p block w)) w
          ∷ go_prepare (prepare_of now p block w)
          ∷ send_con_msg_transfer1 now p w;
      reply = done;
    }
    else stop w done

-- With the block of the pool, or else the one in the request, which is then filed; none at all is a
-- panic.
unfoldable pub use_block : ℕ → PrePrepare → MsgId → Option Block → Option Block → Worker → Run
use_block now p id (some block) real w = send_prepare now p id block w
use_block now p id none (some block) w = send_prepare now p id block (put_pvb_and_beats now block w)
use_block now p id none none w = stop w (fail caught_panic)

unfoldable pub file_block : ℕ → PrePrepare → Request → Worker → Run
file_block now p req w =
    use_block now p (msg_id p.view req.req_id)
      (get_block req.block_height req.block_hash w.possible_valid_block) req.real_block w

-- A request that is not in the store must have the digest that the pre-prepare gives.
unfoldable pub check_digest : ℕ → PrePrepare → Request → Worker → Run
check_digest now p req w =
    if has p.request_digest w.req_store
    then file_block now p req w
    else if not (new_hash_req req == p.request_digest)
    then stop w done
    else file_block now p req (store_request (new_hash_req req) req w)

unfoldable pub answer_pre_prepare : ℕ → PrePrepare → Request → Worker → Run
answer_pre_prepare now p req w =
    if not (pre_prepared p.request_digest (msg_id p.view p.req_id) w)
    then stop w done
    else check_digest now p req w

abbrev pub conflicts : Str → Option PrePrepare → Bool
conflicts digest none = false
conflicts digest (some stored) = not (stored.request_digest == digest)

abbrev pub first_prepare : List Prepare → List Effect
first_prepare [] = []
first_prepare (x ∷ xs) = go_prepare_not_transfer x ∷ []

-- Enough prepares came before the pre-prepare: the first is handled again.
unfoldable pub retry_prepare : PrePrepare → MsgId → Worker → List Effect
retry_prepare p id w =
    if prepared p.request_digest id w && not (cert_at id w).sent_commit
    then first_prepare (cert_at id w).prepare
    else []

unfoldable pub track_pre_prepare : PrePrepare → MsgId → Worker → Worker
track_pre_prepare p id w =
    set_cert id (record (cert_at id w) { pre_prepare = some p; is_prepre = true }) w

-- A second digest for the certificate is only logged.
unfoldable pub enter_cert : ℕ → PrePrepare → Request → Worker → Run
enter_cert now p req w =
    let id = msg_id p.view req.req_id in
    let w' = get_cert id w in
    if pre_prepared p.request_digest (msg_id p.view p.req_id) w' && (cert_at id w').sent_prepare
    then stop w' done
    else if conflicts p.request_digest (cert_at id w').pre_prepare
    then answer_pre_prepare now p req w'
    else after (retry_prepare p id (track_pre_prepare p id w'))
        (answer_pre_prepare now p req (track_pre_prepare p id w'))

-- The height of the request; a pre-prepare that carries none is a panic here.
unfoldable pub check_height : ℕ → PrePrepare → Option Request → Worker → Run
check_height now p none w = stop w (fail caught_panic)
check_height now p (some req) w =
    if leb req.block_height w.current_block
    then stop w (fail already_onchain)
    else enter_cert now p req w

-- A request that this node has not received comes in with the pre-prepare.
unfoldable pub admit_request : ℕ → PrePrepare → Option Request → Worker → Run
admit_request now p none w = stop w (fail caught_panic)
admit_request now p (some req) w =
    if not (req.sender == w.leader) || ltb req.view w.view
    then stop w (fail wrong_leader_or_view)
    else check_height now p (some req) (store_request p.request_digest req (note_req_id p.req_id w))

unfoldable pub recv_pre_prepare : ℕ → PrePrepare → Worker → Run
recv_pre_prepare now p w =
    if not (in_v p.view w)
    then stop w done
    else if not w.ready
    then stop w (fail being_selection_leader)
    else if has p.request_digest w.req_store
    then check_height now p p.request w
    else admit_request now p p.request w

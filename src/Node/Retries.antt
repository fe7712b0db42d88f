-- ===== src/Node/Retries.antt =====
-- What a prepare does to its certificate: `RecvPrepare` and `RecvPrepare_notTransfer` of
-- eth/pbft-core.go.
use pbft_block.Common.{
  ℕ, ◌<◌, ◌≡◌, refl, true, false, ◌&&◌, Option, none, some, List, [], ◌∷◌, ◌++◌, arith, has,
  lookup-insert, nat_eq, bytes_eq,
}
use pbft_block.Msg.{Block, Request, Prepare, MsgId, msg_id_eq, MsgCert, Effect}
use pbft_block.Worker.{Worker, stop, fail, duplicate_prepare, in_v, get_request_from_store}
use pbft_block.Cert.{msg_id, cert_at, get_cert, set_cert, prepared}
use pbft_block.Handlers.Prepare.{
  recv_prepare, recv_prepare_not_transfer, find_request, count_prepare, reach_prepared, judge_block,
  send_commit, mark_commit, add_prepare, prepared_by, block_of,
}

pub cert_at-set_cert : (id : MsgId) (c : MsgCert) (w : Worker) → cert_at id (set_cert id c w) ≡ c
unfolding cert_at set_cert
cert_at-set_cert id c w = ground (arith, lookup-insert id id c w.cert_store)

mark_commit-cert_at :
    (id : MsgId) (req : Request) (w : Worker)
    → cert_at id (mark_commit req.block_height req.block_hash w) ≡ cert_at id w
unfolding mark_commit cert_at
mark_commit-cert_at id req w = refl

judge_block-prepares :
    (now : ℕ) (p : Prepare) (req : Request) (b : Option Block) (w : Worker)
    → (cert_at (msg_id p.view p.req_id) (judge_block now p req b w).node).prepare
      ≡ (cert_at (msg_id p.view p.req_id) w).prepare
unfolding judge_block send_commit
judge_block-prepares now p req none w = refl
judge_block-prepares now p req (some b) w =
    let id = msg_id p.view p.req_id in
    let v = mark_commit req.block_height req.block_hash w in
    ground (
      arith,
      cert_at-set_cert id (record (cert_at id v) { sent_commit = true }) v,
      mark_commit-cert_at id req w,
    )

count_prepare-prepares :
    (now : ℕ) (p : Prepare) (req : Request) (rest : List Effect) (w : Worker)
    → (prepared p.request_digest (msg_id p.view p.req_id) w
        && (cert_at (msg_id p.view p.req_id) w).sent_commit)
      ≡ false
    → (cert_at (msg_id p.view p.req_id) (count_prepare now p req rest w).node).prepare
      ≡ (cert_at (msg_id p.view p.req_id) w).prepare ++ p ∷ []
unfolding count_prepare reach_prepared add_prepare
count_prepare-prepares now p req rest w open_cert =
    let id = msg_id p.view p.req_id in
    let v = add_prepare p w in
    ground (
      arith,
      judge_block-prepares now p req (block_of req v) v,
      cert_at-set_cert id (record (cert_at id w) { prepare = (cert_at id w).prepare ++ p ∷ [] }) w,
    )

-- A prepare from a sender whose prepare the certificate has, while the commit is still to be sent.
abbrev pub Again : Prepare → Request → Worker → Type 0
Again p req w =
    (in_v p.view w ≡ true)
    × (w.ready ≡ true)
    × (prepared_by p.sender (cert_at (msg_id p.view p.req_id) w).prepare ≡ true)
    × (get_request_from_store p.request_digest w ≡ some req)
    × (w.current_block < req.block_height)
    × (has req.block_height w.commit_store ≡ false)
    × ((prepared p.request_digest (msg_id p.view p.req_id) w
          && (cert_at (msg_id p.view p.req_id) w).sent_commit)
        ≡ false)

get_cert_there :
    (p : Prepare) (w : Worker)
    → prepared_by p.sender (cert_at (msg_id p.view p.req_id) w).prepare ≡ true
    → get_cert (msg_id p.view p.req_id) w ≡ w
unfolding cert_at get_cert
get_cert_there p w h = ground arith

-- Let the certificate of a ready node have a prepare of the sender, for a request that it has,
-- above its chain, with no commit for the height, and not both prepared and with its commit sent.
-- Another prepare of that sender is refused by the one handler, which leaves the node as it is,
-- and appended once more by the other.
pub recv_prepare-Again :
    (now : ℕ) (p : Prepare) (req : Request) (w : Worker)
    → Again p req w
    → (recv_prepare now p w ≡ stop w (fail duplicate_prepare))
      × ((cert_at (msg_id p.view p.req_id) (recv_prepare_not_transfer now p w).node).prepare
          ≡ (cert_at (msg_id p.view p.req_id) w).prepare ++ p ∷ [])
unfolding recv_prepare recv_prepare_not_transfer find_request
recv_prepare-Again now p req w a =
    ground (arith, get_cert_there p w, count_prepare-prepares now p req [] w)

-- ===== src/Cert/Removal.antt =====
-- What `removeOldConMsg` (eth/worker.go) leaves of the certificates and requests, and that an ended
-- request cannot be committed again.
use pbft_block.Common.{
  ℕ, ◌≤◌, ◌≡◌, false, Option, none, some, arith, lookup, lookup-retain, lookup-retain_key, Unique,
  ltb, if◌then◌else◌, bytes_eq,
}
use pbft_block.Text.{Str}
use pbft_block.Msg.{Request, MsgId, msg_id_eq}
use pbft_block.Worker.{Worker}
use pbft_block.Cert.{remove_old_con_msg, committed, prepared, pre_prepared}

-- A request stays if its number is above.
abbrev pub above : ℕ → Option Request → Option Request
above n none = none
above n (some req) = if ltb n req.req_id then some req else none

-- After the removal up to a number, from a store of requests with no digest twice, exactly the
-- certificates and the requests of larger numbers are left, each as it was.
pub remove_old_con_msg_leaves :
    (n : ℕ) (id : MsgId) (digest : Str) (w : Worker)
    → Unique w.req_store
    → (lookup id (remove_old_con_msg n w).cert_store
        ≡ (if ltb n id.n then lookup id w.cert_store else none))
      × (lookup digest (remove_old_con_msg n w).req_store ≡ above n (lookup digest w.req_store))
unfolding remove_old_con_msg
remove_old_con_msg_leaves n id digest w u = ground (
  arith,
  lookup-retain_key (λ (i : MsgId). ltb n i.n) id w.cert_store,
  lookup-retain (λ digest (req : Request). ltb n req.req_id) digest w.req_store u,
)

-- In a node that has removed its messages up to a number, no number up to it is committed, in any
-- view and for any digest.
pub committed-remove_old_con_msg :
    (n : ℕ) (id : MsgId) (digest : Str) (w : Worker)
    → id.n ≤ n
    → committed digest id (remove_old_con_msg n w) ≡ false
unfolding committed prepared pre_prepared remove_old_con_msg
committed-remove_old_con_msg n id digest w low =
    ground (arith, lookup-retain_key (λ (i : MsgId). ltb n i.n) id w.cert_store)

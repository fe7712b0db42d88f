-- ===== src/Handlers/Transfer.antt =====
-- Store and forward (`sendConMsg_transfer1` to `3` of eth/pbft-core_basic.go): a message of another
-- sender is passed on under its own name.
use pbft_block.Common.{ℕ, not, List, [], ◌∷◌, if◌then◌else◌, ◌==◌, bytes_eq}
use pbft_block.Text.{Str}
use pbft_block.Msg.{
  PrePrepare, Prepare, Commit, Payload, Effect, pbft_pre_prepare, pbft_prepare, pbft_commit, post,
  forward,
}
use pbft_block.Worker.{Worker}

abbrev pass_on : ℕ → Str → Payload → Worker → Effect
pass_on now sender msg w =
    forward (record { msg = msg; timestamp = now; sender = sender; newsender = w.node_id })

unfoldable pub send_con_msg_transfer1 : ℕ → PrePrepare → Worker → List Effect
send_con_msg_transfer1 now p w =
    if not (p.sender == w.node_id) then pass_on now p.sender (pbft_pre_prepare p) w ∷ [] else []

unfoldable pub send_con_msg_transfer2 : ℕ → Prepare → Worker → List Effect
send_con_msg_transfer2 now p w =
    if not (p.sender == w.node_id) then pass_on now p.sender (pbft_prepare p) w ∷ [] else []

unfoldable pub send_con_msg_transfer3 : ℕ → Commit → Worker → List Effect
send_con_msg_transfer3 now c w =
    if not (c.sender == w.node_id) then pass_on now c.sender (pbft_commit c) w ∷ [] else []

-- A message of the node's own.
abbrev pub broadcast : ℕ → Payload → Worker → Effect
broadcast now msg w = post (record { msg = msg; timestamp = now; sender = w.node_id })

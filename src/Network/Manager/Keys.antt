-- ===== src/Network/Manager/Keys.antt =====
-- The key of a peer: from what `InitP2PNode` of eth/star_up.go prints for author.json to what
-- `ValidateSig` of eth/MsgED.go compares with.
use pbft_block.Common.{◌≡◌, refl, some, ℕ, List, arith}
use pbft_block.Text.{Str}
use pbft_block.Text.Base64.{decode_string, encode_to_string}
use pbft_block.Text.Base64.RoundTrip.{decode_string-encode_to_string, encode_to_string-IsByte}
use pbft_block.Pns.{Node, new_permissioned_node_service, get_pk_by_pid}
use pbft_block.Pns.Permission.{last_abled, judge-new}
use pbft_block.Network.Wire.{Sm2, IsLawful}
use pbft_block.Network.Manager.{ProtocolManager, P2pPeer, new_peer, hex_text}

module _ {Prv Pub : Type 0} (sm : Sm2 Prv Pub) where
  -- The second text that is printed for the operator: the key, encoded twice.
  unfoldable pub author_key : Prv → Str
  author_key prv = encode_to_string (encode_to_string (sm.marshal (sm.public_key prv)))

module _ {Prv Pub : Type 0} (sm : Sm2 Prv Pub) (law : IsLawful sm) where
  twice :
      (prv : Prv)
      → (decode_string (decode_string (author_key sm prv)).bytes).bytes
        ≡ sm.marshal (sm.public_key prv)
  unfolding author_key
  twice prv =
      let small = law.marshal-IsByte (sm.public_key prv) in
      rw
        (
          decode_string-encode_to_string (encode_to_string (sm.marshal (sm.public_key prv)))
              (encode_to_string-IsByte (sm.marshal (sm.public_key prv)) small),
          decode_string-encode_to_string (sm.marshal (sm.public_key prv)) small,
        )
        refl

  known :
      (version : ℕ) (session : P2pPeer) (pm : ProtocolManager Prv) (text : Str)
      → get_pk_by_pid pm.pn_service (hex_text session.node_id) ≡ some text
      → (new_peer version session pm).node_pk ≡ (decode_string text).bytes
  unfolding new_peer
  known version session pm text e = rw e refl

  -- Let the permissions be read from a file whose last enabled entry for the identifier of a session
  -- has the key text that the node with the private key prints at its start. Then the peer that the
  -- manager makes from the session has the public key of that node as the one that signatures are
  -- compared with.
  pub new_peer-author_key :
      (own : Prv) (nodes : List Node) (node : Node) (pm : ProtocolManager Prv) (version : ℕ)
      (session : P2pPeer) (prv : Prv)
      → new_permissioned_node_service own (some nodes) ≡ some pm.pn_service
      → last_abled (hex_text session.node_id) nodes ≡ some node
      → node.node_pk ≡ author_key sm prv
      → (decode_string (new_peer version session pm).node_pk).bytes ≡ sm.marshal (sm.public_key prv)
  new_peer-author_key own nodes node pm version session prv built last text =
      let (_, _, stored) = judge-new own nodes pm.pn_service (hex_text session.node_id) built in
      rw (known version session pm (author_key sm prv) (ground (arith, stored, last, text)))
        (twice prv)

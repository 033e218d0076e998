-- ===== src/Peer/Handshake/Answered.antt =====
-- About the results of commands, and the panics in processing them.
use bitfold.Prelude.{
  ℕ, inl, inr, Bool, true, false, List, Option, none, some, Option-cases, Bool-cases, ◌!=◌,
}
use bitfold.Core.Float.{Float}
use bitfold.Core.Shared.{SharedBytes, from_arc, from_vec}
use bitfold.Command.{
  ProtocolCommand, send_reliable, send_unreliable, send_unreliable_sequenced, send_unsequenced,
  send_fragment, send_unreliable_fragment, acknowledge, ping, pong, connect, verify_connect,
  disconnect, bandwidth_limit, throttle_configure, pmtu_probe, pmtu_reply,
}
use bitfold.Channel.Total.{process_ordered_total}
use bitfold.Fragment.Buffer.{CommandFragmentBuffer, is_complete, reassemble}
use bitfold.Unsequenced.{is_duplicate}
use bitfold.Peer.{
  Peer, enqueue_ack_command, enqueue_pong_command, enqueue_command_peer, push_command,
}
use bitfold.Peer.State.{is_idle, awaits_verify}
use bitfold.Peer.Receive.{
  payload_of, channel_state, collected, process_acknowledge, deliver_ordered, process_send_reliable,
  process_send_unreliable_sequenced, process_send_unsequenced, deliver_reassembled,
  process_send_fragment, process_send_unreliable_fragment,
}
use bitfold.Peer.Process.{
  process_connect, process_verify_connect, process_bandwidth_limit, process_throttle_configure,
  process_arm, process_command,
}
use bitfold.Peer.Kept.{Ranged}
use bitfold.Peer.Handshake.Exchange.{negotiate_window-succeeds}

-- There is a result, and the range is still not empty.
abbrev pub Answers : {float : Float} {A : Type 0} → Option (A × Peer float) → Type 0
Answers none = ⊥
Answers (some (a, q)) = Ranged q

module _ {float : Float} where
  deliver_ordered-Answers :
      (p : Peer float) (channel_id sequence : ℕ) (d : SharedBytes)
      → Ranged p
      → Answers (deliver_ordered p channel_id sequence d)
  unfolding deliver_ordered
  deliver_ordered-Answers p channel_id sequence d range =
      let (ready, c, e, stuck) =
        process_ordered_total (channel_state p channel_id) sequence (from_arc (payload_of d)) in
      rw (deliver_ordered, e) range

  process_send_reliable-Answers :
      (p : Peer float) (channel_id sequence : ℕ) (is_ordered : Bool) (d : SharedBytes) (time : ℕ)
      → Ranged p
      → Answers (process_send_reliable p channel_id sequence is_ordered d time)
  unfolding process_send_reliable enqueue_ack_command enqueue_command_peer
  process_send_reliable-Answers p channel_id sequence true d time range =
      deliver_ordered-Answers _ channel_id sequence d range
  process_send_reliable-Answers p channel_id sequence false d time range = range

  process_send_unsequenced-Answers :
      (p : Peer float) (channel_id group : ℕ) (d : SharedBytes)
      → Ranged p
      → Answers (process_send_unsequenced p channel_id group d)
  unfolding process_send_unsequenced
  process_send_unsequenced-Answers p channel_id group d range =
      elim (Bool-cases (is_duplicate p.unsequenced_state group)) [
        | inl duplicate ↦ rw (process_send_unsequenced, duplicate) range
        | inr new_group ↦ rw (process_send_unsequenced, new_group) range
      ]

  deliver_reassembled-Answers :
      (p : Peer float) (buffer : CommandFragmentBuffer) (sequence : ℕ) (payload : List ℕ)
      → Ranged p
      → Answers (deliver_reassembled p buffer sequence payload)
  unfolding deliver_reassembled enqueue_ack_command enqueue_command_peer
  deliver_reassembled-Answers p buffer sequence payload range =
      let q = enqueue_ack_command p none in
      let (ready, c, e, stuck) =
        process_ordered_total (channel_state q buffer.channel_id) sequence (from_vec payload) in
      elim (Bool-cases buffer.ordered) [
        | inl is_ordered ↦ rw (deliver_reassembled, e, is_ordered) range
        | inr not_ordered ↦ rw (deliver_reassembled, not_ordered) range
      ]

  process_send_fragment-Answers :
      (p : Peer float) (channel_id sequence : ℕ) (is_ordered : Bool)
      (fragment_id fragment_count : ℕ) (d : SharedBytes) (time : ℕ)
      → Ranged p
      → Answers
          (process_send_fragment p channel_id sequence is_ordered fragment_id fragment_count d time)
  unfolding process_send_fragment
  process_send_fragment-Answers p channel_id sequence is_ordered fragment_id fragment_count d time
        range =
      let b = collected p channel_id sequence is_ordered fragment_id fragment_count d time in
      elim (Bool-cases (is_complete b)) [
        | inr waits ↦ rw (process_send_fragment, waits) range
        | inl complete ↦ elim (Option-cases (reassemble b)) [
          | inl fails ↦ rw (process_send_fragment, complete, fails) range
          | inr (payload, e) ↦
              rw (process_send_fragment, complete, e)
                (deliver_reassembled-Answers _ b sequence payload range)
        ]
      ]

  process_send_unreliable_fragment-Answers :
      (p : Peer float) (channel_id sequence fragment_id fragment_count : ℕ) (d : SharedBytes)
      (time : ℕ)
      → Ranged p
      → Answers
          (process_send_unreliable_fragment p channel_id sequence fragment_id fragment_count d time)
  unfolding process_send_unreliable_fragment
  process_send_unreliable_fragment-Answers p channel_id sequence fragment_id fragment_count d time
        range =
      let b = collected p channel_id sequence false fragment_id fragment_count d time in
      elim (Bool-cases (is_complete b)) [
        | inr waits ↦ rw (process_send_unreliable_fragment, waits) range
        | inl complete ↦ elim (Option-cases (reassemble b)) [
          | inl fails ↦ rw (process_send_unreliable_fragment, complete, fails) range
          | inr (payload, e) ↦ rw (process_send_unreliable_fragment, complete, e) range
        ]
      ]

  process_connect-Answers :
      (p : Peer float) (channels session_id connect_id random : ℕ)
      → Ranged p
      → Answers (process_connect p channels session_id connect_id random)
  unfolding process_connect push_command
  process_connect-Answers p channels session_id connect_id random range =
      elim (Bool-cases (is_idle p.state)) [
        | inl idles ↦ rw (process_connect, idles) range
        | inr other ↦ rw (process_connect, other) range
      ]

  process_verify_connect-Answers :
      (p : Peer float) (peer_id incoming_session_id outgoing_session_id window_size : ℕ)
      → Ranged p
      → Answers
          (process_verify_connect p peer_id incoming_session_id outgoing_session_id window_size)
  unfolding process_verify_connect
  process_verify_connect-Answers p peer_id incoming_session_id outgoing_session_id window_size
        range =
      let q : Peer float = record p {
        peer_id = peer_id;
        incoming_session_id = incoming_session_id;
      } in
      let (f, e) = negotiate_window-succeeds q window_size range in
      elim (Bool-cases (awaits_verify p.state)) [
        | inr other ↦ rw (process_verify_connect, other) range
        | inl calls ↦ elim (Bool-cases (outgoing_session_id != p.outgoing_session_id)) [
          | inl mismatch ↦ rw (process_verify_connect, e, mismatch, calls) range
          | inr equal ↦ rw (process_verify_connect, e, equal, calls) range
        ]
      ]

  -- Every command of every kind has a result for a peer whose window range is not empty: processing
  -- it ends and does not panic, in any state of the connection.
  pub process_command-Answers :
      (p : Peer float) (c : ProtocolCommand) (time random : ℕ)
      → Ranged p
      → Answers (process_command p c time random)
  unfolding process_command process_arm process_acknowledge process_send_unreliable_sequenced
      process_bandwidth_limit process_throttle_configure enqueue_command_peer enqueue_pong_command
  process_command-Answers p (acknowledge s m t) time random range = range
  process_command-Answers p (ping t) time random range = range
  process_command-Answers p (pong t) time random range = range
  process_command-Answers p (send_reliable c s o d) time random range =
      process_send_reliable-Answers _ c s o d time range
  process_command-Answers p (send_unreliable c d) time random range = range
  process_command-Answers p (send_unreliable_sequenced c s d) time random range = range
  process_command-Answers p (send_unsequenced c g d) time random range =
      process_send_unsequenced-Answers _ c g d range
  process_command-Answers p (send_fragment c s o i n d) time random range =
      process_send_fragment-Answers _ c s o i n d time range
  process_command-Answers p (send_unreliable_fragment c s i n d) time random range =
      process_send_unreliable_fragment-Answers _ c s i n d time range
  process_command-Answers p (disconnect r) time random range = range
  process_command-Answers p (connect c m v o i) time random range =
      process_connect-Answers _ c o i random range
  process_command-Answers p (verify_connect i c m incoming outgoing w) time random range =
      process_verify_connect-Answers _ i incoming outgoing w range
  process_command-Answers p (bandwidth_limit i o) time random range = range
  process_command-Answers p (throttle_configure i a d) time random range = range
  process_command-Answers p (pmtu_probe s t d) time random range = range
  process_command-Answers p (pmtu_reply s t) time random range = range

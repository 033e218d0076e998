-- ===== src/Session/Reach/Reports.antt =====
-- The addresses in the connection events that a session reports.
use bitfold.Prelude.{
  ℕ, zero, suc, ◌≡◌, refl, inl, inr, Bool, true, false, List, [], ◌∷◌, ◌++◌, some, none, Option,
  All, Bool-cases, Option-cases, ◌∙◌, if◌then◌else◌, subst, ◌&&◌, ◌||◌, ltb, leb, min,
}
use bitfold.Core.Float.{Float}
use bitfold.Core.Error.{done, failed}
use bitfold.Codec.Bytes.{ByteOrder, Result-cases}
use bitfold.Codec.Compression.{Compressors}
use bitfold.Throttle.{can_receive_within_bandwidth, can_send_within_bandwidth}
use bitfold.Core.Time.{duration_since}
use bitfold.Acknowledgment.{packets_in_flight}
use bitfold.Packet.{Packet, PacketType}
use bitfold.Peer.{Peer, record_send, record_recv, has_queued_commands}
use bitfold.Peer.State.{is_zombie, is_established}
use bitfold.Peer.Process.{Received}
use bitfold.Peer.Encode.{encode_queued_commands_bounded}
use bitfold.Peer.Handshake.Local.{record_recv-Steps}
use bitfold.Session.{
  Action, send_action, emit_action, SocketEvent, packet_event, connect_event, timeout_event,
  disconnect_event, emit_if, packet_events, update_window, enqueue_packet, should_drop,
}
use bitfold.Session.Run.{
  handle_received, process_packet, process_event, flush, flush_queue, sends_first,
}
use bitfold.Session.Kept.{Ends}
use bitfold.Session.Reach.{Reaches}
use bitfold.Session.Reach.Operations.{process_command_packet-Ends}

-- A connection event names this address.
abbrev pub Names : ℕ → SocketEvent → Type 0
Names addr (packet_event p) = Unit
Names addr (connect_event a) = a ≡ addr
Names addr (timeout_event a) = a ≡ addr
Names addr (disconnect_event a) = a ≡ addr

abbrev pub IsOwn : ℕ → Action → Type 0
IsOwn addr (send_action out) = Unit
IsOwn addr (emit_action event) = Names addr event

abbrev pub Reports : {float : Float} → ℕ → Option (List Action × Peer float) → Type 0
Reports addr none = Unit
Reports addr (some (actions, p)) = All (IsOwn addr) actions

both :
    (addr : ℕ) (xs ys : List Action)
    → All (IsOwn addr) xs
    → All (IsOwn addr) ys
    → All (IsOwn addr) (xs ++ ys)
both addr [] ys h k = k
both addr (x ∷ xs) ys h k = (h.0, both addr xs ys h.1 k)

emit_if-IsOwn :
    (addr : ℕ) (b : Bool) (event : SocketEvent)
    → Names addr event
    → All (IsOwn addr) (emit_if b event)
emit_if-IsOwn addr true event h = (h, tt)
emit_if-IsOwn addr false event h = tt

packet_events-IsOwn :
    (addr : ℕ) (ps : List (Packet × PacketType)) → All (IsOwn addr) (packet_events ps)
packet_events-IsOwn addr [] = tt
packet_events-IsOwn addr ((p, t) ∷ ps) = (tt, packet_events-IsOwn addr ps)

timeout-IsOwn :
    (addr : ℕ) (drops established : Bool)
    → All (IsOwn addr) (
        if drops
        then emit_action (timeout_event addr) ∷ emit_if established (disconnect_event addr)
        else [])
timeout-IsOwn addr true established = (refl, emit_if-IsOwn addr established _ refl)
timeout-IsOwn addr false established = tt

module _ {float : Float} where
  sends_first-Reports :
      (addr : ℕ) (out : List ℕ) (r : Option (List Action × Peer float))
      → Reports addr r
      → Reports addr (sends_first out r)
  sends_first-Reports addr out none h = tt
  sends_first-Reports addr out (some (actions, p)) h = (tt, h)

  pub should_drop-IsOwn :
      (p : Peer float) (time : ℕ) → All (IsOwn p.remote_address) (should_drop p time).1
  unfolding should_drop
  should_drop-IsOwn p time = elim (Bool-cases (is_zombie p.state)) [
    | inl dead ↦ rw (should_drop, dead) (refl, tt)
    | inr alive ↦
        rw (should_drop, alive)
          (timeout-IsOwn p.remote_address
            (ltb p.config.max_packets_in_flight (packets_in_flight p.acknowledge_handler)
              || leb p.config.idle_connection_timeout (duration_since time p.last_heard))
            (is_established p.state))
  ]

  handle_received-Reports :
      (p : Peer float) (r : Received float)
      → Ends (Reaches p) r
      → Reports p.remote_address (handle_received r)
  unfolding record_recv
  handle_received-Reports p none h = tt
  handle_received-Reports p (some (failed e, q)) h = tt
  handle_received-Reports p (some (done packets, q)) h =
      both p.remote_address _ _
        (emit_if-IsOwn p.remote_address _ _ ((record_recv-Steps q).keeps.address ∙ h.keeps.address))
        (packet_events-IsOwn p.remote_address packets)

module _ {float : Float} ⦃bytes : ByteOrder⦄ (crc32 : List ℕ → ℕ) (c : Compressors) where
  flush-Reports : (addr fuel : ℕ) (p : Peer float) → Reports addr (flush crc32 c fuel p)
  unfolding flush
  flush-Reports addr zero p = tt
  flush-Reports addr (suc fuel) p =
      let cap = min p.pmtu.fragment_size p.config.receive_buffer_max_size in
      let r = encode_queued_commands_bounded crc32 c p cap in
      elim (Bool-cases (has_queued_commands p && can_send_within_bandwidth p.bandwidth_throttle)) [
        | inr ends ↦ rw (flush, ends) tt
        | inl goes ↦ elim (Result-cases r.0) [
          | inl (e, bad) ↦ rw (flush, goes, bad) tt
          | inr (none, blocked) ↦ rw (flush, goes, blocked) tt
          | inr (some out, sent) ↦
              rw (flush, goes, sent) (sends_first-Reports addr out _ (flush-Reports addr fuel _))
        ]
      ]

  pub process_packet-Reports :
      (p : Peer float) (payload : List ℕ) (time random : ℕ)
      → Reports p.remote_address (process_packet crc32 c p payload time random)
  unfolding process_packet
  process_packet-Reports p [] time random = tt
  process_packet-Reports p (b ∷ payload) time random =
      let p' = update_window p time in
      elim (Bool-cases (can_receive_within_bandwidth p'.bandwidth_throttle)) [
        | inr over ↦ rw (process_packet, over) tt
        | inl within ↦
            rw (process_packet, within)
              (handle_received-Reports _ _
                (process_command_packet-Ends crc32 c _ (b ∷ payload) time random))
      ]

  pub process_event-Reports :
      (p : Peer float) (event : Packet) → Reports p.remote_address (process_event crc32 c p event)
  unfolding process_event flush_queue
  process_event-Reports p event =
      let q = (record_send p).1 in
      elim (Option-cases
        (enqueue_packet q event.delivery event.ordering event.channel_id event.payload)) [
          | inl panics ↦ rw (process_event, panics) tt
          | inr (r, e) ↦ elim (Option-cases (flush_queue crc32 c r)) [
            | inl stuck ↦ rw (process_event, e, stuck) tt
            | inr ((actions, s), f) ↦
                rw (process_event, e, f)
                  (both p.remote_address _ _ (emit_if-IsOwn p.remote_address _ _ refl)
                    (subst (Reports p.remote_address) f (flush-Reports p.remote_address _ r)))
          ]
        ]

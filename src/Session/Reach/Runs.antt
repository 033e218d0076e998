-- ===== src/Session/Reach/Runs.antt =====
-- What holds after any sequence of operations of a session.
use bitfold.Prelude.{All, ℕ, ◌≤◌, ◌≡◌, refl, inr, arith, List, some, not, subst, ap}
use bitfold.Core.Float.{Float}
use bitfold.Core.Config.{Config}
use bitfold.Codec.Bytes.{ByteOrder}
use bitfold.Codec.Compression.{Compressors}
use bitfold.Acknowledgment.{with_congestion}
use bitfold.Queue.{IsCounted, new_queue}
use bitfold.Fragment.Plan.{enqueue_all, enqueue_reliable_data, plan_reliable}
use bitfold.Packet.{Packet, OrderingGuarantee, reliable}
use bitfold.Peer.{Peer, new, new_handler, disconnect}
use bitfold.Peer.Kept.{Stays, Stays-refl, Unnumbered}
use bitfold.Peer.Handshake.{Stays-Steps}
use bitfold.Peer.Handshake.Local.{disconnect-Steps}
use bitfold.Session.{should_drop, Action, enqueue_packet, is_unordered}
use bitfold.Session.Run.{process_packet, process_event, update}
use bitfold.Session.Kept.{Ends}
use bitfold.Peer.Handshake.Answered.{Answers}
use bitfold.Session.Answered.{process_packet-Answers}
use bitfold.Session.Reach.{Reaches, Reaches-trans, Steps-Reaches, stage, stage-Trace}
use bitfold.Session.Reach.Reports.{
  Reports, IsOwn, process_packet-Reports, process_event-Reports, should_drop-IsOwn,
}
use bitfold.Session.Reach.Operations.{process_packet-Ends, process_event-Ends, update-Ends}

module _ {float : Float} ⦃bytes : ByteOrder⦄ (crc32 : List ℕ → ℕ) (c : Compressors) where
  -- From `p` by any sequence of operations, at any times, with any input.
  pub data Run (p : Peer float) : Peer float → Type 0 where
    starts : Run p p
    receives :
        {q r : Peer float} (payload : List ℕ) (time random : ℕ) (actions : List Action)
        → Run p q
        → process_packet crc32 c q payload time random ≡ some (actions, r)
        → Run p r
    sends :
        {q r : Peer float} (event : Packet) (actions : List Action)
        → Run p q
        → process_event crc32 c q event ≡ some (actions, r)
        → Run p r
    updates :
        {q r : Peer float} (time elapsed token : ℕ) (fill : ℕ → List ℕ) (actions : List Action)
        → Run p q
        → update crc32 c q time elapsed token fill ≡ some (actions, r)
        → Run p r
    disconnects : {q : Peer float} → Run p q → Run p (disconnect q)

  pub Run-Reaches : {p q : Peer float} → Run p q → Reaches p q
  Run-Reaches {p} starts = Steps-Reaches (Stays-Steps (Stays-refl p))
  Run-Reaches (receives {q = q} payload time random actions run e) =
      Reaches-trans (Run-Reaches run)
        (subst (Ends (Reaches q)) e (process_packet-Ends crc32 c q payload time random))
  Run-Reaches (sends {q = q} event actions run e) =
      Reaches-trans (Run-Reaches run)
        (subst (Ends (Reaches q)) e (process_event-Ends crc32 c q event))
  Run-Reaches (updates {q = q} time elapsed token fill actions run e) =
      Reaches-trans (Run-Reaches run) (
        Steps-Reaches
          (Stays-Steps (subst (Ends (Stays q)) e (update-Ends crc32 c q time elapsed token fill))))
  Run-Reaches (disconnects {q = q} run) =
      Reaches-trans (Run-Reaches run) (Steps-Reaches (disconnect-Steps q))

  -- Whatever a session sends, receives and updates, its connection never goes back to an earlier
  -- stage of its life: idle, opening, answered, connected, disconnecting, zombie.
  pub Run-stage : (p q : Peer float) → Run p q → stage p.state ≤ stage q.state
  Run-stage p q run = stage-Trace (Run-Reaches run).trace

new-IsCounted :
    (float : Float) (addr : ℕ) (config : Config) (time session_id connect_id : ℕ)
    → IsCounted config (new {float = float} addr config time session_id connect_id).waiting
unfolding new new_queue
new-IsCounted float addr config time session_id connect_id = record {
  counter = refl;
  bounded = inr (omega arith);
}

module _ {float : Float} where
  new-Unnumbered :
      (addr : ℕ) (config : Config) (time session_id connect_id : ℕ)
      → Unnumbered (new {float = float} addr config time session_id connect_id).acknowledge_handler
  unfolding new new_handler with_congestion
  new-Unnumbered addr config time session_id connect_id = record {
    counter = refl;
    none_sent = refl;
  }

module _ {float : Float} ⦃bytes : ByteOrder⦄ (crc32 : List ℕ → ℕ) (c : Compressors) where
  -- In every state that a new session reaches, the counter of the waiting data is the size of the
  -- queued payloads and within the limit in force, and the address of the peer is the one that the
  -- session was made with; a connection, a timeout or a disconnection that `process_packet`,
  -- `process_event` or `should_drop` then reports is reported of that address.
  pub Run-IsCounted :
      (addr : ℕ) (config : Config) (time session_id connect_id : ℕ) (q : Peer float)
      (payload : List ℕ) (now random : ℕ) (event : Packet)
      → Run crc32 c (new addr config time session_id connect_id) q
      → IsCounted q.config q.waiting
        × (q.remote_address ≡ addr)
        × Reports addr (process_packet crc32 c q payload now random)
        × Reports addr (process_event crc32 c q event)
        × All (IsOwn addr) (should_drop q now).1
  unfolding new
  Run-IsCounted addr config time session_id connect_id q payload now random event run =
      let k = (Run-Reaches crc32 c run).keeps in
      (
        k.counted (new-IsCounted float addr config time session_id connect_id),
        k.address,
        subst (λ a. Reports a (process_packet crc32 c q payload now random)) k.address
            (process_packet-Reports crc32 c q payload now random),
        subst (λ a. Reports a (process_event crc32 c q event)) k.address
            (process_event-Reports crc32 c q event),
        subst (λ a. All (IsOwn a) (should_drop q now).1) k.address (should_drop-IsOwn q now),
      )

  -- No datagram makes a session panic. In every state that a new session reaches, if the window
  -- range of its configuration is not empty, `process_packet` has a result for any bytes, at any time
  -- and with any random number: it ends, and leaves a window range that is not empty.
  pub Run-Answers :
      (addr : ℕ) (config : Config) (time session_id connect_id : ℕ) (q : Peer float)
      (payload : List ℕ) (now random : ℕ)
      → config.min_window_size ≤ config.max_window_size
      → Run crc32 c (new addr config time session_id connect_id) q
      → Answers (process_packet crc32 c q payload now random)
  unfolding new
  Run-Answers addr config time session_id connect_id q payload now random range run =
      process_packet-Answers crc32 c q payload now random
        ((Run-Reaches crc32 c run).keeps.ranged range)

  -- A session never numbers a packet: whatever it has done, nothing waits for an acknowledgment and
  -- every reliable packet that it sends has the sequence number 0.
  pub Run-sequence_zero :
      (addr : ℕ) (config : Config) (time session_id connect_id : ℕ) (q : Peer float)
      (ordering : OrderingGuarantee) (channel_id : ℕ) (payload : List ℕ)
      → Run crc32 c (new addr config time session_id connect_id) q
      → Unnumbered q.acknowledge_handler
        × (enqueue_packet q reliable ordering channel_id payload
            ≡ some (record q {
              waiting = enqueue_all q.config q.waiting (
                  plan_reliable q.config q.pmtu.fragment_size 0 channel_id
                    (not (is_unordered ordering))
                    payload);
            }))
  unfolding enqueue_packet enqueue_reliable_data
  Run-sequence_zero addr config time session_id connect_id q ordering channel_id payload run =
      let u =
        (Run-Reaches crc32 c run).keeps.unnumbered
          (new-Unnumbered {float = float} addr config time session_id connect_id) in
      (
        u,
        ap
            (λ sequence. some (record q {
              waiting = enqueue_all q.config q.waiting (
                  plan_reliable q.config q.pmtu.fragment_size sequence channel_id
                    (not (is_unordered ordering)) payload);
            }))
            u.counter,
      )

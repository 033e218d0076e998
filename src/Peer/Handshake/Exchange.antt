-- ===== src/Peer/Handshake/Exchange.antt =====
-- The handshake between two peers.
use bitfold.Prelude.{
  ℕ, ◌≤◌, ◌≡◌, ◌≢◌, refl, ap, Bool, true, false, [], ◌∷◌, ◌++◌, some, arith, min, max, leb, ◌!=◌,
  if◌then◌else◌,
}
use bitfold.Core.Float.{Float}
use bitfold.Core.Error.{done, failed, could_not_read_header}
use bitfold.Command.{ProtocolCommand, connect, verify_connect}
use bitfold.Queue.{enqueue}
use bitfold.FlowControl.{FlowControl, set_window_size as set_window}
use bitfold.Packet.{zero_packets}
use bitfold.Peer.{Peer, push_command}
use bitfold.Peer.Parts.{set_window_size}
use bitfold.Peer.State.{idle, connecting, acknowledging_connect, is_idle, awaits_verify}
use bitfold.Peer.Process.{
  process_connect, negotiate_window, process_verify_connect, process_arm, process_command,
}
use bitfold.Peer.Encode.Transmit.{queued}

module _ {float : Float} where
  -- The server's answer to the client's `Connect`.
  abbrev pub offer : (client server : Peer float) → ℕ → ProtocolCommand
  offer client server random =
      verify_connect random (min client.config.channel_count server.config.channel_count) 1400
        client.outgoing_session_id server.outgoing_session_id server.flow_control.window_size

  set_window_size-succeeds :
      (p : Peer float) (w : ℕ)
      → p.config.min_window_size ≤ p.config.max_window_size
      → (f : FlowControl) × (set_window_size p w ≡ some (record p { flow_control = f }))
  unfolding set_window_size set_window
  set_window_size-succeeds p w h =
      let lo = p.config.min_window_size in
      let hi = p.config.max_window_size in
      let e : leb lo hi ≡ true = ground arith in
      (
        record p.flow_control { window_size = max lo (min w hi) },
        rw (set_window_size, set_window, e) refl,
      )

  window_if-succeeds :
      (use_window : Bool) (p : Peer float) (w : ℕ)
      → p.config.min_window_size ≤ p.config.max_window_size
      → (f : FlowControl) × ((if use_window then set_window_size p w else some p)
          ≡ some (record p { flow_control = f }))
  window_if-succeeds true p w h = set_window_size-succeeds p w h
  window_if-succeeds false p w h = (p.flow_control, refl)

  pub negotiate_window-succeeds :
      (p : Peer float) (w : ℕ)
      → p.config.min_window_size ≤ p.config.max_window_size
      → (f : FlowControl) × (negotiate_window p w ≡ some (record p { flow_control = f }))
  unfolding negotiate_window
  negotiate_window-succeeds p w h = window_if-succeeds p.config.use_window_flow_control p _ h

  -- Between an idle server and a client that has called, with a window range that is not empty: the
  -- server answers and awaits the acknowledgment, but the client refuses the answer, unless the two
  -- session ids, which each chose at random, are equal; it then has its own id for the server's.
  pub handshake_mismatch :
      (client server : Peer float) (time random : ℕ)
      → server.state ≡ idle
      → client.state ≡ connecting
      → client.config.min_window_size ≤ client.config.max_window_size
      → server.outgoing_session_id ≢ client.outgoing_session_id
      → (server' client' : Peer float) × (process_command server
            (connect client.config.channel_count 1400 1 client.outgoing_session_id
              client.connect_id)
            time
            random
          ≡ some (done zero_packets, server'))
        × (server'.state ≡ acknowledging_connect)
        × (queued server' ≡ queued server ++ offer client server random ∷ [])
        × (process_command client (offer client server random) time random
            ≡ some (failed could_not_read_header, client'))
        × (client'.state ≡ connecting)
        × (client'.incoming_session_id ≡ client.outgoing_session_id)
  unfolding process_command process_arm process_connect process_verify_connect push_command enqueue
  handshake_mismatch client server time random idles calls range differ =
      let asked : Peer float = record client {
        last_heard = time;
        peer_id = random;
        incoming_session_id = client.outgoing_session_id;
      } in
      let (f, negotiated) = negotiate_window-succeeds asked server.flow_control.window_size range in
      let is_idle_server : is_idle server.state ≡ true = ap is_idle idles in
      let is_calling : awaits_verify client.state ≡ true = ap awaits_verify calls in
      let mismatch : (server.outgoing_session_id != client.outgoing_session_id) ≡ true =
        ground (arith, differ) in
      (
        push_command
            (record server {
              last_heard = time;
              incoming_session_id = client.outgoing_session_id;
              peer_id = random;
              connect_id = client.connect_id;
              state = acknowledging_connect;
            })
            (offer client server random),
        record asked { flow_control = f },
        rw (process_command, process_arm, process_connect, is_idle_server) refl,
        refl,
        refl,
        rw (process_command, process_arm, process_verify_connect, is_calling, negotiated, mismatch)
            refl,
        calls,
        refl,
      )

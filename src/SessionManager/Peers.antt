-- ===== src/SessionManager/Peers.antt =====
-- crates/bitfold-host/src/peer_session.rs: peers as the sessions of a manager.
use bitfold.Prelude.{ℕ, List}
use bitfold.Core.Float.{Float}
use bitfold.Codec.Bytes.{ByteOrder}
use bitfold.Codec.Compression.{Compressors}
use bitfold.Packet.{Packet}
use bitfold.Peer.{Peer, new}
use bitfold.Peer.State.{is_established}
use bitfold.Session.{should_drop}
use bitfold.Session.Run.{process_packet, process_event, update}
use bitfold.SessionManager.{SessionTrait}

-- What a session draws at random, and the time elapsed since the poll began.
pub record Draw : Type 0 where
  pub session_id : ℕ
  pub connect_id : ℕ
  pub peer_id : ℕ
  pub token : ℕ
  pub fill : ℕ → List ℕ
  pub elapsed : ℕ

unfoldable pub peer_sessions :
    (float : Float) → ByteOrder → (List ℕ → ℕ) → Compressors → SessionTrait
peer_sessions float bytes crc32 c = record {
  Session = Peer float;
  Event = Packet;
  Random = Draw;
  address = λ event. event.addr;
  create_session = λ config address time r. new address config time r.session_id r.connect_id;
  is_established = λ p. is_established p.state;
  should_drop = λ p time. should_drop p time;
  process_packet =
      λ p payload time r. process_packet ⦃bytes = bytes⦄ crc32 c p payload time r.peer_id;
  process_event = λ p event time r. process_event ⦃bytes = bytes⦄ crc32 c p event;
  update = λ p time r. update ⦃bytes = bytes⦄ crc32 c p time r.elapsed r.token r.fill;
}

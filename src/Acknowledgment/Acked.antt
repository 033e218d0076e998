-- ===== src/Acknowledgment/Acked.antt =====
-- From the receiver's bitfield to the sender's packets.
use bitfold.Prelude.{ℕ, Bool, ◌&&◌, ltb, leb}
use bitfold.Core.Float.{Float}
use bitfold.Sequence.Order.{wrapping_sub}
use bitfold.Sequence.Buffer.{exists}
use bitfold.Acknowledgment.{AcknowledgmentHandler, remote_sequence_num}

-- The receiver has the packet `k`, at most 32 before its most recent one.
abbrev pub reported : {float : Float} → AcknowledgmentHandler float → ℕ → Bool
reported r k =
    let d = wrapping_sub (remote_sequence_num r) k in
    leb 1 d && (ltb d 33 && exists r.received_packets k)

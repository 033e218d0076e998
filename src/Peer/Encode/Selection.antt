-- ===== src/Peer/Encode/Selection.antt =====
-- The selection of the commands for one datagram: the longest part of the queue that fits.
use bitfold.Prelude.{
  ℕ, zero, suc, ◌+◌, ◌*◌, ◌≤◌, ◌<◌, ◌≡◌, List, [], ◌∷◌, arith, length, length-append, take, drop,
  ltb, Bool-cases, inl, inr, ltb→lt, ltb→le,
}
use bitfold.Command.{
  ProtocolCommand, send_reliable, send_unreliable, send_unreliable_sequenced, send_unsequenced,
  send_fragment, send_unreliable_fragment, acknowledge, ping, pong, connect, verify_connect,
  disconnect, bandwidth_limit, throttle_configure, pmtu_probe, pmtu_reply,
}
use bitfold.Codec.Bytes.{ByteOrder}
use bitfold.Codec.Wire.{wire, wire_fields}
use bitfold.Codec.Wire.Encode.{encode_command-wire}
use bitfold.Codec.Packet.{framed, AllFit}
use bitfold.Peer.Encode.{select}

pub length-framed :
    (c : ProtocolCommand) (cs : List ProtocolCommand)
    → length (framed (c ∷ cs)) ≡ 2 + length (wire c) + length (framed cs)
unfolding framed
length-framed c cs = omega (arith, length-append (wire c) (framed cs))

-- A command takes at least four bytes.
wire_ge : (c : ProtocolCommand) → 4 ≤ length (wire c)
unfolding wire wire_fields
wire_ge (send_reliable _ _ _ _) = omega arith
wire_ge (send_unreliable _ _) = omega arith
wire_ge (send_unreliable_sequenced _ _ _) = omega arith
wire_ge (send_unsequenced _ _ _) = omega arith
wire_ge (send_fragment _ _ _ _ _ _) = omega arith
wire_ge (send_unreliable_fragment _ _ _ _ _) = omega arith
wire_ge (acknowledge _ _ _) = omega arith
wire_ge (ping _) = omega arith
wire_ge (pong _) = omega arith
wire_ge (connect _ _ _ _ _) = omega arith
wire_ge (verify_connect _ _ _ _ _ _) = omega arith
wire_ge (disconnect _) = omega arith
wire_ge (bandwidth_limit _ _) = omega arith
wire_ge (throttle_configure _ _ _) = omega arith
wire_ge (pmtu_probe _ _ _) = omega arith
wire_ge (pmtu_reply _ _) = omega arith

pub framed_ge : (cs : List ProtocolCommand) → 6 * length cs ≤ length (framed cs)
unfolding framed
framed_ge [] = omega arith
framed_ge (c ∷ cs) = omega (arith, length-framed c cs, wire_ge c, framed_ge cs)

pub take-AllFit : (n : ℕ) (cs : List ProtocolCommand) → AllFit cs → AllFit (take n cs)
take-AllFit zero cs h = tt
take-AllFit (suc n) [] h = tt
take-AllFit (suc n) (c ∷ cs) (hc, hl, hs) = (hc, hl, take-AllFit n cs hs)

pub drop-AllFit : (n : ℕ) (cs : List ProtocolCommand) → AllFit cs → AllFit (drop n cs)
drop-AllFit zero cs h = h
drop-AllFit (suc n) [] h = tt
drop-AllFit (suc n) (c ∷ cs) (hc, hl, hs) = drop-AllFit n cs hs

-- `n` commands fit, and one more would not.
pub record IsLongest (limit used : ℕ) (cs : List ProtocolCommand) (n : ℕ) : Type 0 where
  pub within : n ≤ length cs
  pub fits : used + length (framed (take n cs)) ≤ limit
  pub longest : n < length cs → limit < used + length (framed (take (suc n) cs))

module _ ⦃bytes : ByteOrder⦄ where
  -- The loop selects the longest prefix of the queue whose commands, each behind its length, fit
  -- into the limit beside the overhead and what is selected already.
  pub select-IsLongest :
      (limit overhead used : ℕ) (cs : List ProtocolCommand)
      → AllFit cs
      → overhead + used ≤ limit
      → IsLongest limit (overhead + used) cs (select limit overhead used cs)
  unfolding select framed
  select-IsLongest limit overhead used [] h room = record {
    within = omega arith;
    fits = omega arith;
    longest = λ l. absurd (omega arith);
  }
  select-IsLongest limit overhead used (c ∷ cs) (hc, hl, hs) room =
      rw (encode_command-wire c hc)
        (elim (Bool-cases (ltb limit (overhead + used + (2 + length (wire c))))) [
          | inl over ↦ rw over (record {
            within = omega arith;
            fits = omega arith;
            longest =
                λ l. omega (arith, ltb→lt _ _ over, length-append (wire c) (framed (take zero cs)));
          })
          | inr under ↦
              let room' = ltb→le limit _ under in
              let total = 2 + length (wire c) in
              let n = select limit overhead (used + total) cs in
              let rest = select-IsLongest limit overhead (used + total) cs hs (omega arith) in
              rw under (record {
                within = omega (arith, rest.within);
                fits = omega (arith, rest.fits, length-append (wire c) (framed (take n cs)));
                longest = λ l.
                    omega (arith, rest.longest, length-append (wire c) (framed (take (suc n) cs)));
              })
        ])

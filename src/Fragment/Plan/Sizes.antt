-- ===== src/Fragment/Plan/Sizes.antt =====
-- No planned command is too large for a datagram.
use bitfold.Prelude.{
  ℕ, zero, suc, ◌+◌, ◌*◌, ◌≤◌, ◌<◌, ◌≡◌, ◌^◌, refl, List, arith, min, length, All, Bool-cases, inl,
  inr, ltb, leb,
}
use bitfold.Core.Config.{Config}
use bitfold.Core.Shared.{SharedBytes, from_arc, IsValid, length-as_slice}
use bitfold.Command.{ProtocolCommand, Fits, Carries}
use bitfold.Codec.Wire.{wire, wire_fields}
use bitfold.Fragment.Plan.{
  per_packet_overhead, payload_budget, div_ceil, fragment_at, first_fragment, fragment_commands,
  plan, plan_unreliable,
}
use bitfold.Fragment.Plan.Pieces.{start-lt}

-- A command in the range of the wire format, in a datagram of its own below the cap.
abbrev pub FitsDatagram : Config → ℕ → ProtocolCommand → Type 0
FitsDatagram config fragment_size c =
    Fits c
    × (per_packet_overhead config + 2 + length (wire c)
        ≤ min fragment_size config.receive_buffer_max_size)

-- A view of at most `p` bytes.
record Piece (p : ℕ) (d : SharedBytes) : Type 0 where
  view : IsValid d
  short : d.len ≤ p

fragment_at-Piece :
    (payload : List ℕ) (p i : ℕ)
    → 0 < p
    → i < div_ceil (length payload) p
    → Piece p (fragment_at payload p i)
unfolding fragment_at
fragment_at-Piece payload p i h less =
    let inside = start-lt (length payload) p i h less in
    let step : (i + 1) * p ≡ i * p + p = grind arith in
    record { view = omega (arith, inside, step); short = omega (arith, inside, step) }

first_fragment-Piece : (payload : List ℕ) (p : ℕ) → Piece p (first_fragment payload p)
unfolding first_fragment
first_fragment-Piece payload p = omega arith

from_arc-Piece : (payload : List ℕ) (p : ℕ) → length payload ≤ p → Piece p (from_arc payload)
unfolding from_arc
from_arc-Piece payload p h = record { view = omega arith; short = h }

module _ (config : Config) (size : ℕ) where
  fragment_commands-All :
      (P : ProtocolCommand → Type 0) (n rounds i : ℕ) (command : ℕ → ProtocolCommand)
      → ((j : ℕ) → j < n → P (command j))
      → i + rounds ≤ n
      → All P (fragment_commands rounds i command)
  unfolding fragment_commands
  fragment_commands-All P n zero i command h bound = tt
  fragment_commands-All P n (suc rounds) i command h bound =
      (h i (omega arith), fragment_commands-All P n rounds (i + 1) command h (omega arith))

  plan-All :
      (P : ProtocolCommand → Type 0) (payload : List ℕ) (whole_header fragment_header : ℕ)
      (whole : ProtocolCommand) (fragment : ℕ → ℕ → SharedBytes → ProtocolCommand)
      → (0 < payload_budget config size whole_header
          → Piece (payload_budget config size whole_header) (from_arc payload)
          → P whole)
      → ((i n : ℕ) (d : SharedBytes)
          → i < 256
          → n < 256
          → 0 < payload_budget config size fragment_header
          → Piece (payload_budget config size fragment_header) d
          → P (fragment i n d))
      → All P (plan config size payload whole_header fragment_header whole fragment)
  unfolding plan
  plan-All P payload whole_header fragment_header whole fragment hw hf =
      let most = payload_budget config size whole_header in
      let p = payload_budget config size fragment_header in
      let n = div_ceil (length payload) p in
      elim (Bool-cases (ltb most 1)) [
        | inl e ↦ rw e tt
        | inr e ↦ elim (Bool-cases (leb (length payload) most)) [
          | inl e1 ↦ rw (e, e1) (hw (ground arith) (from_arc-Piece payload most (ground arith)), tt)
          | inr e1 ↦ elim (Bool-cases (ltb p 1)) [
            | inl e2 ↦ rw (e, e1, e2) tt
            | inr e2 ↦ elim (Bool-cases (ltb 255 n)) [
              | inl e3 ↦ rw (e, e1, e2, e3) tt
              | inr e3 ↦ elim (Bool-cases (ltb config.max_fragments n)) [
                | inl e4 ↦
                    rw (e, e1, e2, e3, e4)
                      (
                        hf 0 1 _ (omega arith) (omega arith) (ground arith)
                            (first_fragment-Piece payload p),
                        tt,
                      )
                | inr e4 ↦
                    rw (e, e1, e2, e3, e4)
                      (fragment_commands-All P n n 0 _
                        (λ j less.
                          hf j n _ (ground arith) (ground arith) (ground arith)
                            (fragment_at-Piece payload p j (ground arith) less))
                        (omega arith))
              ]
            ]
          ]
        ]
      ]

-- The room that a budget leaves.
budget_room :
    (config : Config) (size header p : ℕ)
    → payload_budget config size header ≡ p
    → 0 < p
    → per_packet_overhead config + 2 + header + p ≡ min size config.receive_buffer_max_size
unfolding payload_budget
budget_room config size header p e h = omega arith

carried :
    (size cap p : ℕ) (d : SharedBytes) → size < 65536 → p ≤ min size cap → Piece p d → Carries d
carried size cap p d h le v = omega arith

module _ (config : Config) (size sequence channel_id : ℕ) (small : size < 2 ^ 16)
    (hs : sequence < 2 ^ 16) (hc : channel_id < 2 ^ 8) where
  -- The same for an unreliable payload.
  pub plan_unreliable-FitsDatagram :
      (payload : List ℕ)
      → All (FitsDatagram config size) (plan_unreliable config size sequence channel_id payload)
  unfolding plan_unreliable wire wire_fields
  plan_unreliable-FitsDatagram payload =
      plan-All config size (FitsDatagram config size) payload 4 8 _ _
        (λ pos v.
          let room = budget_room config size 4 _ refl pos in
          let fits =
            carried size config.receive_buffer_max_size _ _ small (omega (arith, room)) v in
          ((hc, fits), omega (arith, room, length-as_slice fits.view, v.short)))
        (λ i n d hi hn pos v.
          let room = budget_room config size 8 _ refl pos in
          let fits =
            carried size config.receive_buffer_max_size _ _ small (omega (arith, room)) v in
          ((hc, hs, hi, hn, fits), omega (arith, room, length-as_slice fits.view, v.short)))

-- ===== src/Fragment/Plan/EndToEnd.antt =====
-- From the sender's fragments to the receiver's reassembly.
use bitfold.Prelude.{
  ℕ, ◌≤◌, ◌<◌, ◌≡◌, ap, ◌∙◌, Bool, List, [], ◌∷◌, some, arith, length, take, All, Among,
  length-take, append-nil, inl, take-min,
}
use bitfold.Core.Config.{Config}
use bitfold.Core.Shared.{as_slice}
use bitfold.Command.{send_fragment}
use bitfold.Fragment.Buffer.{new, reassemble}
use bitfold.Fragment.Buffer.Reassembly.{add_all, reassemble_arrivals}
use bitfold.Fragment.Plan.{
  payload_budget, div_ceil, fragment_at, first_fragment, fragment_commands, plan, plan_reliable,
}
use bitfold.Fragment.Plan.Pieces.{joined_fragments}

-- The size and the number of the fragments of a reliable payload.
abbrev pub piece_size : Config → ℕ → ℕ
piece_size config size = payload_budget config size 9

abbrev pub piece_count : Config → ℕ → List ℕ → ℕ
piece_count config size payload = div_ceil (length payload) (piece_size config size)

module _ (config : Config) (size sequence channel_id : ℕ) (ordered : Bool) (payload : List ℕ)
    (large : payload_budget config size 7 < length payload) (room : 0 < piece_size config size)
    (few : piece_count config size payload ≤ 255) where
  -- A payload that is too large for one command, and not too large for the allowed number of
  -- fragments and for 255, is sent as fragments numbered from 0, and the receiver that gets all of
  -- these, in any order and any number of times, puts together exactly the payload.
  pub fragments_reassemble :
      (time : ℕ) (js : List ℕ)
      → piece_count config size payload ≤ config.max_fragments
      → All (λ k. k < piece_count config size payload) js
      → ((k : ℕ) → k < piece_count config size payload → Among k js)
      → (plan_reliable config size sequence channel_id ordered payload
          ≡ fragment_commands (piece_count config size payload) 0 (λ i.
            send_fragment channel_id sequence ordered i
              (piece_count config size payload)
              (fragment_at payload (piece_size config size) i)))
        × (reassemble (
              add_all
                (λ i. as_slice (fragment_at payload (piece_size config size) i))
                js
                (new channel_id (piece_count config size payload) ordered time))
            ≡ some payload)
  unfolding plan_reliable plan payload_budget
  fragments_reassemble time js allowed below all = (
    ground arith,
    reassemble_arrivals _ channel_id _ time ordered js below all
        ∙ ap (λ (x : List ℕ). some x) (joined_fragments payload _ room),
  )

  -- A payload that needs more fragments than the configuration allows, and at most 255, is sent as
  -- one fragment that claims to be the whole packet; the receiver takes the payload's first bytes for
  -- the packet.
  pub truncated_delivery :
      (time : ℕ)
      → config.max_fragments < piece_count config size payload
      → let first = first_fragment payload (piece_size config size) in
        (plan_reliable config size sequence channel_id ordered payload
          ≡ send_fragment channel_id sequence ordered 0 1 first ∷ [])
        × (reassemble (add_all (λ i. as_slice first) (0 ∷ []) (new channel_id 1 ordered time))
            ≡ some (take (piece_size config size) payload))
        × (length (take (piece_size config size) payload) < length payload)
  unfolding plan_reliable plan payload_budget first_fragment as_slice
  truncated_delivery time many =
      let p = payload_budget config size 9 in
      let first = as_slice (first_fragment payload p) in
      (
        ground arith,
        reassemble_arrivals (λ i. first) channel_id 1 time ordered (0 ∷ []) (omega arith)
              (λ k less. inl (omega arith))
            ∙ ap (λ (x : List ℕ). some x) (append-nil first ∙ take-min p payload),
        omega (arith, length-take p payload),
      )

-- ===== src/Fragment/Plan/Pieces.antt =====
-- The pieces of a payload: together they are the payload.
use bitfold.Prelude.{
  ℕ, zero, suc, ◌+◌, ◌-◌, ◌*◌, ◌/◌, ◌≤◌, ◌<◌, ◌≡◌, ◌∙◌, List, some, arith, min, length, take, drop,
  take-add, take-min, take_all, drop-drop, length-drop,
}
use native.Mathlib.Nat.{mod-add-div', mod-lt}
use bitfold.Core.Shared.{as_slice, from_arc, slice}
use bitfold.Fragment.Buffer.Reassembly.{joined}
use bitfold.Fragment.Plan.{div_ceil, fragment_at}

piece_length :
    (payload : List ℕ) (p i : ℕ)
    → min ((i + 1) * p) (length payload) - i * p ≡ min p (length (drop (i * p) payload))
piece_length payload p i = omega (arith, length-drop (i * p) payload)

as_slice-fragment_at :
    (payload : List ℕ) (p i : ℕ)
    → as_slice (fragment_at payload p i) ≡ take p (drop (i * p) payload)
unfolding as_slice fragment_at
as_slice-fragment_at payload p i = rw (piece_length payload p i) (take-min p (drop (i * p) payload))

joined_pieces :
    (payload : List ℕ) (p k i : ℕ)
    → joined (λ j. as_slice (fragment_at payload p j)) i k ≡ take (k * p) (drop (i * p) payload)
joined_pieces payload p zero i = let none_left : 0 * p ≡ 0 = omega arith in rw none_left
joined_pieces payload p (suc k) i =
    let next : i * p + p ≡ suc i * p = grind arith in
    let total : p + k * p ≡ suc k * p = grind arith in
    rw (
      as_slice-fragment_at payload p i,
      joined_pieces payload p k (suc i),
      ← next,
      ← drop-drop p (i * p) payload,
      take-add p (k * p) (drop (i * p) payload),
      total,
    )

pub le-div_ceil : (n p : ℕ) → 0 < p → n ≤ div_ceil n p * p
le-div_ceil n p h = omega (arith, mod-add-div' (n + p - 1) p, mod-lt (n + p - 1) h)

-- A piece starts before the payload's end.
pub start-lt : (n p i : ℕ) → 0 < p → i < div_ceil n p → i * p < n
start-lt n p i h less =
    let whole : suc i * p ≤ (n + p - 1) / p * p = grind arith in
    let step : suc i * p ≡ i * p + p = grind arith in
    omega (arith, mod-add-div' (n + p - 1) p, whole, step)

-- The pieces of a payload, as many as the length asks for, are together the payload.
pub joined_fragments :
    (payload : List ℕ) (p : ℕ)
    → 0 < p
    → joined (λ i. as_slice (fragment_at payload p i)) 0 (div_ceil (length payload) p) ≡ payload
joined_fragments payload p h =
    let start : 0 * p ≡ 0 = omega arith in
    joined_pieces payload p (div_ceil (length payload) p) 0
    ∙ rw start (take_all _ payload (le-div_ceil (length payload) p h))

-- The slices taken by the source lie inside the payload.
pub slice-fragment_at :
    (payload : List ℕ) (p i : ℕ)
    → i * p ≤ length payload
    → slice (from_arc payload) (i * p) (min ((i + 1) * p) (length payload) - i * p)
      ≡ some (fragment_at payload p i)
unfolding slice from_arc fragment_at
slice-fragment_at payload p i h = ground arith

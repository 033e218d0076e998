-- ===== src/Acknowledgment/Dropped/Taken.antt =====
-- The list that `take_dropped` returns, and the map that it leaves.
use bitfold.Prelude.{
  ℕ, ◌≤◌, ◌<◌, ◌≡◌, refl, ap, ◌∙◌, Bool, true, false, ◌&&◌, ◌||◌, Option, none, some, List, [], ◌∷◌,
  arith, ◌==◌, if◌then◌else◌, Bool-cases, Option-cases, inl, inr, length, All, ◌↔◌, ◌⊎◌,
}
use native.Mathlib.Decide.{ℕ_discrete}
use bitfold.Prelude.Map.{lookup, remove, lookup-remove, length-remove-le, length-remove-lt}
use bitfold.Sequence.Order.{wrapping_sub, sequence_less_than, sequence_greater_than}
use bitfold.Acknowledgment.{
  SentPacket, keys, sorted_into, sort_unstable, is_dropped, take_dropped, taken_out,
}

abbrev pub among : ℕ → List ℕ → Bool
among k [] = false
among k (j ∷ js) = (j == k) || among k js

among-sorted_into : (k j : ℕ) (js : List ℕ) → among k (sorted_into j js) ≡ ((j == k) || among k js)
among-sorted_into k j [] = refl
among-sorted_into k j (i ∷ js) = ground (arith, among-sorted_into k j js)

pub among-sort_unstable : (k : ℕ) (js : List ℕ) → among k (sort_unstable js) ≡ among k js
among-sort_unstable k [] = refl
among-sort_unstable k (j ∷ js) =
    among-sorted_into k j (sort_unstable js) ∙ ap (λ b. (j == k) || b) (among-sort_unstable k js)

pub lookup_absent :
    {V : Type 0} (k : ℕ) (m : List (ℕ × V)) → among k (keys m) ≡ false → lookup k m ≡ none
unfolding lookup
lookup_absent k [] e = refl
lookup_absent k ((j, v) ∷ m) e = ground (arith, lookup_absent k m)

taken_out-map :
    (o : Option SentPacket) (r : List SentPacket × List (ℕ × SentPacket)) → (taken_out o r).1 ≡ r.1
taken_out-map none r = refl
taken_out-map (some p) (ps, m) = refl

pub lookup-take_dropped :
    (a k : ℕ) (ss : List ℕ) (m : List (ℕ × SentPacket))
    → lookup k (take_dropped a ss m).1 ≡ (if among k ss && is_dropped a k then none else lookup k m)
unfolding take_dropped
lookup-take_dropped a k [] m = refl
lookup-take_dropped a k (s ∷ ss) m =
    let kept = taken_out-map (lookup s m) (take_dropped a ss (remove s m)) in
    elim (ℕ_discrete s k) [
      | yes e ↦
          let same = ap (is_dropped a) e in
          ground (
            arith,
            same,
            ap (lookup k) kept,
            lookup-take_dropped a k ss m,
            lookup-take_dropped a k ss (remove s m),
            lookup-remove s k m,
          )
      | no d ↦ ground (
        arith,
        ap (lookup k) kept,
        lookup-take_dropped a k ss m,
        lookup-take_dropped a k ss (remove s m),
        lookup-remove s k m,
      )
    ]

pub length-take_dropped :
    (a : ℕ) (ss : List ℕ) (m : List (ℕ × SentPacket)) → length (take_dropped a ss m).0 ≤ length m
unfolding take_dropped
length-take_dropped a [] m = omega arith
length-take_dropped a (s ∷ ss) m = elim (Bool-cases (is_dropped a s)) [
  | inr keep ↦ rw (keep, take_dropped) (length-take_dropped a ss m)
  | inl out ↦ elim (Option-cases (lookup s m)) [
    | inl missing ↦
        rw (out, missing, take_dropped)
          (omega (arith, length-take_dropped a ss (remove s m), length-remove-le s m))
    | inr (p, found) ↦
        rw (out, found, take_dropped)
          (omega (arith, length-take_dropped a ss (remove s m), length-remove-lt s m p found))
  ]
]

-- `s` lies more than 32 steps behind `r` on the circle of 65536, and less than half way round it; at
-- the opposite point the smaller number is behind.
abbrev pub Late : ℕ → ℕ → Type 0
Late r s =
    (32 < wrapping_sub r s) × ((wrapping_sub r s < 32768) ⊎ (wrapping_sub r s ≡ 32768) × (s < r))

pub is_dropped_iff : (r s : ℕ) → r < 65536 → s < 65536 → (is_dropped r s ≡ true) ↔ Late r s
unfolding is_dropped sequence_less_than sequence_greater_than
is_dropped_iff r s hr hs = ground arith

abbrev pub Contains : SentPacket → List SentPacket → Type 0
Contains p [] = ⊥
Contains p (q ∷ qs) = (p ≡ q) ⊎ Contains p qs

Contains-taken_out :
    (p : SentPacket) (o : Option SentPacket) (r : List SentPacket × List (ℕ × SentPacket))
    → Contains p r.0
    → Contains p (taken_out o r).0
Contains-taken_out p none r h = h
Contains-taken_out p (some q) r h = inr h

pub take_dropped-reports :
    (a k : ℕ) (p : SentPacket) (ss : List ℕ) (m : List (ℕ × SentPacket))
    → is_dropped a k ≡ true
    → lookup k m ≡ some p
    → among k ss ≡ true
    → Contains p (take_dropped a ss m).0
unfolding take_dropped
take_dropped-reports a k p [] m d found h = cc
take_dropped-reports a k p (s ∷ ss) m d found h = elim (ℕ_discrete s k) [
  | yes e ↦
      let here : is_dropped a s ≡ true = ap (is_dropped a) e ∙ d in
      let mine : lookup s m ≡ some p = ap (λ j. lookup j m) e ∙ found in
      rw (here, mine, take_dropped) (inl refl)
  | no n ↦
      let later : among k ss ≡ true = ground (arith, h, n) in
      elim (Bool-cases (is_dropped a s)) [
        | inr keep ↦ rw (keep, take_dropped) (take_dropped-reports a k p ss m d found later)
        | inl out ↦
            let still : lookup k (remove s m) ≡ some p =
              ground (arith, lookup-remove s k m, found, n) in
            rw (out, take_dropped)
              (Contains-taken_out p (lookup s m) (take_dropped a ss (remove s m))
                (take_dropped-reports a k p ss (remove s m) d still later))
      ]
]

-- Where a reported packet comes from.
abbrev pub Origin : ℕ → SentPacket → List (ℕ × SentPacket) → Type 0
Origin a p m = (k : ℕ) × (is_dropped a k ≡ true) × (lookup k m ≡ some p)

Origin-remove :
    (a s : ℕ) (p : SentPacket) (m : List (ℕ × SentPacket)) → Origin a p (remove s m) → Origin a p m
Origin-remove a s p m (k, d, found) = (k, d, ground (arith, lookup-remove s k m, found))

taken_out-Origin :
    (a s : ℕ) (p : SentPacket) (m : List (ℕ × SentPacket)) (o : Option SentPacket)
    (r : List SentPacket × List (ℕ × SentPacket))
    → is_dropped a s ≡ true
    → lookup s m ≡ o
    → (Contains p r.0 → Origin a p m)
    → Contains p (taken_out o r).0
    → Origin a p m
taken_out-Origin a s p m none r d e rest h = rest h
taken_out-Origin a s p m (some q) r d e rest (inl same) = (s, d, cc (e, same))
taken_out-Origin a s p m (some q) r d e rest (inr h) = rest h

pub take_dropped-Origin :
    (a : ℕ) (p : SentPacket) (ss : List ℕ) (m : List (ℕ × SentPacket))
    → Contains p (take_dropped a ss m).0
    → Origin a p m
unfolding take_dropped
take_dropped-Origin a p [] m h = absurd h
take_dropped-Origin a p (s ∷ ss) m h = elim (Bool-cases (is_dropped a s)) [
  | inr keep ↦
      let there : Contains p (take_dropped a ss m).0 = rw (keep, take_dropped) at h in
      take_dropped-Origin a p ss m there
  | inl out ↦
      let r = take_dropped a ss (remove s m) in
      let there : Contains p (taken_out (lookup s m) r).0 = rw (out, take_dropped) at h in
      taken_out-Origin a s p m (lookup s m) r out refl
        (λ c. Origin-remove a s p m (take_dropped-Origin a p ss (remove s m) c)) there
]

pub lookup-below :
    (k : ℕ) (p : SentPacket) (m : List (ℕ × SentPacket))
    → All (λ j. j < 65536) (keys m)
    → lookup k m ≡ some p
    → k < 65536
unfolding lookup
lookup-below k p [] h e = cc
lookup-below k p ((j, q) ∷ m) h e = elim (ℕ_discrete j k) [
  | yes same ↦ omega (arith, same, h.0)
  | no n ↦ lookup-below k p m h.1 (ground (arith, n, e))
]

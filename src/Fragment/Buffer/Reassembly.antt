-- ===== src/Fragment/Buffer/Reassembly.antt =====
-- When a packet can be put together again, and what comes out.
use bitfold.Prelude.{
  ℕ, zero, suc, ◌+◌, ◌≤◌, ◌<◌, ◌≡◌, ◌≢◌, inl, inr, refl, ap, sym, Bool, false, List, [], ◌∷◌, ◌++◌,
  Option, none, some, arith, length, All, Among, Option-cases, Bool-cases, append_assoc, append-nil,
  ◌==◌, ==→eq,
}
use bitfold.Prelude.Map.{lookup, remove, lookup-insert, lookup-remove}
use bitfold.Prelude.Map.Distinct.{
  Distinct, insert-Distinct, length_full, length_missing, length-gt_foreign,
}
use bitfold.Fragment.Buffer.{
  CommandFragmentBuffer, new, add_fragment, is_complete, collect, reassemble,
}

-- The pieces `i`, …, `i + n - 1` in one.
abbrev pub joined : (ℕ → List ℕ) → ℕ → ℕ → List ℕ
joined f i zero = []
joined f i (suc n) = f i ++ joined f (suc i) n

-- The buffer after the arrival of the pieces with these numbers, the last arrival first.
abbrev pub add_all : (ℕ → List ℕ) → List ℕ → CommandFragmentBuffer → CommandFragmentBuffer
add_all f [] b = b
add_all f (j ∷ js) b = add_fragment (add_all f js b) j (f j)

record Holds (f : ℕ → List ℕ) (n : ℕ) (seen : List ℕ) (b : CommandFragmentBuffer) : Type 0 where
  count : b.fragment_count ≡ n
  distinct : Distinct b.fragments
  below : (k : ℕ) (v : List ℕ) → lookup k b.fragments ≡ some v → k < n
  kept : (k : ℕ) → Among k seen → lookup k b.fragments ≡ some (f k)
  stored : (k : ℕ) (v : List ℕ) → lookup k b.fragments ≡ some v → Among k seen

add_all-Holds :
    (f : ℕ → List ℕ) (c n t : ℕ) (o : Bool) (js : List ℕ)
    → All (λ k. k < n) js
    → Holds f n js (add_all f js (new c n o t))
unfolding new add_fragment lookup
add_all-Holds f c n t o [] h = record {
  count = refl;
  distinct = tt;
  below = λ k v e. cc;
  kept = λ k a. absurd a;
  stored = λ k v e. cc;
}
add_all-Holds f c n t o (j ∷ js) h =
    let v = add_all-Holds f c n t o js h.1 in
    let m = (add_all f js (new c n o t)).fragments in
    record {
      count = v.count;
      distinct = insert-Distinct j (f j) m v.distinct;
      below = λ k w e. ground (arith, h.0, lookup-insert j k (f j) m, v.below k w);
      kept = λ k a. ground (arith, lookup-insert j k (f j) m, v.kept k);
      stored = λ k w e. ground (arith, lookup-insert j k (f j) m, v.stored k w);
    }

collect-joined :
    (f : ℕ → List ℕ) (n i : ℕ) (m : List (ℕ × List ℕ)) (r : List ℕ)
    → ((k : ℕ) → i ≤ k → k < i + n → lookup k m ≡ some (f k))
    → collect n i m r ≡ some (r ++ joined f i n)
unfolding collect
collect-joined f zero i m r h = ap (λ (x : List ℕ). some x) (sym (append-nil r))
collect-joined f (suc n) i m r h =
    let next : i + 1 ≡ suc i = omega arith in
    rw (
      h i (omega arith) (omega arith),
      next,
      collect,
      collect-joined f n (suc i) (remove i m) (r ++ f i)
          (λ k lo hi. ground (arith, lookup-remove i k m, h k)),
      append_assoc r (f i),
    )

collect-present :
    (n i : ℕ) (m : List (ℕ × List ℕ)) (r x : List ℕ)
    → collect n i m r ≡ some x
    → (k : ℕ) → i ≤ k
    → k < i + n
    → lookup k m ≢ none
unfolding collect
collect-present zero i m r x e k lo hi missing = absurd (omega arith)
collect-present (suc n) i m r x e k lo hi missing = elim (Option-cases (lookup i m)) [
  | inl stop ↦ let over : none ≡ some x = rw (stop, collect) at e in cc
  | inr (v, found) ↦
      let rest : collect n (i + 1) (remove i m) (r ++ v) ≡ some x = rw (found, collect) at e in
      let past : i + 1 ≤ k = ground (arith, missing, found) in
      collect-present n (i + 1) (remove i m) (r ++ v) x rest k past (omega arith)
        (ground (arith, lookup-remove i k m))
]

-- As long as one of the `n` fragments of a packet has not arrived, and no fragment with a number from
-- `n` on has, the buffer is not complete and gives nothing, whichever of the others have arrived, in
-- any order and any number of times.
pub reassemble_missing :
    (f : ℕ → List ℕ) (c n t : ℕ) (o : Bool) (js : List ℕ) (k : ℕ)
    → All (λ j. j < n) js
    → k < n
    → ¬ Among k js
    → (is_complete (add_all f js (new c n o t)) ≡ false)
      × (reassemble (add_all f js (new c n o t)) ≡ none)
unfolding is_complete reassemble
reassemble_missing f c n t o js k h less absent =
    let b = add_all f js (new c n o t) in
    let v = add_all-Holds f c n t o js h in
    let none_there : lookup k b.fragments ≡ none = elim (Option-cases (lookup k b.fragments)) [
      | inl missing ↦ missing
      | inr (w, found) ↦ absurd (absent (v.stored k w found))
    ] in
    let short = length_missing n k [] b.fragments v.distinct v.below less none_there in
    ground (arith, v.count, short)

-- When all `n` fragments of a packet have arrived, and none with another number, in any order and any number of times, the buffer
-- gives their bytes in the order of their numbers.
pub reassemble_arrivals :
    (f : ℕ → List ℕ) (c n t : ℕ) (o : Bool) (js : List ℕ)
    → All (λ k. k < n) js
    → ((k : ℕ) → k < n → Among k js)
    → reassemble (add_all f js (new c n o t)) ≡ some (joined f 0 n)
unfolding is_complete reassemble
reassemble_arrivals f c n t o js h all =
    let b = add_all f js (new c n o t) in
    let v = add_all-Holds f c n t o js h in
    let full : length b.fragments ≡ n =
      length_full n b.fragments v.distinct v.below
        (λ k less e. not_none (v.kept k (all k less)) e) in
    let done = collect-joined f n 0 b.fragments [] (λ k lo hi. v.kept k (all k (omega arith))) in
    ground (arith, v.count, full, done)
  where
    not_none : {x : Option (List ℕ)} {y : List ℕ} → x ≡ some y → x ≡ none → ⊥
    not_none e e' = cc

-- A fragment whose number is not below the count makes the packet fail for good: when the number of
-- fragments reaches the count, nothing can be put together.
pub reassemble_foreign :
    (b : CommandFragmentBuffer) (j : ℕ) (piece : List ℕ)
    → Distinct b.fragments
    → lookup j b.fragments ≡ some piece
    → b.fragment_count ≤ j
    → reassemble b ≡ none
unfolding reassemble is_complete
reassemble_foreign b j piece d found far =
    elim (Bool-cases (length b.fragments == b.fragment_count)) [
      | inr more ↦ rw more
      | inl same ↦
          rw same (nothing (==→eq _ _ same) (collect b.fragment_count 0 b.fragments []) refl)
    ]
  where
    nothing :
        length b.fragments ≡ b.fragment_count
        → (x : Option (List ℕ)) → collect b.fragment_count 0 b.fragments [] ≡ x
        → x ≡ none
    nothing same none e = refl
    nothing same (some x) e =
        let present = λ (k : ℕ) (less : k < b.fragment_count).
          collect-present b.fragment_count 0 b.fragments [] x e k (omega arith) (omega arith) in
        let more = length-gt_foreign b.fragment_count j piece b.fragments d present far found in
        absurd (omega (arith, same, more))

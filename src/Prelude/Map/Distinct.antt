-- ===== src/Prelude/Map/Distinct.antt =====
-- Maps whose keys are distinct, as `insert` and `remove` keep them: their size counts the keys.
use Prim.Native.Nat.{ℕ, zero, suc, ◌≤◌, ◌<◌}
use mathlib.Core.Path.{◌≡◌, refl, ap}
use mathlib.Core.List.{List, [], ◌∷◌}
use mathlib.Core.Option.{none, some}
use mathlib.Core.Logic.{◌≢◌, inl, inr}
use native.Mathlib.Omega.{arith}
use bitfold.Prelude.Tests.{Option-cases}
use bitfold.Prelude.Lists.{length}
use bitfold.Prelude.Map.{lookup, insert, remove, lookup-remove, lookup-insert}

module _ {ℓ} {V : Type ℓ} where
  abbrev pub Distinct : List (ℕ × V) → Type ℓ
  Distinct [] = Unit
  Distinct ((k, v) ∷ m) = (lookup k m ≡ none) × Distinct m

  pub remove_missing : (k : ℕ) (m : List (ℕ × V)) → lookup k m ≡ none → remove k m ≡ m
  unfolding lookup remove
  remove_missing k [] h = refl
  remove_missing k ((j, v) ∷ m) h = ground (arith, remove_missing k m)

  pub remove-Distinct : (k : ℕ) (m : List (ℕ × V)) → Distinct m → Distinct (remove k m)
  unfolding remove
  remove-Distinct k [] d = tt
  remove-Distinct k ((j, v) ∷ m) d = ground (arith, remove-Distinct k m d.1, lookup-remove k j m)

  pub insert-Distinct : (k : ℕ) (v : V) (m : List (ℕ × V)) → Distinct m → Distinct (insert k v m)
  unfolding insert
  insert-Distinct k v m d = ground (arith, remove-Distinct k m d, lookup-remove k k m)

  pub length-remove_present :
      (k : ℕ) (v : V) (m : List (ℕ × V))
      → Distinct m
      → lookup k m ≡ some v
      → length m ≡ suc (length (remove k m))
  unfolding lookup remove
  length-remove_present k v [] d h = ground arith
  length-remove_present k v ((j, w) ∷ m) d h =
      ground (arith, length-remove_present k v m d.1, remove_missing k m)

  -- The keys lie below `n`.
  abbrev pub KeysBelow : ℕ → List (ℕ × V) → Type ℓ
  KeysBelow n m = (k : ℕ) (v : V) → lookup k m ≡ some v → k < n

  below_zero : (m : List (ℕ × V)) → KeysBelow 0 m → length m ≡ 0
  unfolding lookup
  below_zero [] h = refl
  below_zero ((k, v) ∷ m) h = absurd (omega (arith, h k v (ground arith)))

  remove-KeysBelow : (n : ℕ) (m : List (ℕ × V)) → KeysBelow (suc n) m → KeysBelow n (remove n m)
  remove-KeysBelow n m h k v e = ground (arith, lookup-remove n k m, h k v)

  -- There are at most `n` distinct keys below `n`.
  pub length-le_bound : (n : ℕ) (m : List (ℕ × V)) → Distinct m → KeysBelow n m → length m ≤ n
  length-le_bound zero m d h = omega (arith, below_zero m h)
  length-le_bound (suc n) m d h = elim (Option-cases (lookup n m)) [
    | inl missing ↦ omega (arith, length-le_bound n m d (λ k v e. ground (arith, h k v e, missing)))
    | inr (v, found) ↦ omega (
      arith,
      length-remove_present n v m d found,
      length-le_bound n (remove n m) (remove-Distinct n m d) (remove-KeysBelow n m h),
    )
  ]

  -- If all keys below `n` are there, there are exactly `n`.
  pub length_full :
      (n : ℕ) (m : List (ℕ × V))
      → Distinct m
      → KeysBelow n m
      → ((k : ℕ) → k < n → lookup k m ≢ none)
      → length m ≡ n
  length_full zero m d h full = below_zero m h
  length_full (suc n) m d h full = elim (Option-cases (lookup n m)) [
    | inl missing ↦ absurd (full n (omega arith) missing)
    | inr (v, found) ↦ omega (
      arith,
      length-remove_present n v m d found,
      length_full n (remove n m) (remove-Distinct n m d) (remove-KeysBelow n m h)
          (λ k less e. full k (omega arith) (ground (arith, lookup-remove n k m))),
    )
  ]

  -- If a key below `n` is missing, there are fewer.
  pub length_missing :
      (n k : ℕ) (v : V) (m : List (ℕ × V))
      → Distinct m
      → KeysBelow n m
      → k < n
      → lookup k m ≡ none
      → length m < n
  unfolding insert
  length_missing n k v m d h less missing = omega (
    arith,
    ap length (remove_missing k m missing),
    length-le_bound n (insert k v m) (insert-Distinct k v m d)
        (λ j w e. ground (arith, lookup-insert k j v m, h j w)),
  )

  -- If all keys below `n` are there, there are at least `n`, and one more if there is another key.
  pub length-ge_present :
      (n : ℕ) (m : List (ℕ × V)) → Distinct m → ((k : ℕ) → k < n → lookup k m ≢ none) → n ≤ length m
  length-ge_present zero m d full = omega arith
  length-ge_present (suc n) m d full = elim (Option-cases (lookup n m)) [
    | inl missing ↦ absurd (full n (omega arith) missing)
    | inr (v, found) ↦ omega (
      arith,
      length-remove_present n v m d found,
      length-ge_present n (remove n m) (remove-Distinct n m d)
          (λ k less e. full k (omega arith) (ground (arith, lookup-remove n k m))),
    )
  ]

  pub length-gt_foreign :
      (n j : ℕ) (v : V) (m : List (ℕ × V))
      → Distinct m
      → ((k : ℕ) → k < n → lookup k m ≢ none)
      → n ≤ j
      → lookup j m ≡ some v
      → n < length m
  length-gt_foreign n j v m d full far found = omega (
    arith,
    length-remove_present j v m d found,
    length-ge_present n (remove j m) (remove-Distinct j m d)
        (λ k less e. full k less (ground (arith, lookup-remove j k m))),
  )

-- ===== src/Codec/Checksum.antt =====
-- crates/bitfold-protocol/src/command_codec/checksum.rs. The crate `crc32fast` is a parameter: a
-- function from bytes to a `u32`.
use bitfold.Prelude.{
  ℕ, zero, suc, ◌+◌, ◌-◌, ◌*◌, ◌/◌, ◌%◌, ◌^◌, ◌≤◌, ◌<◌, ◌≡◌, refl, ap, ◌∙◌, sym, List, [], ◌∷◌,
  ◌++◌, arith, length, take, drop, length-append, length-drop, take-append, drop-append,
  take-append-drop, ltb, ◌!=◌, ltb→le, if◌then◌else◌, All, Bool-cases, inl, inr, ◌↔◌,
}
use bitfold.Codec.Bytes.{Result, ok, err, invalid_data}

-- `u32::to_be_bytes` and `u32::from_be_bytes`
abbrev pub to_be_bytes : ℕ → List ℕ
to_be_bytes v = v / 2 ^ 24 % 256 ∷ v / 2 ^ 16 % 256 ∷ v / 256 % 256 ∷ v % 256 ∷ []

-- On four bytes; there are no others where the source calls it.
abbrev pub from_be_bytes : List ℕ → ℕ
from_be_bytes (a ∷ b ∷ c ∷ d ∷ _) = a * 2 ^ 24 + b * 2 ^ 16 + c * 256 + d
from_be_bytes _ = 0

module _ (crc32 : List ℕ → ℕ) where
  unfoldable pub append_checksum : List ℕ → List ℕ
  append_checksum input = input ++ to_be_bytes (crc32 input)

  unfoldable pub append_checksum_in_place : List ℕ → List ℕ
  append_checksum_in_place input = input ++ to_be_bytes (crc32 input)

  unfoldable pub validate_and_strip_checksum : List ℕ → Result (List ℕ)
  validate_and_strip_checksum input =
      let payload = take (length input - 4) input in
      let received_checksum = from_be_bytes (drop (length input - 4) input) in
      if ltb (length input) 4
      then err invalid_data
      else if received_checksum != crc32 payload
      then err invalid_data
      else ok payload

pub from_be_bytes-to_be_bytes : (v : ℕ) → v < 2 ^ 32 → from_be_bytes (to_be_bytes v) ≡ v
from_be_bytes-to_be_bytes v h = omega arith

quarters :
    (a b c d : ℕ) (v : ℕ)
    → a < 256
    → b < 256
    → c < 256
    → d < 256
    → a * 16777216 + b * 65536 + c * 256 + d ≡ v
    → (v / 16777216 % 256 ≡ a) × (v / 65536 % 256 ≡ b) × (v / 256 % 256 ≡ c) × (v % 256 ≡ d)
quarters a b c d v ha hb hc hd e = omega arith

to_be_bytes-from_be_bytes :
    (xs : List ℕ) → length xs ≡ 4 → All (λ b. b < 256) xs → to_be_bytes (from_be_bytes xs) ≡ xs
to_be_bytes-from_be_bytes [] e h = absurd (omega arith)
to_be_bytes-from_be_bytes (a ∷ []) e h = absurd (omega arith)
to_be_bytes-from_be_bytes (a ∷ b ∷ []) e h = absurd (omega arith)
to_be_bytes-from_be_bytes (a ∷ b ∷ c ∷ []) e h = absurd (omega arith)
to_be_bytes-from_be_bytes (a ∷ b ∷ c ∷ d ∷ x ∷ xs) e h = absurd (omega arith)
to_be_bytes-from_be_bytes (a ∷ b ∷ c ∷ d ∷ []) e h =
    let (ea, eb, ec, ed) = quarters a b c d _ h.0 h.1.0 h.1.1.0 h.1.1.1.0 refl in
    rw (ea, eb, ec, ed)

All-drop : (P : ℕ → Type 0) (n : ℕ) (xs : List ℕ) → All P xs → All P (drop n xs)
All-drop P zero xs h = h
All-drop P (suc n) [] h = tt
All-drop P (suc n) (x ∷ xs) h = All-drop P n xs h.1

module _ (crc32 : List ℕ → ℕ) (crc32-lt : (xs : List ℕ) → crc32 xs < 2 ^ 32) where
  pub strip-append :
      (payload : List ℕ)
      → validate_and_strip_checksum crc32 (append_checksum crc32 payload) ≡ ok payload
  unfolding validate_and_strip_checksum append_checksum
  strip-append payload =
      let tail = to_be_bytes (crc32 payload) in
      let size : length (payload ++ tail) - 4 ≡ length payload =
        omega (arith, length-append payload tail) in
      let enough : 4 ≤ length (payload ++ tail) = omega (arith, length-append payload tail) in
      rw (size, take-append payload tail, drop-append payload tail)
        (ground (arith, from_be_bytes-to_be_bytes (crc32 payload) (crc32-lt payload), enough))

  append-strip :
      (input payload : List ℕ)
      → All (λ b. b < 256) input
      → validate_and_strip_checksum crc32 input ≡ ok payload
      → input ≡ append_checksum crc32 payload
  unfolding validate_and_strip_checksum append_checksum
  append-strip input payload h e =
      let n = length input - 4 in
      elim (Bool-cases (ltb (length input) 4)) [
        | inl short ↦ absurd (refused (rw (short, validate_and_strip_checksum) at e))
        | inr long ↦ elim (Bool-cases (from_be_bytes (drop n input) != crc32 (take n input))) [
          | inl differ ↦ absurd (refused (rw (long, differ, validate_and_strip_checksum) at e))
          | inr same ↦
              let four : length (drop n input) ≡ 4 =
                omega (arith, length-drop n input, ltb→le (length input) 4 long) in
              let crc : from_be_bytes (drop n input) ≡ crc32 (take n input) = ground arith in
              let bytes = to_be_bytes-from_be_bytes (drop n input) four (All-drop _ n input h) in
              let out : take n input ≡ payload =
                taken (rw (long, same, validate_and_strip_checksum) at e) in
              sym (take-append-drop n input)
              ∙ ap (λ r. take n input ++ r) (sym bytes ∙ ap to_be_bytes crc)
              ∙ ap (λ r. r ++ to_be_bytes (crc32 r)) out
        ]
      ]
    where
      refused : {x : List ℕ} → err invalid_data ≡ ok x → ⊥
      refused e = cc

      taken : {x y : List ℕ} → ok x ≡ ok y → x ≡ y
      taken e = cc

  -- Exactly the inputs that are a payload with its checksum appended pass the validation, and give
  -- that payload; appending in place appends the same bytes.
  pub validate_and_strip_checksum_iff :
      (input payload : List ℕ)
      → All (λ b. b < 256) input
      → ((validate_and_strip_checksum crc32 input ≡ ok payload)
          ↔ (input ≡ append_checksum crc32 payload))
        × (append_checksum_in_place crc32 payload ≡ append_checksum crc32 payload)
  unfolding append_checksum append_checksum_in_place
  validate_and_strip_checksum_iff input payload h =
      ((append-strip input payload h, λ e. rw e (strip-append payload)), refl)

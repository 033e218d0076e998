-- ===== src/Codec/Bytes.antt =====
-- What the codec takes from elsewhere: `std::io` errors and cursors, and the crate `byteorder`.
use bitfold.Prelude.{
  ℕ, ◌+◌, ◌*◌, ◌/◌, ◌%◌, ◌^◌, ◌<◌, ◌≡◌, refl, ◌⊎◌, inl, inr, Bool, List, [], ◌∷◌, ◌++◌, length,
  take, drop, ltb, if◌then◌else◌,
}

-- `io::ErrorKind`; the messages of the errors are not modelled.
pub data IoError : Type 0 where
  unexpected_eof invalid_data : IoError

pub data Result {ℓ} (A : Type ℓ) : Type ℓ where
  ok : A → Result A
  err : IoError → Result A

-- A `Cursor` is the list of the bytes from its position to its end.
abbrev pub Reader : Type 0 → Type 0
Reader A = List ℕ → Result (A × List ℕ)

abbrev pub and_then : {A B : Type 0} → Result (A × List ℕ) → (A → Reader B) → Result (B × List ℕ)
and_then (ok (a, s)) f = f a s
and_then (err e) f = err e

-- What was read, without the bytes behind it.
abbrev pub value_of : {A : Type 0} → Result (A × List ℕ) → Result A
value_of (ok (a, s)) = ok a
value_of (err e) = err e

-- The `?` operator: an error ends the read.
infixl 5 ◌>>=◌
abbrev pub ◌>>=◌ : {A B : Type 0} → Reader A → (A → Reader B) → Reader B
◌>>=◌ m f s = and_then (m s) f

abbrev pub return : {A : Type 0} → A → Reader A
return a s = ok (a, s)

abbrev pub fail : {A : Type 0} → IoError → Reader A
fail e s = err e

-- `cursor.position() < cursor.get_ref().len()`
abbrev pub has_more : Reader Bool
has_more s = ok (ltb 0 (length s), s)

-- `read_exact` into a fresh vector of `n` bytes.
unfoldable pub read_exact : ℕ → Reader (List ℕ)
read_exact n s = if ltb (length s) n then err unexpected_eof else ok (take n s, drop n s)

-- The crate `byteorder` at `BigEndian`: what each call appends to a vector, or reads of a cursor,
-- for values in the range of their type.
pub record ByteOrder : Type 0 where
  pub u8 : ℕ → List ℕ
  pub u16 : ℕ → List ℕ
  pub u32 : ℕ → List ℕ
  pub read_u8 : Reader ℕ
  pub read_u16 : Reader ℕ
  pub read_u32 : Reader ℕ
  pub u8_lem : (v : ℕ) → v < 2 ^ 8 → u8 v ≡ v ∷ []
  pub u16_lem : (v : ℕ) → v < 2 ^ 16 → u16 v ≡ v / 256 ∷ v % 256 ∷ []
  pub u32_lem :
      (v : ℕ) → v < 2 ^ 32 → u32 v ≡ v / 2 ^ 24 ∷ v / 2 ^ 16 % 256 ∷ v / 256 % 256 ∷ v % 256 ∷ []
  pub read_u8_lem : (a : ℕ) (s : List ℕ) → read_u8 (a ∷ s) ≡ ok (a, s)
  pub read_u16_lem : (a b : ℕ) (s : List ℕ) → read_u16 (a ∷ b ∷ s) ≡ ok (a * 256 + b, s)
  pub read_u32_lem :
      (a b c d : ℕ) (s : List ℕ)
      → read_u32 (a ∷ b ∷ c ∷ d ∷ s) ≡ ok (a * 2 ^ 24 + b * 2 ^ 16 + c * 256 + d, s)
  pub read_u8_eof : read_u8 [] ≡ err unexpected_eof
  pub read_u16_eof : (s : List ℕ) → length s < 2 → read_u16 s ≡ err unexpected_eof
  pub read_u32_eof : (s : List ℕ) → length s < 4 → read_u32 s ≡ err unexpected_eof

-- The writes go to a `Vec<u8>`, which cannot fail.
infixl 6 ◌▷◌
abbrev pub ◌▷◌ : List ℕ → (List ℕ → List ℕ) → List ℕ
buffer ▷ write = write buffer

module _ ⦃bytes : ByteOrder⦄ where
  abbrev pub write_u8 : ℕ → List ℕ → List ℕ
  write_u8 v buffer = buffer ++ bytes.u8 v

  abbrev pub write_u16 : ℕ → List ℕ → List ℕ
  write_u16 v buffer = buffer ++ bytes.u16 v

  abbrev pub write_u32 : ℕ → List ℕ → List ℕ
  write_u32 v buffer = buffer ++ bytes.u32 v

  abbrev pub read_u8 : Reader ℕ
  read_u8 = bytes.read_u8

  abbrev pub read_u16 : Reader ℕ
  read_u16 = bytes.read_u16

  abbrev pub read_u32 : Reader ℕ
  read_u32 = bytes.read_u32

abbrev pub write_all : List ℕ → List ℕ → List ℕ
write_all xs buffer = buffer ++ xs

pub Result-cases {ℓ} :
    {A : Type ℓ} (r : Result A) → ((e : IoError) × (r ≡ err e)) ⊎ ((a : A) × (r ≡ ok a))
Result-cases (err e) = inl (e, refl)
Result-cases (ok a) = inr (a, refl)

-- ===== src/Tests/Bytes.antt =====
-- A byte order and compressors that satisfy what the codec asks of the crates.
use bitfold.Prelude.{
  ℕ, zero, suc, ◌+◌, ◌*◌, ◌/◌, ◌%◌, ◌^◌, ◌<◌, ◌≡◌, refl, ap, sym, ◌∙◌, List, [], ◌∷◌, arith, length,
}
use bitfold.Codec.Bytes.{Reader, ByteOrder, Result, ok, err, unexpected_eof, invalid_data}
use bitfold.Codec.Compression.{Compressors, IsLossless}
use bitfold.Peer.Encode.Sealing.{NeverFails}

abbrev read_1 : Reader ℕ
read_1 (a ∷ s) = ok (a, s)
read_1 [] = err unexpected_eof

abbrev read_2 : Reader ℕ
read_2 (a ∷ b ∷ s) = ok (a * 256 + b, s)
read_2 _ = err unexpected_eof

abbrev read_4 : Reader ℕ
read_4 (a ∷ b ∷ c ∷ d ∷ s) = ok (a * 2 ^ 24 + b * 2 ^ 16 + c * 256 + d, s)
read_4 _ = err unexpected_eof

pub read_2_eof : (s : List ℕ) → length s < 2 → read_2 s ≡ err unexpected_eof
read_2_eof [] h = refl
read_2_eof (a ∷ []) h = refl
read_2_eof (a ∷ b ∷ s) h = absurd (omega arith)

pub read_4_eof : (s : List ℕ) → length s < 4 → read_4 s ≡ err unexpected_eof
read_4_eof [] h = refl
read_4_eof (a ∷ []) h = refl
read_4_eof (a ∷ b ∷ []) h = refl
read_4_eof (a ∷ b ∷ c ∷ []) h = refl
read_4_eof (a ∷ b ∷ c ∷ d ∷ s) h = absurd (omega arith)

instance abbrev pub big_endian : ByteOrder
big_endian = record {
  u8 = λ v. v ∷ [];
  u16 = λ v. v / 256 ∷ v % 256 ∷ [];
  u32 = λ v. v / 2 ^ 24 ∷ v / 2 ^ 16 % 256 ∷ v / 256 % 256 ∷ v % 256 ∷ [];
  read_u8 = read_1;
  read_u16 = read_2;
  read_u32 = read_4;
  u8_lem = λ v h. refl;
  u16_lem = λ v h. refl;
  u32_lem = λ v h. refl;
  read_u8_lem = λ a s. refl;
  read_u16_lem = λ a b s. refl;
  read_u32_lem = λ a b c d s. refl;
  read_u8_eof = refl;
  read_u16_eof = read_2_eof;
  read_u32_eof = read_4_eof;
}

-- Three zeros at the start are written as one.
abbrev shorten : List ℕ → List ℕ
shorten (zero ∷ zero ∷ zero ∷ xs) = zero ∷ xs
shorten xs = suc zero ∷ xs

abbrev lengthen : List ℕ → Result (List ℕ)
lengthen (zero ∷ xs) = ok (zero ∷ zero ∷ zero ∷ xs)
lengthen (suc a ∷ xs) = ok xs
lengthen [] = err invalid_data

lengthen-shorten : (xs : List ℕ) → lengthen (shorten xs) ≡ ok xs
lengthen-shorten [] = refl
lengthen-shorten (zero ∷ []) = refl
lengthen-shorten (zero ∷ zero ∷ []) = refl
lengthen-shorten (zero ∷ zero ∷ zero ∷ xs) = refl
lengthen-shorten (zero ∷ zero ∷ suc a ∷ xs) = refl
lengthen-shorten (zero ∷ suc a ∷ xs) = refl
lengthen-shorten (suc a ∷ xs) = refl

same_bytes : {xs ys : List ℕ} → ok xs ≡ ok ys → xs ≡ ys
same_bytes e = cc

abbrev pub compressors : Compressors
compressors = record {
  zlib_compress = λ xs. ok (shorten xs);
  zlib_decompress = lengthen;
  lz4_compress = λ xs. ok xs;
  lz4_decompress = λ xs n. ok xs;
}

pub compressors-IsLossless : IsLossless compressors
compressors-IsLossless = record {
  zlib_round_trip = λ xs ys e. ap lengthen (sym (same_bytes e)) ∙ lengthen-shorten xs;
  lz4_round_trip = λ xs ys h e. sym e;
}

pub compressors-NeverFails : NeverFails compressors
compressors-NeverFails = record { zlib = λ xs. (shorten xs, refl); lz4 = λ xs small. (xs, refl) }

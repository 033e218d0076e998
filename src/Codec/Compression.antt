-- ===== src/Codec/Compression.antt =====
-- crates/bitfold-protocol/src/command_codec/compression.rs. The crates `flate2` and `lz4` are
-- parameters.
use bitfold.Prelude.{
  ℕ, suc, ◌+◌, ◌%◌, ◌^◌, ◌≤◌, ◌<◌, ◌≡◌, refl, sym, ap, subst, ◌∙◌, Bool, false, List, [], ◌∷◌, ◌++◌,
  arith, length, drop, ltb, ◌==◌, if◌then◌else◌, Bool-cases, inl, inr, ltb→lt, le→ltb,
}
use bitfold.Core.Config.{CompressionAlgorithm, no_compression, zlib, lz4}
use bitfold.Codec.Bytes.{IoError, Result, ok, err, invalid_data}
use bitfold.Codec.Checksum.{to_be_bytes, from_be_bytes, from_be_bytes-to_be_bytes}

-- What the crates do: compression gives bytes or an error. The size handed to `lz4_decompress` is the
-- bit pattern of an `i32`.
pub record Compressors : Type 0 where
  pub zlib_compress : List ℕ → Result (List ℕ)
  pub zlib_decompress : List ℕ → Result (List ℕ)
  pub lz4_compress : List ℕ → Result (List ℕ)
  pub lz4_decompress : List ℕ → ℕ → Result (List ℕ)

-- Their documented round trips.
pub record IsLossless (c : Compressors) : Type 0 where
  pub zlib_round_trip : (xs ys : List ℕ) → c.zlib_compress xs ≡ ok ys → c.zlib_decompress ys ≡ ok xs
  pub lz4_round_trip :
      (xs ys : List ℕ)
      → length xs < 2 ^ 31
      → c.lz4_compress xs ≡ ok ys
      → c.lz4_decompress ys (length xs) ≡ ok xs

abbrev pub uncompressed : List ℕ → List ℕ
uncompressed input = 0 ∷ input

-- Only a smaller result is used.
abbrev pub zlib_output : List ℕ → Result (List ℕ) → Result (List ℕ)
zlib_output input (err e) = err e
zlib_output input (ok compressed) =
    if ltb (length compressed) (length input) then ok (1 ∷ compressed) else ok (uncompressed input)

abbrev pub lz4_output : List ℕ → Result (List ℕ) → Result (List ℕ)
lz4_output input (err e) = err e
lz4_output input (ok compressed) =
    if ltb (length compressed + 4) (length input)
    then ok (2 ∷ to_be_bytes (length input % 2 ^ 32) ++ compressed)
    else ok (uncompressed input)

module _ (c : Compressors) where
  unfoldable pub compress_by : CompressionAlgorithm → List ℕ → Result (List ℕ)
  compress_by no_compression input = ok (uncompressed input)
  compress_by zlib input = zlib_output input (c.zlib_compress input)
  compress_by lz4 input = lz4_output input (c.lz4_compress input)

  -- The buffer handed over is cleared first.
  unfoldable pub compress_with_buffer : List ℕ → CompressionAlgorithm → ℕ → List ℕ → Result (List ℕ)
  compress_with_buffer input algorithm threshold output =
      if ltb (length input) threshold then ok (uncompressed input) else compress_by algorithm input

  unfoldable pub compress : List ℕ → CompressionAlgorithm → ℕ → Result (List ℕ)
  compress input algorithm threshold = compress_with_buffer input algorithm threshold []

  unfoldable pub decompress_payload : ℕ → List ℕ → Result (List ℕ)
  decompress_payload algorithm_id payload =
      if algorithm_id == 0
      then ok payload
      else if algorithm_id == 1
      then c.zlib_decompress payload
      else if algorithm_id == 2
      then if ltb (length payload) 4
        then err invalid_data
        else c.lz4_decompress (drop 4 payload) (from_be_bytes payload)
      else err invalid_data

  unfoldable pub decompress : List ℕ → Result (List ℕ)
  decompress [] = err invalid_data
  decompress (algorithm_id ∷ payload) = decompress_payload algorithm_id payload

module _ (c : Compressors) where
  -- What comes out of a compression of `input`.
  abbrev Sound : List ℕ → Result (List ℕ) → Type 0
  Sound input (err e) = Unit
  Sound input (ok output) =
      (decompress c output ≡ ok input) × (length output ≤ length input + 1) × (0 < length output)

  uncompressed-Sound : (input : List ℕ) → Sound input (ok (uncompressed input))
  unfolding decompress decompress_payload
  uncompressed-Sound input = (refl, omega arith, omega arith)

  lz4_payload :
      (ys : List ℕ) (n : ℕ)
      → n < 2 ^ 32
      → decompress c (2 ∷ to_be_bytes n ++ ys) ≡ c.lz4_decompress ys n
  unfolding decompress decompress_payload
  lz4_payload ys n h =
      otherwise (le→ltb (suc (suc (suc (suc (length ys))))) 4 (omega arith)) (err invalid_data) _
      ∙ ap (c.lz4_decompress ys) (from_be_bytes-to_be_bytes n h)
    where
      otherwise : {b : Bool} → b ≡ false → (x y : Result (List ℕ)) → (if b then x else y) ≡ y
      otherwise e x y = rw e refl

  module _ (lossless : IsLossless c) where
    zlib-Sound :
        (input : List ℕ) (r : Result (List ℕ))
        → c.zlib_compress input ≡ r
        → Sound input (zlib_output input r)
    unfolding decompress decompress_payload
    zlib-Sound input (err e) h = tt
    zlib-Sound input (ok ys) h = elim (Bool-cases (ltb (length ys) (length input))) [
      | inl less ↦
          rw less (lossless.zlib_round_trip input ys h, omega (arith, ltb→lt _ _ less), omega arith)
      | inr more ↦ rw more (uncompressed-Sound input)
    ]

    lz4-Sound :
        (input : List ℕ) (r : Result (List ℕ))
        → length input < 2 ^ 31
        → c.lz4_compress input ≡ r
        → Sound input (lz4_output input r)
    unfolding decompress decompress_payload
    lz4-Sound input (err e) small h = tt
    lz4-Sound input (ok ys) small h = elim (Bool-cases (ltb (length ys + 4) (length input))) [
      | inl less ↦
          let fits : length input % 2 ^ 32 ≡ length input = omega arith in
          rw (less, fits)
            (
              lz4_payload ys (length input) (omega arith)
                  ∙ lossless.lz4_round_trip input ys small h,
              omega (arith, ltb→lt _ _ less),
              omega arith,
            )
      | inr more ↦ rw more (uncompressed-Sound input)
    ]

    -- A compression that succeeds, by any algorithm, at any threshold and into any buffer, gives at
    -- most one byte more than the input, and decompressing gives the input back.
    pub decompress-compress :
        (input output buffer : List ℕ) (algorithm : CompressionAlgorithm) (threshold : ℕ)
        → length input < 2 ^ 31
        → compress_with_buffer c input algorithm threshold buffer ≡ ok output
        → (decompress c output ≡ ok input) × (length output ≤ length input + 1)
    unfolding compress_with_buffer compress_by
    decompress-compress input output buffer algorithm threshold small e =
        of_result (compress_with_buffer c input algorithm threshold buffer) e
          (elim (Bool-cases (ltb (length input) threshold)) [
            | inl below ↦ rw below (uncompressed-Sound input)
            | inr above ↦ rw above (compress_by-Sound algorithm)
          ])
      where
        compress_by-Sound :
            (algorithm : CompressionAlgorithm) → Sound input (compress_by c algorithm input)
        compress_by-Sound no_compression = uncompressed-Sound input
        compress_by-Sound zlib = zlib-Sound input (c.zlib_compress input) refl
        compress_by-Sound lz4 = lz4-Sound input (c.lz4_compress input) small refl

        refused : {e : IoError} → err e ≡ ok output → ⊥
        refused e = cc

        of_result :
            (r : Result (List ℕ))
            → r ≡ ok output
            → Sound input r
            → (decompress c output ≡ ok input) × (length output ≤ length input + 1)
        of_result (err e) g h = absurd (refused g)
        of_result (ok ys) g h =
            let same : ys ≡ output = cc in
            (ap (decompress c) (sym same) ∙ h.0, subst (λ x. length x ≤ length input + 1) same h.1)

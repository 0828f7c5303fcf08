-- ===== src/Compressor/Dithering/Entries.antt =====
-- The entries that deep_inc/common/compressor/impl/dithering.cc writes and reads.
use mathlib.Core.List.{append_assoc}
use native.Mathlib.Nat.{mod-lt}
use deep_inc.Base.{
  ℕ, ◌+◌, ◌-◌, ◌^◌, ◌≤◌, ◌<◌, ◌≡◌, refl, arith, Bool, true, false, ◌==◌, if◌then◌else◌, ok, List,
  [], ◌∷◌, ◌++◌, length, length-append, Bool-cases, inl, inr,
}
use deep_inc.Compressor.Scalar.{Scalar}
use deep_inc.Compressor.Random.{Rng, u64}
use deep_inc.Compressor.Bits.{BitWriter, BitReader, put_bit}
use deep_inc.Compressor.Bits.Writer.{IsPartial}
use deep_inc.Compressor.Bits.Reader.{StandsBefore, get_bit-StandsBefore}
use deep_inc.Compressor.Elias.{elias_delta_encode}
use deep_inc.Compressor.Elias.Code.{
  Appends, Appends-trans, nothing, one_bit, code, elias_delta_encode-Appends,
}
use deep_inc.Compressor.Elias.RoundTrip.{elias_delta_decode-code}
use deep_inc.Compressor.Dithering.{
  Settings, PartitionType, linear, natural, put_entry, get_entry, compress_from, quantize,
  linear_level, natural_level,
}

-- The bits of one entry.
unfoldable pub entry_code : ℕ → Bool → ℕ → List Bool
entry_code diff sign level = code diff ++ (sign ∷ code level)

pub entry_code_pos : (diff : ℕ) (sign : Bool) (level : ℕ) → 0 < length (entry_code diff sign level)
unfolding entry_code
entry_code_pos diff sign level = omega (arith, length-append (code diff) (sign ∷ code level))

module _ (c : Scalar) where
  put_entry-Appends :
      (w diff : ℕ) (sign : Bool) (level : ℕ) (b : BitWriter)
      → IsPartial w b
      → Appends w (entry_code diff sign level) b (put_entry c w diff sign level b)
  unfolding put_entry entry_code
  put_entry-Appends w diff sign level b p =
      let first = elias_delta_encode-Appends w diff b p in
      let second = one_bit w (elias_delta_encode w b diff) sign first.fits in
      let third =
        elias_delta_encode-Appends w level (put_bit w (elias_delta_encode w b diff) sign)
          second.fits in
      Appends-trans w (code diff) (sign ∷ code level) first
        (Appends-trans w (sign ∷ []) (code level) second third)

  pub get_entry-Reads :
      (w e diff : ℕ) (sign : Bool) (level : ℕ) (rest : List Bool) (r : BitReader)
      → 0 < w
      → w ≤ 32
      → 0 < diff
      → diff < 2 ^ 32
      → 0 < level
      → level < 2 ^ 32
      → StandsBefore w e (entry_code diff sign level ++ rest) r
      → (t : BitReader) × (get_entry c w r ≡ ok ((diff, sign, level), t)) × StandsBefore w e rest t
  unfolding get_entry entry_code
  get_entry-Reads w e diff sign level rest r pos narrow dp dl lp ll s =
      let s1 : StandsBefore w e (code diff ++ (sign ∷ (code level ++ rest))) r =
        rw append_assoc at s in
      let (t1, e1, st1) =
        elias_delta_decode-code w e pos narrow diff (sign ∷ (code level ++ rest)) r dp dl s1 in
      let (t2, e2, st2) = get_bit-StandsBefore w e sign (code level ++ rest) t1 pos narrow st1 in
      let (t3, e3, st3) = elias_delta_decode-code w e pos narrow level rest t2 lp ll st2 in
      (t3, rw (e1, e2, e3) refl, st3)

  -- A level is an `unsigned`.
  pub quantize-lt :
      (p : PartitionType) (s : ℕ) (scale x : c.Num) (r : Rng)
      → (quantize c p s scale x r).0 < 2 ^ 32
  unfolding quantize linear_level natural_level
  quantize-lt linear s scale x r = mod-lt _ (omega arith)
  quantize-lt natural s scale x r = mod-lt _ (omega arith)

  module _ (o : Settings) (scale : c.Num) where
    -- The bits of the entries for a list of scalars.
    unfoldable pub stream : List c.Num → ℕ → ℕ → Rng → List Bool
    unfolding entry_code
    stream [] i last r = []
    stream (x ∷ xs) i last r =
        let (level, t) = quantize c o.ptype o.s scale x r in
        let rest = stream xs (i + 1) (if level == 0 then last else i) t in
        if level == 0
        then rest
        else entry_code (u64 (i + 2 ^ 64 - last)) (c.signbit x) level ++ rest

    abbrev level_at : c.Num → Rng → ℕ
    level_at x r = (quantize c o.ptype o.s scale x r).0

    abbrev next_rng : c.Num → Rng → Rng
    next_rng x r = (quantize c o.ptype o.s scale x r).1

    module _ (x : c.Num) (xs : List c.Num) (i last : ℕ) (r : Rng) where
      pub stream-skip :
          (level_at x r == 0) ≡ true
          → stream (x ∷ xs) i last r ≡ stream xs (i + 1) last (next_rng x r)
      unfolding stream
      stream-skip e = rw e refl

      pub stream-entry :
          (level_at x r == 0) ≡ false
          → stream (x ∷ xs) i last r
            ≡ entry_code (u64 (i + 2 ^ 64 - last)) (c.signbit x) (level_at x r)
              ++ stream xs (i + 1) i (next_rng x r)
      unfolding stream
      stream-entry e = rw e refl

      compress-skip :
          (b : BitWriter)
          → (level_at x r == 0) ≡ true
          → compress_from c o scale (x ∷ xs) i last r b
            ≡ compress_from c o scale xs (i + 1) last (next_rng x r) b
      unfolding compress_from
      compress-skip b e = rw e refl

      compress-entry :
          (b : BitWriter)
          → (level_at x r == 0) ≡ false
          → compress_from c o scale (x ∷ xs) i last r b
            ≡ compress_from c o scale xs
                (i + 1)
                i
                (next_rng x r)
                (put_entry c o.width (u64 (i + 2 ^ 64 - last)) (c.signbit x) (level_at x r) b)
      unfolding compress_from
      compress-entry b e = rw e refl

    pub compress_from-Appends :
        (src : List c.Num) (i last : ℕ) (r : Rng) (b : BitWriter)
        → IsPartial o.width b
        → Appends o.width (stream src i last r) b (compress_from c o scale src i last r b).0
    compress_from-Appends [] i last r b p = unfold compress_from stream in nothing o.width b p
    compress_from-Appends (x ∷ xs) i last r b p = elim (Bool-cases (level_at x r == 0)) [
      | inl skip ↦
          rw (stream-skip x xs i last r skip, compress-skip x xs i last r b skip)
            (compress_from-Appends xs (i + 1) last (next_rng x r) b p)
      | inr entry ↦
          let diff = u64 (i + 2 ^ 64 - last) in
          let first = put_entry-Appends o.width diff (c.signbit x) (level_at x r) b p in
          rw (stream-entry x xs i last r entry, compress-entry x xs i last r b entry)
            (Appends-trans o.width (entry_code diff (c.signbit x) (level_at x r))
              (stream xs (i + 1) i (next_rng x r)) first
              (compress_from-Appends xs (i + 1) i (next_rng x r) _ first.fits))
    ]

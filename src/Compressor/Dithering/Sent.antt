-- ===== src/Compressor/Dithering/Sent.antt =====
-- Compress and then Decompress or FastUpdateError of deep_inc/common/compressor/impl/dithering.cc.
use deep_inc.Base.{
  ℕ, ◌+◌, ◌-◌, ◌*◌, ◌%◌, ◌^◌, ◌≤◌, ◌<◌, ◌≡◌, ◌∙◌, refl, sym, ap, arith, subst, Bool, ok, List, [],
  ◌++◌, length, length-append, replicate, length-replicate, update, update_self,
}
use native.Mathlib.Nat.{mod-eq_of_lt}
use deep_inc.Compressor.Scalar.{Scalar}
use deep_inc.Compressor.Random.{Rng}
use deep_inc.Compressor.Bits.{BitWriter, bits, blocks, flush, new_writer, new_reader}
use deep_inc.Compressor.Bits.Words.{zeros, cells_from, cells_from-update, length-cells_from}
use deep_inc.Compressor.Bits.Writer.{
  written, IsPartial, words, flush-cells, bits-flush, blocks-flush, blocks-words, bits-written,
  new_writer-written,
}
use deep_inc.Compressor.Bits.Reader.{StandsBefore, new_reader-StandsBefore}
use deep_inc.Compressor.Dithering.{
  Settings, levels, compress, compress_levels, compress_from, scale_of, minus_one, decode,
  decode_from, Packed, linear, natural, decompress, fast_update_error,
}
use deep_inc.Compressor.Dithering.Entries.{stream, compress_from-Appends}
use deep_inc.Compressor.Dithering.RoundTrip.{combined, decode_from-stream}

-- The writer of `compress` before `Flush`.
abbrev pub coded : (c : Scalar) → Settings → (ℕ → ℕ) → List c.Num → Rng → BitWriter
coded c o mem src r =
    (compress_from c o (scale_of c o.ntype src) src 0 minus_one r (new_writer mem)).0

module _ (c : Scalar) (o : Settings) (mem : ℕ → ℕ) (floats : ℕ → c.Num) (src : List c.Num) (r : Rng)
    (pos : 0 < o.width) (narrow : o.width ≤ 32) (short : length src < 2 ^ 32) where
  abbrev scale : c.Num
  scale = scale_of c o.ntype src

  abbrev coder : BitWriter
  coder = coded c o mem src r

  abbrev entries : List Bool
  entries = stream c o scale src 0 minus_one r

  coder-written : (written o.width coder ≡ entries) × IsPartial o.width coder
  coder-written =
      let (none_yet, p) = new_writer-written o.width mem pos in
      let a = compress_from-Appends c o scale src 0 minus_one r (new_writer mem) p in
      (rw none_yet at a.appended, a.fits)

  decode-packed :
      (f : c.Num → c.Num → c.Num) (ds : List c.Num) (n total : ℕ) (m : ℕ → ℕ)
      → decode c o f
          (record {
            words = update m n total;
            floats = update floats (n + 1) (c.to_single scale);
            size = n + 1;
          })
          ds
        ≡ decode_from c
            (total + 1)
            o
            f
            (c.to_single scale)
            total
            minus_one
            (new_reader (update m n total))
            ds
  unfolding decode
  decode-packed f ds n total m =
      let e : n + 1 - 1 ≡ n = omega arith in
      rw (e, update_self m n total, update_self floats (n + 1) (c.to_single scale)) refl

  module _ (exact : bits o.width (coded c o mem src r) < 2 ^ 24)
      (fits : bits o.width (coded c o mem src r) < 2 ^ o.width) where
    packed_words :
        (blocks o.width (flush o.width coder) ≡ words coder)
        × (bits o.width (flush o.width coder) % 2 ^ o.width ≡ length entries)
    packed_words = (
      blocks-flush o.width coder ∙ blocks-words o.width coder coder-written.1 exact,
      rw (bits-flush o.width coder)
          (mod-eq_of_lt fits ∙ bits-written o.width coder ∙ ap length coder-written.0),
    )

    -- What is decoded from a compressed tensor combines the quantized values with the target.
    decode-compress :
        (f : c.Num → c.Num → c.Num) (ds : List c.Num)
        → length ds ≡ length src
        → decode c o f (compress_levels c o mem floats src r).0 ds
          ≡ ok (combined c o scale f (c.to_single scale) src r ds)
    unfolding compress_levels
    decode-compress f ds h =
        let b = coder in
        let n = words b in
        let total = bits o.width (flush o.width b) % 2 ^ o.width in
        let (blocks_eq, total_eq) = packed_words in
        let (m, held) = flush-cells o.width b coder-written.1 in
        let mem' = update (flush o.width b).dptr n total in
        let all : cells_from o.width mem' 0 n ≡ entries ++ zeros m =
          cells_from-update o.width (flush o.width b).dptr total n 0 n (omega arith)
          ∙ held
          ∙ ap (λ (l : List Bool). l ++ zeros m) coder-written.0 in
        let start : StandsBefore o.width n (entries ++ zeros m) (new_reader mem') =
          subst (λ (l : List Bool). StandsBefore o.width n l (new_reader mem')) all
            (new_reader-StandsBefore o.width n mem') in
        let whole : total + length (zeros m) ≡ n * o.width = omega (
          arith,
          total_eq,
          ap length all,
          length-append entries (zeros m),
          length-cells_from o.width mem' 0 n,
        ) in
        let run =
          decode_from-stream c o scale f (c.to_single scale) n total pos narrow src (total + 1)
            minus_one 0 r (new_reader mem') (zeros m) [] ds (omega (arith, total_eq))
            (omega (arith, short)) (omega arith) refl h whole start in
        decode-packed f ds (blocks o.width (flush o.width b)) total (flush o.width b).dptr
        ∙ subst
            (λ (k : ℕ).
              decode_from c (total + 1) o f (c.to_single scale) total minus_one
                (new_reader (update (flush o.width b).dptr k total)) ds
              ≡ ok (combined c o scale f (c.to_single scale) src r ds))
            (sym blocks_eq) run

    packed_round_trip :
        (corrected : List c.Num)
        → length corrected ≡ length src
        → let p = (compress_levels c o mem floats src r).0 in
          let sent = c.to_single scale in
          let blank = replicate (length src) (c.of_nat 0) in
          (decode c o (λ old num. num) p blank
            ≡ ok (combined c o scale (λ old num. num) sent src r blank))
          × (decode c o c.sub p corrected ≡ ok (combined c o scale c.sub sent src r corrected))
    packed_round_trip corrected h = (
      decode-compress (λ old num. num) (replicate (length src) (c.of_nat 0))
          (length-replicate (length src) (c.of_nat 0)),
      decode-compress c.sub corrected h,
    )

-- What the loops read of the settings: the levels of the linear partition as they are, and those of
-- the natural one for a setting between 1 and 32.
pub data HasLevels (o : Settings) : Settings → Type 0 where
  linear_levels : o.ptype ≡ linear → HasLevels o o
  natural_levels :
      o.ptype ≡ natural → 0 < o.s → o.s ≤ 32 → HasLevels o (record o { s = 2 ^ (o.s - 1) })

levels-HasLevels : (c : Scalar) (o l : Settings) → HasLevels o l → levels c o ≡ ok l
unfolding levels
levels-HasLevels c o l (linear_levels is) = rw is refl
levels-HasLevels c o l (natural_levels is low high) = ground (arith, is, low, high)

-- Takes words of 1 to 32 bits, a linear partition, or a natural one with a setting between 1 and
-- 32, whose number of levels is 2 to the setting less one; a tensor of fewer than 2 ^ 32 scalars
-- whose entries take fewer than 2 ^ 24 bits and a number of bits that fits in a word, any contents
-- of the buffer and any arithmetic of the scalars. `Compress` succeeds, and `Decompress` of what it
-- wrote gives, for each scalar whose level is not 0, its sign times the level times the sent scale
-- over the number of levels, rounded to a `float` after the product and after the quotient, and 0
-- for the others; and `FastUpdateError` subtracts the same values from a corrected gradient of the
-- same length.
pub dithering_round_trip :
    (c : Scalar) (o l : Settings) (mem : ℕ → ℕ) (floats : ℕ → c.Num) (src : List c.Num) (r : Rng)
    → HasLevels o l
    → 0 < l.width
    → l.width ≤ 32
    → length src < 2 ^ 32
    → bits l.width (coded c l mem src r) < 2 ^ 24
    → bits l.width (coded c l mem src r) < 2 ^ l.width
    → (corrected : List c.Num) → length corrected ≡ length src
    → let scale = scale_of c l.ntype src in
      let sent = c.to_single scale in
      let blank = replicate (length src) (c.of_nat 0) in
      (p : Packed c) × (t : Rng) × (compress c o mem floats src r ≡ ok (p, t))
      × (decompress c o (length src) p ≡ ok (combined c l scale (λ old num. num) sent src r blank))
      × (fast_update_error c o corrected p ≡ ok (combined c l scale c.sub sent src r corrected))
unfolding compress decompress fast_update_error
dithering_round_trip c o l mem floats src r has pos narrow short exact fits corrected h =
    let e = levels-HasLevels c o l has in
    let (a, b) = packed_round_trip c l mem floats src r pos narrow short exact fits corrected h in
    (
      (compress_levels c l mem floats src r).0,
      (compress_levels c l mem floats src r).1,
      rw e refl,
      rw e a,
      rw e b,
    )

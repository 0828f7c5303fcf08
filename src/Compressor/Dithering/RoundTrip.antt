-- ===== src/Compressor/Dithering/RoundTrip.antt =====
-- What deep_inc/common/compressor/impl/dithering.cc decompresses is what it quantized.
use mathlib.Core.List.{append_assoc}
use deep_inc.Base.{
  ℕ, zero, suc, ◌+◌, ◌-◌, ◌*◌, ◌^◌, ◌≤◌, ◌<◌, ◌≡◌, ◌∙◌, refl, sym, ap, arith, Bool, true, false,
  ltb, ◌==◌, if◌then◌else◌, ok, List, [], ◌∷◌, ◌++◌, length, length-append, Bool-cases, inl, inr,
  lt→ltb, ltb-false, get_elem?, some, set, subst,
}
use deep_inc.Compressor.Scalar.{Scalar, sign_of}
use deep_inc.Compressor.Random.{Rng, u64}
use deep_inc.Compressor.Bits.{BitReader, bits_read}
use deep_inc.Compressor.Bits.Reader.{StandsBefore, bits_read-StandsBefore}
use deep_inc.Compressor.Dithering.{Settings, quantize, decoded, modify, decode_from, get_entry}
use deep_inc.Compressor.Dithering.Entries.{
  stream, stream-skip, stream-entry, entry_code, entry_code_pos, get_entry-Reads, quantize-lt,
}

module _ {ℓ} {A : Type ℓ} where
  get_elem?-here :
      (done : List A) (d : A) (ds : List A) → get_elem? (done ++ d ∷ ds) (length done) ≡ some d
  get_elem?-here [] d ds = refl
  get_elem?-here (x ∷ done) d ds = get_elem?-here done d ds

  set-here :
      (done : List A) (d v : A) (ds : List A)
      → set (done ++ d ∷ ds) (length done) v ≡ done ++ v ∷ ds
  set-here [] d v ds = refl
  set-here (x ∷ done) d v ds = ap (λ (l : List A). x ∷ l) (set-here done d v ds)

-- `last` is before `i`, or -1.
abbrev Before : ℕ → ℕ → Type 0
Before last i = (last < 2 ^ 64) × (u64 (last + 1) ≤ i)

-- The distance between them leads from one to the other.
distance :
    (last i : ℕ)
    → Before last i
    → i < 2 ^ 32
    → let diff = u64 (i + 2 ^ 64 - last) in (0 < diff) × (diff ≤ i + 1) × (u64 (last + diff) ≡ i)
distance last i b h = omega arith

module _ (c : Scalar) (o : Settings) (scale : c.Num) (f : c.Num → c.Num → c.Num) where
  -- The sign times the level times the sent scale over the number of levels.
  abbrev pub value : c.Num → Bool → ℕ → c.Num
  value sent sign level =
      c.mul (if sign then c.sub (c.of_nat 0) (c.of_nat 1) else c.of_nat 1)
        (c.to_single (c.div (c.to_single (c.mul (c.of_nat level) sent)) (c.of_nat o.s)))

  -- The values that entries with a level other than 0 are combined with, the others staying.
  unfoldable pub combined : c.Num → List c.Num → Rng → List c.Num → List c.Num
  combined sent [] r ds = ds
  combined sent (x ∷ xs) r [] = []
  combined sent (x ∷ xs) r (d ∷ ds) =
      let (level, t) = quantize c o.ptype o.s scale x r in
      (if level == 0 then d else f d (value sent (c.signbit x) level)) ∷ combined sent xs t ds

  combined-skip :
      (sent x : c.Num) (xs : List c.Num) (r : Rng) (d : c.Num) (ds : List c.Num)
      → ((quantize c o.ptype o.s scale x r).0 == 0) ≡ true
      → combined sent (x ∷ xs) r (d ∷ ds)
        ≡ d ∷ combined sent xs (quantize c o.ptype o.s scale x r).1 ds
  unfolding combined
  combined-skip sent x xs r d ds skip = rw skip refl

  combined-entry :
      (sent x : c.Num) (xs : List c.Num) (r : Rng) (d : c.Num) (ds : List c.Num)
      → ((quantize c o.ptype o.s scale x r).0 == 0) ≡ false
      → combined sent (x ∷ xs) r (d ∷ ds)
        ≡ f d (decoded c o sent (c.signbit x) (quantize c o.ptype o.s scale x r).0)
          ∷ combined sent xs (quantize c o.ptype o.s scale x r).1 ds
  unfolding combined decoded sign_of
  combined-entry sent x xs r d ds entry = rw entry refl

  decode-stop :
      (fuel n last : ℕ) (sent : c.Num) (t : BitReader) (dst : List c.Num)
      → ltb (bits_read o.width t) n ≡ false
      → decode_from c (suc fuel) o f sent n last t dst ≡ ok dst
  unfolding decode_from
  decode-stop fuel n last sent t dst stop = rw (stop, decode_from) refl

  -- A round of the loop on the entry behind `done`.
  decode-entry :
      (fuel n last diff level : ℕ) (sign : Bool) (sent : c.Num) (t u : BitReader)
      (done : List c.Num) (d : c.Num) (ds : List c.Num)
      → ltb (bits_read o.width t) n ≡ true
      → get_entry c o.width t ≡ ok ((diff, sign, level), u)
      → u64 (last + diff) ≡ length done
      → decode_from c (suc fuel) o f sent n last t (done ++ d ∷ ds)
        ≡ decode_from c fuel o f sent n
            (length done)
            u
            (done ++ f d (decoded c o sent sign level) ∷ ds)
  unfolding decode_from modify
  decode-entry fuel n last diff level sign sent t u done d ds more answer at_done =
      rw
        (
          more,
          decode_from,
          answer,
          at_done,
          get_elem?-here done d ds,
          at_done,
          set-here done d (f d (decoded c o sent sign level)) ds,
        )
        refl

  decode-entry-at :
      (fuel n last diff level i : ℕ) (sign : Bool) (sent : c.Num) (t u : BitReader)
      (done : List c.Num) (d : c.Num) (ds : List c.Num)
      → ltb (bits_read o.width t) n ≡ true
      → get_entry c o.width t ≡ ok ((diff, sign, level), u)
      → u64 (last + diff) ≡ i
      → length done ≡ i
      → decode_from c (suc fuel) o f sent n last t (done ++ d ∷ ds)
        ≡ decode_from c fuel o f sent n i u (done ++ f d (decoded c o sent sign level) ∷ ds)
  decode-entry-at fuel n last diff level i sign sent t u done d ds more answer there hd =
      subst
        (λ (j : ℕ).
          decode_from c (suc fuel) o f sent n last t (done ++ d ∷ ds)
          ≡ decode_from c fuel o f sent n j u (done ++ f d (decoded c o sent sign level) ∷ ds))
        hd
        (decode-entry fuel n last diff level sign sent t u done d ds more answer (there ∙ sym hd))

  module _ (sent : c.Num) (e n : ℕ) (pos : 0 < o.width) (narrow : o.width ≤ 32) where
    -- The loop is at the entry `i`, before the bits that are left and some padding.
    pub decode_from-stream :
        (src : List c.Num) (fuel last i : ℕ) (r : Rng) (t : BitReader) (pad : List Bool)
        (done ds : List c.Num)
        → length (stream c o scale src i last r) < fuel
        → i + length src < 2 ^ 32
        → Before last i
        → length done ≡ i
        → length ds ≡ length src
        → n + length pad ≡ e * o.width
        → StandsBefore o.width e (stream c o scale src i last r ++ pad) t
        → decode_from c fuel o f sent n last t (done ++ ds) ≡ ok (done ++ combined sent src r ds)
    decode_from-stream src zero last i r t pad done ds hf hi hb hd hl hn s = absurd (omega arith)
    decode_from-stream [] (suc fuel) last i r t pad done ds hf hi hb hd hl hn s =
        unfold stream combined in
        let counted = bits_read-StandsBefore o.width e pad t s in
        decode-stop fuel n last sent t (done ++ ds) (ltb-false _ _ (λ p. omega arith))
    decode_from-stream (x ∷ xs) (suc fuel) last i r t pad done [] hf hi hb hd hl hn s =
        absurd (omega arith)
    decode_from-stream (x ∷ xs) (suc fuel) last i r t pad done (d ∷ ds) hf hi hb hd hl hn s =
        let level = (quantize c o.ptype o.s scale x r).0 in
        let r' = (quantize c o.ptype o.s scale x r).1 in
        let snoc = λ (v : c.Num). append_assoc done (v ∷ []) ds in
        let longer : (v : c.Num) → length (done ++ v ∷ []) ≡ i + 1 =
          λ v. omega (arith, length-append done (v ∷ [])) in
        elim (Bool-cases (level == 0)) [
          | inl skip ↦
              let same = stream-skip c o scale x xs i last r skip in
              rw
                (
                  combined-skip sent x xs r d ds skip,
                  ← snoc d,
                  ← append_assoc done (d ∷ []) (combined sent xs r' ds),
                )
                (decode_from-stream xs (suc fuel) last (i + 1) r' t pad (done ++ d ∷ []) ds
                  (rw same at hf) (omega arith) (omega arith) (longer d) (omega arith) hn
                  (rw same at s))
          | inr entry ↦
              let diff = u64 (i + 2 ^ 64 - last) in
              let sign = c.signbit x in
              let rest = stream c o scale xs (i + 1) i r' in
              let v = f d (decoded c o sent sign level) in
              let same = stream-entry c o scale x xs i last r entry in
              let (near, far, there) = distance last i hb (omega arith) in
              let (u, answer, su) =
                get_entry-Reads c o.width e diff sign level (rest ++ pad) t pos narrow near
                  (omega arith) (ground arith) (quantize-lt c o.ptype o.s scale x r)
                  (rw (same, append_assoc) at s) in
              let all = length-append (entry_code diff sign level) rest in
              let one = entry_code_pos diff sign level in
              let some_left : ltb (bits_read o.width t) n ≡ true = lt→ltb _ _ (
                omega (
                  arith,
                  bits_read-StandsBefore o.width e (stream c o scale (x ∷ xs) i last r ++ pad) t s,
                  length-append (stream c o scale (x ∷ xs) i last r) pad,
                  ap length same,
                )) in
              rw
                (
                  combined-entry sent x xs r d ds entry,
                  ← append_assoc done (v ∷ []) (combined sent xs r' ds),
                )
                (decode-entry-at fuel n last diff level i sign sent t u done d ds some_left answer
                    there hd
                  ∙ ap (decode_from c fuel o f sent n i u) (sym (snoc v))
                  ∙ decode_from-stream xs fuel i (i + 1) r' u pad (done ++ v ∷ []) ds
                      (omega (arith, ap length same)) (omega arith) (omega arith) (longer v)
                      (omega arith) hn su)
        ]

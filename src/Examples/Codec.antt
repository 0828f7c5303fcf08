-- ===== src/Examples/Codec.antt =====
-- The compressors of deep_inc/common/compressor on small tensors of whole numbers.
use deep_inc.Base.{
  ℕ, ◌+◌, ◌-◌, ◌*◌, ◌/◌, ◌≤◌, ◌<◌, ◌^◌, ◌≡◌, refl, arith, Bool, true, false, if◌then◌else◌, some,
  List, [], ◌∷◌, length, ℤ, pos, negsuc, pos_part, neg_part, ltb_ℤ, ◌==◌, leb, replicate, get_elem?,
  ok, ◌>>=◌,
}
use deep_inc.Compressor.Scalar.{Scalar, sign_of}
use deep_inc.Compressor.Random.{Rng, bernoulli}
use deep_inc.Compressor.Elias.{elias_delta_encode, elias_delta_decode}
use deep_inc.Compressor.Bits.{
  BitReader, bits, flush, put_bit, new_writer, new_reader, bits_read, get_bit, blocks, shift_in,
}
use deep_inc.Compressor.Bits.Writer.{put_all}
use deep_inc.Compressor.Bits.Stream.{get_all, get_all-put_all}
use deep_inc.Compressor.Dithering
use deep_inc.Compressor.Dithering.{linear, max}
use deep_inc.Compressor.Dithering.RoundTrip.{combined}
use deep_inc.Compressor.Dithering.Sent.{coded, HasLevels, dithering_round_trip}
use deep_inc.Compressor.Onebit
use deep_inc.Compressor.Onebit.Signs.{onebit_round_trip}
use deep_inc.Compressor.Sparse
use deep_inc.Compressor.Sparse.Kept.{chosen, randomk_split}
use deep_inc.Compressor.Feedback
use deep_inc.Compressor.Feedback.{Codec, ErrorFeedback}
use deep_inc.Compressor.Feedback.Step.{randomk_codec, Shares, feedback_step}
use deep_inc.Compressor.Registry
use deep_inc.Compressor.Registry.{Stream, KwargsMap}
use deep_inc.Compressor.Registry.Layers.{scaling, registry_layers}

abbrev diff : ℕ → ℕ → ℤ
diff a b = if leb b a then pos (a - b) else negsuc (b - a - 1)

abbrev magnitude : ℤ → ℕ
magnitude a = pos_part a + neg_part a

abbrev is_negative : ℤ → Bool
is_negative (pos n) = false
is_negative (negsuc n) = true

abbrev signed : Bool → ℕ → ℤ
signed true n = diff 0 n
signed false n = pos n

abbrev opposite : Bool → Bool → Bool
opposite true true = false
opposite true false = true
opposite false b = b

-- Whole numbers, whose quotients are cut.
abbrev whole : Scalar
whole = record {
  Num = ℤ;
  of_nat = pos;
  add = λ a b. diff (pos_part a + pos_part b) (neg_part a + neg_part b);
  sub = λ a b. diff (pos_part a + neg_part b) (neg_part a + pos_part b);
  mul = λ a b. signed (opposite (is_negative a) (is_negative b)) (magnitude a * magnitude b);
  div = λ a b. signed (opposite (is_negative a) (is_negative b)) (magnitude a / magnitude b);
  abs = λ a. pos (magnitude a);
  sqrt = λ a. a;
  floor = λ a. a;
  ceil = λ a. a;
  signbit = is_negative;
  less = ltb_ℤ;
  to_single = λ a. a;
  to_nat = magnitude;
}

abbrev blank : ℕ → ℕ
blank i = 0

get_all-put_all_example :
    let r = put_all 8 (true ∷ false ∷ true ∷ []) (new_writer blank) in
    (bits 8 r ≡ 3)
    × ((t : BitReader) × (get_all 8 3 (new_reader (flush 8 r).dptr)
          ≡ ok (true ∷ false ∷ true ∷ [], t)))
get_all-put_all_example =
    get_all-put_all 8 (true ∷ false ∷ true ∷ []) blank (omega arith) (omega arith)

abbrev eight_bit : Dithering.Settings
eight_bit = record { width = 8; s = 4; ptype = linear; ntype = max }

abbrev gradient : List ℤ
gradient = pos 4 ∷ pos 0 ∷ negsuc 3 ∷ []

abbrev nothing_there : ℕ → ℤ
nothing_there i = pos 0

abbrev seed : Rng
seed = record { a = 1; b = 1 }

code_bits : bits 8 (coded whole eight_bit blank gradient seed) ≡ 17
unfolding bits Dithering.compress_from Dithering.quantize Dithering.linear_level Dithering.scale_of
    bernoulli Dithering.put_entry elias_delta_encode put_bit new_writer
code_bits = refl

dithering_round_trip_example :
    (p : Dithering.Packed whole) × (t : Rng) × (Dithering.compress whole eight_bit blank
        nothing_there gradient seed
      ≡ ok (p, t))
    × (Dithering.decompress whole eight_bit 3 p
        ≡ ok (
            combined whole eight_bit
              (Dithering.scale_of whole max gradient)
              (λ old num. num)
              (Dithering.scale_of whole max gradient)
              gradient
              seed
              (replicate 3 (pos 0))))
    × (Dithering.fast_update_error whole eight_bit gradient p
        ≡ ok (
            combined whole eight_bit
              (Dithering.scale_of whole max gradient)
              whole.sub
              (Dithering.scale_of whole max gradient)
              gradient
              seed
              gradient))
dithering_round_trip_example =
    dithering_round_trip whole eight_bit eight_bit blank nothing_there gradient seed
      (HasLevels.linear_levels refl) (omega arith) (omega arith) (omega arith)
      (omega (arith, code_bits)) (omega (arith, code_bits)) gradient refl

-- The scalars come back, since each is a multiple of the scale over the eight_bit.
dithering_run :
    (Dithering.compress whole eight_bit blank nothing_there gradient seed >>= λ r.
    Dithering.decompress whole eight_bit 3 r.0)
    ≡ ok (pos 4 ∷ pos 0 ∷ negsuc 3 ∷ [])
unfolding Dithering.decompress Dithering.compress Dithering.compress_levels Dithering.levels
    shift_in Dithering.compress_from Dithering.quantize Dithering.linear_level bernoulli
    Dithering.put_entry elias_delta_encode put_bit new_writer flush blocks Dithering.decode_from
    Dithering.get_entry elias_delta_decode get_bit new_reader bits_read Dithering.decoded
    Dithering.modify sign_of
dithering_run = refl

abbrev scalars : ℕ → ℤ
scalars i = if i == 1 then negsuc 4 else pos i

few_chunks : Onebit.chunks 8 3 ≤ 2 ^ 31
unfolding Onebit.chunks
few_chunks = omega arith

onebit_round_trip_example :
    let p = Onebit.compress whole 8 true scalars 3 blank in
    let minus = whole.sub (pos 0) (pos 1) in
    ((t : ℕ)
      → t < 3
      → Onebit.decompress whole 8 p nothing_there t
        ≡ whole.mul (if whole.less (scalars t) (pos 0) then minus else pos 1) p.scale)
    × ((t : ℕ) → Onebit.chunks 8 3 * 8 ≤ t → Onebit.decompress whole 8 p nothing_there t ≡ pos 0)
    × ((t : ℕ)
        → t < 3
        → Onebit.fast_update_error whole 8 scalars p nothing_there t
          ≡ whole.add
              (scalars t)
              (whole.mul (if whole.less (scalars t) (pos 0) then pos 1 else minus) p.scale))
onebit_round_trip_example =
    onebit_round_trip whole 8 3 true scalars nothing_there blank (omega arith) few_chunks

randomk_split_example :
    (ps : List (Sparse.Pair whole)) × (u : Rng) × (d : List ℤ) × (e : List ℤ)
    × (Sparse.randomk_compress whole 16 1 gradient seed ≡ ok (ps, u))
    × (length ps ≡ 1)
    × (Sparse.decompress whole ps 3 ≡ ok d)
    × (Sparse.fast_update_error whole 1 gradient ps ≡ ok e)
    × (length e ≡ 3)
    × ((i : ℕ)
        → i < 3
        → (get_elem? d i ≡ (if chosen whole ps i then get_elem? gradient i else some (pos 0)))
          × (get_elem? e i ≡ (if chosen whole ps i then some (pos 0) else get_elem? gradient i)))
randomk_split_example =
    randomk_split whole gradient (omega arith) 16 (omega arith) 1 seed (omega arith)

abbrev feedback : ErrorFeedback whole (randomk_codec whole 16 1 3)
feedback = record { error = pos 1 ∷ pos 2 ∷ pos 0 ∷ []; pre_lr = pos 4; cptr = seed }

feedback_step_example :
    (ps : List (Sparse.Pair whole)) × (d : List ℤ) × (u : ErrorFeedback whole
      (randomk_codec whole 16 1 3))
    × (Feedback.compress whole (randomk_codec whole 16 1 3) (pos 2) gradient feedback
        ≡ ok (ps, Feedback.sum whole (pos 2) gradient feedback.error, u))
    × (Feedback.decompress whole (randomk_codec whole 16 1 3) ps u ≡ ok d)
    × (length u.error ≡ 3)
    × (u.pre_lr ≡ pos 2)
    × ((i : ℕ)
        → i < 3
        → Shares whole
            (get_elem? d i)
            (get_elem? u.error i)
            (get_elem? (Feedback.sum whole (pos 2) gradient feedback.error) i))
feedback_step_example =
    feedback_step whole 16 1 3 (pos 2) gradient feedback refl refl (omega arith) (omega arith)
      (omega arith)

abbrev stream : Registry.Stream whole
stream = record { num = λ t. pos 9; nat = λ t. 0; bool = λ t. true }

abbrev parameters : Registry.KwargsMap
parameters =
    ("compressor_type", "onebit")
    ∷ ("ef_type", "vanilla")
    ∷ ("momentum_type", "nesterov")
    ∷ ("momentum_mu", "0.9")
    ∷ []

registry_layers_example :
    let inner =
      Registry.error_feedback (Registry.onebit_compressor (scaling whole stream parameters)) in
    ((Registry.registry >>= λ m. Registry.create whole stream 3 m true false parameters 128 0)
      ≡ ok (some (Registry.momentum (pos 9) inner)))
    × ((Registry.registry >>= λ m. Registry.create whole stream 3 m true true parameters 128 0)
        ≡ ok (some inner))
unfolding Registry.find
registry_layers_example = registry_layers whole stream parameters 128 0 "0.9" refl refl refl refl

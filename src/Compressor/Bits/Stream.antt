-- ===== src/Compressor/Bits/Stream.antt =====
-- A BitWriter and a BitReader of deep_inc/common/compressor/utils.h on one memory are a stream of bits.
use deep_inc.Base.{
  ℕ, zero, suc, ◌≤◌, ◌<◌, ◌≡◌, refl, ap, ◌∙◌, subst, Bool, List, [], ◌∷◌, ◌++◌, length, Result, ok,
  ◌>>=◌,
}
use deep_inc.Compressor.Bits.{BitReader, get_bit, flush, bits, new_writer, new_reader}
use deep_inc.Compressor.Bits.Words.{zeros}
use deep_inc.Compressor.Bits.Writer.{
  written, put_all, put_all-written, new_writer-written, flush-cells, words, bits-written,
}
use deep_inc.Compressor.Bits.Reader.{StandsBefore, get_bit-StandsBefore, new_reader-StandsBefore}

-- A run of `Get`s.
unfoldable pub get_all : ℕ → ℕ → BitReader → Result (List Bool × BitReader)
get_all w zero r = ok ([], r)
get_all w (suc n) r = get_bit w r >>= λ (x, s). get_all w n s >>= λ (xs, t). ok (x ∷ xs, t)

get_all-StandsBefore :
    (w e : ℕ) (xs rest : List Bool) (r : BitReader)
    → 0 < w
    → w ≤ 32
    → StandsBefore w e (xs ++ rest) r
    → (t : BitReader) × (get_all w (length xs) r ≡ ok (xs, t)) × StandsBefore w e rest t
unfolding get_all
get_all-StandsBefore w e [] rest r pos narrow s = (r, refl, s)
get_all-StandsBefore w e (x ∷ xs) rest r pos narrow s =
    let (t, got, st) = get_bit-StandsBefore w e x (xs ++ rest) r pos narrow s in
    let (u, run, su) = get_all-StandsBefore w e xs rest t pos narrow st in
    (u, rw (got, run) refl, su)

-- For words of 1 to 32 bits and any contents of the memory, a `BitWriter` and a `BitReader`
-- implement a list of bits: after a run of `Put`s on a new writer `bits()` is the number of bits
-- that were put, and after `Flush` as many `Get`s on a new reader of the memory give exactly these
-- bits in order.
pub get_all-put_all :
    (w : ℕ) (xs : List Bool) (mem : ℕ → ℕ)
    → 0 < w
    → w ≤ 32
    → let r = put_all w xs (new_writer mem) in
      (bits w r ≡ length xs)
      × ((t : BitReader) × (get_all w (length xs) (new_reader (flush w r).dptr) ≡ ok (xs, t)))
get_all-put_all w xs mem pos narrow =
    let r = put_all w xs (new_writer mem) in
    let (none_yet, p) = new_writer-written w mem pos in
    let (all, q) = put_all-written w xs (new_writer mem) p in
    let held : written w r ≡ xs = rw none_yet at all in
    let (n, cells) = flush-cells w r q in
    let start : StandsBefore w (words r) (xs ++ zeros n) (new_reader (flush w r).dptr) =
      subst (λ (l : List Bool). StandsBefore w (words r) l (new_reader (flush w r).dptr))
        (cells ∙ ap (λ (l : List Bool). l ++ zeros n) held)
        (new_reader-StandsBefore w (words r) (flush w r).dptr) in
    let (t, run, st) =
      get_all-StandsBefore w (words r) xs (zeros n) (new_reader (flush w r).dptr) pos narrow
        start in
    (bits-written w r ∙ ap length held, (t, run))

-- ===== src/Common.antt =====
-- deep_inc/common/common.h and common.cc, with the command codec of deep_inc/server/server.h:
-- data types, the stages of a task, sizes and command numbers.
pub mod Alignment
pub mod Command
use deep_inc.Base.{
  ℕ, zero, suc, ◌+◌, ◌-◌, ◌*◌, ◌/◌, ◌%◌, ◌^◌, Bool, true, false, ◌||◌, ltb, leb, ◌==◌,
  if◌then◌else◌, Result, ok, fail, undefined, check_failed, check, ◌>>=◌, ◌>>◌, List, [], ◌∷◌,
}

pub data QueueType : Type 0 where
  coordinate_reduce reduce copyd2h pcie_reduce coordinate_push compress : QueueType
  push pull decompress copyh2d coordinate_broadcast broadcast : QueueType

-- The value of the enumerator.
abbrev pub queue_index : QueueType → ℕ
queue_index coordinate_reduce = 0
queue_index reduce = 1
queue_index copyd2h = 2
queue_index pcie_reduce = 3
queue_index coordinate_push = 4
queue_index compress = 5
queue_index push = 6
queue_index pull = 7
queue_index decompress = 8
queue_index copyh2d = 9
queue_index coordinate_broadcast = 10
queue_index broadcast = 11

abbrev pub queue_eq : QueueType → QueueType → Bool
queue_eq a b = queue_index a == queue_index b

-- `BYTEPS_FLOAT32` is 0, `BYTEPS_FLOAT64` 1, `BYTEPS_FLOAT16` 2, `BYTEPS_UINT8` 3,
-- `BYTEPS_INT32` 4, `BYTEPS_INT8` 5 and `BYTEPS_INT64` 6.
unfoldable pub get_data_type_length : ℕ → Result ℕ
get_data_type_length dtype =
    if dtype == 5 || dtype == 3
    then ok 1
    else if dtype == 2
    then ok 2
    else if dtype == 4 || dtype == 0
    then ok 4
    else if dtype == 6 || dtype == 1
    then ok 8
    else fail check_failed

-- `size + (min_size - size % min_size) % min_size` on `size_t`.
abbrev pub align_to : ℕ → ℕ → ℕ
align_to min_size size = (size + (min_size - size % min_size) % min_size) % 2 ^ 64

unfoldable pub align : ℕ → ℕ → Result ℕ
unfolding get_data_type_length
align size dtype = do n ← get_data_type_length dtype; ok (align_to (n * n * 8) size)

pub record DataHandleType : Type 0 where
  pub request_type : ℕ
  pub dtype : ℕ

-- `n / 2` on the 32 bits of an `int`, which rounds towards 0.
pub half_int : ℕ → ℕ
half_int n = if ltb n (2 ^ 31) then n / 2 else 2 ^ 32 - (2 ^ 32 - n) / 2

-- All in `int`, which is kept as its 32 bits. An overflow is undefined; here it wraps.
pub get_command_type : ℕ → ℕ → ℕ
get_command_type m d = (half_int ((m + d) * (m + d + 1) % 2 ^ 32) + d) % 2 ^ 32

-- The integer part of `std::sqrt`.
pub isqrt : ℕ → ℕ
isqrt zero = 0
isqrt (suc n) = let r = isqrt n in if leb ((r + 1) * (r + 1)) (suc n) then r + 1 else r

-- `floor((sqrt(8 * cmd + 1) - 1) / 2)`.
pub pair_row : ℕ → ℕ
pair_row cmd = (isqrt (8 * cmd + 1) - 1) / 2

-- `cmd` is an `int`, kept as its 32 bits. From 2 ^ 28 on `8 * cmd + 1` overflows, and a negative
-- number has no root: both are undefined. The checks guard the differences, which would fall below 0.
pub depair_data_handle_type : ℕ → Result DataHandleType
depair_data_handle_type cmd =
    let w = pair_row cmd in
    let t = (w * w + w) / 2 in
    if ltb cmd (2 ^ 28)
    then (do
      check (leb t cmd)
      let y = cmd - t
      check (leb y w)
      ok (record { request_type = w - y; dtype = y }))
    else fail undefined

-- ===== src/Common/Alignment.antt =====
-- `Align` of deep_inc/common/common.h.
use deep_inc.Base.{ℕ, ◌+◌, ◌*◌, ◌%◌, ◌^◌, ◌≤◌, ◌<◌, ◌≡◌, ok, arith}
use deep_inc.Common.{get_data_type_length, align}

-- For a size of at most 2 ^ 64 - 512 and a known data type, the aligned size is a multiple of 8
-- times the square of the element size, at least the size, and above it by less than that unit.
pub align_bounds :
    (size dtype n a : ℕ)
    → size + 512 ≤ 2 ^ 64
    → get_data_type_length dtype ≡ ok n
    → align size dtype ≡ ok a
    → (a % (n * n * 8) ≡ 0) × (size ≤ a) × (a < size + n * n * 8)
unfolding align get_data_type_length
align_bounds size dtype n a fits e h = ground arith

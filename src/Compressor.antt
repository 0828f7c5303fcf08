-- ===== src/Compressor.antt =====
-- deep_inc/common/compressor: the gradient compressors. Bits has the bit streams of utils.h, Elias the
-- codes that are written to them and Random its generator; Scalar is the arithmetic of the scalars.
pub mod Scalar
pub mod Random
pub mod Bits
pub mod Elias
pub mod Dithering
pub mod Onebit
pub mod Sparse
pub mod Registry
pub mod Feedback

-- ===== src/Compressor/Feedback.antt =====
-- The decorators of deep_inc/common/compressor: error_feedback.cc, impl/vanilla_error_feedback.cc,
-- momentum.cc and impl/nesterov_momentum.cc. The learning rate that is read from lr.s in each step is
-- an argument.
pub mod Step
use deep_inc.Base.{ℕ, List, [], ◌∷◌, Result, ok, ◌>>=◌}
use deep_inc.Compressor.Scalar.{Scalar}

-- The interface of compressor.h.
pub record Codec (c : Scalar) : Type 1 where
  pub State : Type 0
  pub Buf : Type 0
  pub compress : State → List c.Num → Result (Buf × State)
  pub decompress : State → Buf → Result (List c.Num)
  pub fast_update_error : State → List c.Num → Buf → Result (List c.Num)

module _ (c : Scalar) where
  open c use {Num, add, mul, div, to_single}

  -- `CpuReducer::sum(dst, src, len, dtype, alpha)` and the one with two sources: src1 + alpha * src2.
  unfoldable pub sum : Num → List Num → List Num → List Num
  sum alpha [] ys = []
  sum alpha (x ∷ xs) [] = []
  sum alpha (x ∷ xs) (y ∷ ys) = add x (mul alpha y) ∷ sum alpha xs ys

  module _ (inner : Codec c) where
    pub record ErrorFeedback : Type 0 where
      pub error : List Num
      pub pre_lr : Num
      pub cptr : inner.State

    -- grad += (pre_lr / cur_lr) * error, where the ratio is handed over as a `float`
    unfoldable pub update_gradient : Num → List Num → ErrorFeedback → List Num × ErrorFeedback
    unfolding sum
    update_gradient cur_lr grad s =
        (sum (to_single (div s.pre_lr cur_lr)) grad s.error, record s { pre_lr = cur_lr })

    -- e <- grad - Decompress(c)
    unfoldable pub update_error : List Num → inner.Buf → ErrorFeedback → Result ErrorFeedback
    update_error corrected compressed s =
        inner.fast_update_error s.cptr corrected compressed >>= λ e. ok (record s { error = e })

    -- `ErrorFeedback::Compress`; the gradient is changed in place.
    unfoldable pub compress :
        Num → List Num → ErrorFeedback → Result (inner.Buf × List Num × ErrorFeedback)
    unfolding update_gradient update_error
    compress cur_lr grad s =
        let (corrected, t) = update_gradient cur_lr grad s in
        inner.compress t.cptr corrected >>= λ (compressed, cptr).
        update_error corrected compressed (record t { cptr = cptr }) >>= λ u.
        ok (compressed, corrected, u)

    unfoldable pub decompress : inner.Buf → ErrorFeedback → Result (List Num)
    decompress compressed s = inner.decompress s.cptr compressed

    pub record Momentum : Type 0 where
      pub mom : List Num
      pub mu : Num
      pub cptr : inner.State

    -- m_t = mu * m_{t-1} + g_t
    unfoldable pub update_mom : List Num → Momentum → Momentum
    unfolding sum
    update_mom grad s = record s { mom = sum s.mu grad s.mom }

    -- p_t = mu * m_t + g_t
    unfoldable pub nesterov_gradient : List Num → Momentum → List Num
    unfolding sum
    nesterov_gradient grad s = sum s.mu grad s.mom

    -- `Momentum::Compress`
    unfoldable pub momentum_compress :
        List Num → Momentum → Result (inner.Buf × List Num × Momentum)
    unfolding update_mom nesterov_gradient
    momentum_compress grad s =
        let t = update_mom grad s in
        let moved = nesterov_gradient grad t in
        inner.compress t.cptr moved >>= λ (compressed, cptr).
        ok (compressed, moved, record t { cptr = cptr })

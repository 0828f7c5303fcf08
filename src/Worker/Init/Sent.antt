-- ===== src/Worker/Init/Sent.antt =====
-- What a tensor's initialization leaves and sends.
use deep_inc.Base.{ℕ, suc, ◌≡◌, ap, inl, inr, true, Option, Bool-cases, >>=-eq-ok, ok, ◌>>=◌, arith}
use deep_inc.Worker.Init.{
  Platform, Init, push_parts, init_servers, init_context, init_tensor, register,
}

init_servers-initialized :
    (p : Platform) (size dtype : ℕ) (s t : Init)
    → init_servers p size dtype s ≡ ok t
    → t.context.initialized ≡ true
unfolding init_servers
init_servers-initialized p size dtype s t run =
    let (u, pushed, run') =
      >>=-eq-ok (push_parts p dtype size (suc size) s.context.key_list 0 s) _ run in
    let (v, registered, done) = >>=-eq-ok (register p dtype u) _ run' in cc done

-- After a call of `InitTensor` that returns, a further call for the tensor with any arguments
-- returns and changes nothing.
pub init_tensor_again :
    (p : Platform) (size dtype size' dtype' : ℕ) (cpubuff cpubuff' : Option ℕ) (s t : Init)
    → init_tensor p size dtype cpubuff s ≡ ok t
    → init_tensor p size' dtype' cpubuff' t ≡ ok t
unfolding init_tensor
init_tensor_again p size dtype size' dtype' cpubuff cpubuff' s t run =
    elim (Bool-cases s.context.initialized) [
      | inl done ↦
          let same : s ≡ t = ground (arith, run, done) in
          ground (arith, ap (λ (x : Init). x.context.initialized) same, done)
      | inr fresh ↦
          let made : (init_context p size dtype cpubuff s >>= init_servers p size dtype) ≡ ok t =
            ground (arith, run, fresh) in
          let (u, e, e') =
            >>=-eq-ok (init_context p size dtype cpubuff s) (init_servers p size dtype) made in
          ground (arith, init_servers-initialized p size dtype u t e')
    ]

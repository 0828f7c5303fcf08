-- ===== src/Worker/Trace.antt =====
-- What a worker measures: the steps that are traced (`SetProfileFlag` and what it calls) and the
-- speed (`PushPullSpeed`), both of deep_inc/common/global.cc. Writing the traces to a file is left
-- out; `outputs` counts the times that it is started.
use deep_inc.Base.{
  ℕ, ◌+◌, ◌-◌, ◌/◌, Bool, true, false, ◌&&◌, ltb, leb, ◌==◌, if◌then◌else◌, Option, none, some,
  List, [], ◌∷◌, ◌++◌, length, ℤ, pos, negsuc, Result, ok, check, ◌>>=◌, ◌>>◌,
}
use deep_inc.Worker.State.{Context}

abbrev pub same_name : List ℕ → List ℕ → Bool
same_name [] [] = true
same_name [] (b ∷ bs) = false
same_name (a ∷ rest) [] = false
same_name (a ∷ rest) (b ∷ bs) = a == b && same_name rest bs

abbrev pub has_name : List (List ℕ) → List ℕ → Bool
has_name [] name = false
has_name (n ∷ ns) name = if same_name n name then true else has_name ns name

-- `_is_trace`, the first and the last step, the names of `_name2end` and `_output_counter`.
pub record Trace : Type 0 where
  pub is_trace : Bool
  pub start_step : ℕ
  pub end_step : ℕ
  pub name2end : List (List ℕ)
  pub output_counter : ℤ
  pub outputs : ℕ

abbrev up : ℤ → ℤ
up (pos n) = pos (n + 1)
up (negsuc n) = if n == 0 then pos 0 else negsuc (n - 1)

abbrev down : ℤ → ℤ
down (pos n) = if n == 0 then negsuc 0 else pos (n - 1)
down (negsuc n) = negsuc (n + 1)

abbrev is_zero : ℤ → Bool
is_zero (pos n) = n == 0
is_zero (negsuc n) = false

unfoldable pub who2be_output : Trace → List ℕ → Trace
who2be_output t name =
    if has_name t.name2end name
    then t
    else record t { name2end = name ∷ t.name2end; output_counter = up t.output_counter }

unfoldable pub is_all_tensor_output : Trace → List ℕ → Result (Bool × Trace)
is_all_tensor_output t name = do
  check (has_name t.name2end name)
  let n = down t.output_counter
  ok (is_zero n, record t { output_counter = n })

unfoldable pub set_profile_flag : Trace → Context → Result (Trace × Context)
set_profile_flag t c =
    let ended = is_all_tensor_output t c.tensor_name >>= λ r. ok (
      (if r.0 then record (r.1) { outputs = r.1.outputs + 1 } else r.1),
      record c { profile_flag = false },
    ) in
    if t.is_trace
    then (check (leb 1 t.start_step && ltb t.start_step t.end_step)
        >> (if c.step_cnt == t.start_step - 1
            then ok (who2be_output t c.tensor_name, record c { profile_flag = true })
            else if c.step_cnt == t.end_step
            then ended
            else ok (t, c)))
    else ok (t, record c { profile_flag = false })

-- An entry of the speeds. The code turns the bytes into megabytes per second over ten seconds, as a
-- floating-point number; `none` is the -5.0 of an empty queue.
pub record SpeedEntry : Type 0 where
  pub ts : ℕ
  pub bytes : Option ℕ

-- Times are in microseconds.
pub record PushPullSpeed : Type 0 where
  pub data_points : List SpeedEntry
  pub acc_size : ℕ
  pub limit : ℕ
  pub last_ts : ℕ
  pub initialized : Bool
  pub should_record : Bool

abbrev pub pop_front : List SpeedEntry → List SpeedEntry
pop_front [] = []
pop_front (x ∷ xs) = xs

-- One reading of the clock stands for the two or three that the code takes.
unfoldable pub record_speed : PushPullSpeed → ℕ → ℕ → PushPullSpeed
record_speed p now size =
    let q =
      if p.initialized then p else record p { initialized = true; acc_size = 0; last_ts = now } in
    let acc = q.acc_size + size in
    let entry : SpeedEntry = record { ts = now / 1000; bytes = some acc } in
    let points = q.data_points ++ entry ∷ [] in
    if ltb 10000000 (now - q.last_ts)
    then record q {
      data_points = if ltb q.limit (length points) then pop_front points else points;
      acc_size = 0;
      last_ts = now;
    }
    else record q { acc_size = acc }

unfoldable pub get_speed : PushPullSpeed → SpeedEntry × PushPullSpeed
get_speed p = elim p.data_points [
  | [] ↦ (record { ts = 0; bytes = none }, p)
  | e ∷ es ↦ (e, record p { data_points = es })
]

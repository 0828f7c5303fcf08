-- ===== src/Worker/Declare.antt =====
-- The tensors that a worker knows: `IsTensorDeclared`, `GetContextFromName`, `RegisterCompressor`,
-- `ReDeclareTensor` and what `Shutdown` clears of them, all of deep_inc/common/global.cc.
pub mod Resume
use deep_inc.Base.{
  ℕ, ◌+◌, ◌%◌, ◌^◌, Bool, true, false, if◌then◌else◌, Option, none, some, List, [], ◌∷◌, ◌++◌, map,
  Result, ok, fail, check_failed, or_fail, ◌>>=◌,
}
use deep_inc.Worker.State.{Context}
use deep_inc.Worker.Trace.{same_name, has_name}

-- `_name_to_cxt`, oldest first, `_declared_tensors` and `next_key_`.
pub record Declared : Type 0 where
  pub name_to_cxt : List (List ℕ × Context)
  pub declared_tensors : List (List ℕ)
  pub next_key : ℕ

abbrev pub names : List (List ℕ × Context) → List (List ℕ)
names cs = map (λ x. x.0) cs

-- What `operator[]` makes of a new name, with the fields that the function sets. A pointer that is not
-- set is 0.
unfoldable pub new_context : List ℕ → ℕ → Context
new_context name key = record {
  initialized = false;
  tensor_name = name;
  declared_key = key;
  key_list = [];
  cpubuff = 0;
  gpu_ptr = 0;
  pcie_cpubuff = [];
  buff_len = 0;
  comm_time = [];
  profile_flag = false;
  step_cnt = 0;
  local_rank = 0;
  part_comm_time = λ _ _. [];
  compressor_list = [];
  kwargs = [];
}

-- The new entry goes to the end of the list.
unfoldable pub is_tensor_declared : Declared → List ℕ → Bool × Declared
is_tensor_declared g name =
    let listed =
      if has_name g.declared_tensors name
      then g.declared_tensors
      else g.declared_tensors ++ name ∷ [] in
    if has_name (names g.name_to_cxt) name then (true, g) else (
      false,
      record {
        name_to_cxt = g.name_to_cxt ++ (name, new_context name g.next_key) ∷ [];
        declared_tensors = listed;
        next_key = (g.next_key + 1) % 2 ^ 32;
      },
    )

unfoldable pub find_context : List (List ℕ × Context) → List ℕ → Option Context
find_context [] name = none
find_context (x ∷ xs) name = if same_name x.0 name then some x.1 else find_context xs name

unfoldable pub get_context_from_name : Declared → List ℕ → Result Context
get_context_from_name g name = or_fail (find_context g.name_to_cxt name) check_failed

unfoldable pub put_kwargs :
    List (List ℕ × Context) → List ℕ → List (List ℕ × List ℕ) → List (List ℕ × Context)
put_kwargs [] name kwargs = []
put_kwargs (x ∷ xs) name kwargs =
    if same_name x.0 name
    then (x.0, record (x.1) { kwargs = kwargs }) ∷ xs
    else x ∷ put_kwargs xs name kwargs

unfoldable pub register_compressor : Declared → List ℕ → List (List ℕ × List ℕ) → Result Declared
register_compressor g name kwargs = get_context_from_name g name >>= λ c.
    ok (record g { name_to_cxt = put_kwargs g.name_to_cxt name kwargs })

-- The names are declared one after the other.
unfoldable pub declare_all : List (List ℕ) → Declared → Declared
declare_all [] g = g
declare_all (n ∷ ns) g = declare_all ns (is_tensor_declared g n).1

unfoldable pub re_declare_tensor : Declared → Declared
unfolding declare_all
re_declare_tensor g = declare_all g.declared_tensors g

-- What a suspension leaves: the contexts and the next key are cleared, the names stay.
unfoldable pub shutdown : Declared → Declared
shutdown g = record g { name_to_cxt = []; next_key = 0 }

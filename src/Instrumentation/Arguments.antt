-- ===== src/Instrumentation/Arguments.antt =====
-- argsPostProcessing of prod/native/extension/code/InternalFunctionInstrumentation.cpp: what a hook
-- on entry returns replaces arguments of the call. The slots of a frame are numbered from
-- ZEND_CALL_ARG(1); behind the variables of a user function are its temporaries.
pub mod Laws
use opentelemetry_php_distro.Prelude.{
  ℕ, zero, suc, ◌+◌, ◌-◌, ◌%◌, ◌^◌, max, Bool, true, false, List, [], ◌∷◌, Option, none, some,
  lookup, assign, nat_eq, bytes_beq, ltb, if◌then◌else◌,
}
use opentelemetry_php_distro.Otlp.Zval.{Key, text_key, index_key, Zval, undef, array, entries}

pub record Frame : Type 0 where
  pub is_internal : Bool
  pub num_args : ℕ
  pub last_var : ℕ
  pub temporaries : ℕ
  pub parameter_names : List (List ℕ)
  pub slots : List (ℕ × Zval)

-- getFunctionArgumentIndex: none is the exception.
unfoldable pub get_function_argument_index : List ℕ → List (List ℕ) → Option ℕ
get_function_argument_index name [] = none
get_function_argument_index name (n ∷ names) =
    let rest = elim (get_function_argument_index name names) as (λ _. Option ℕ) [
      | none ↦ none
      | some i ↦ some (suc i)
    ] in
    if bytes_beq name n then some 0 else rest

-- requiredArgsCount
abbrev pub required_args_count : Frame → ℕ
required_args_count f = if f.is_internal then f.num_args else f.last_var

-- The highest of the keys that are numbers, as uint32_t.
unfoldable pub highest_arg_idx : List (Key × Zval) → ℕ → ℕ
highest_arg_idx [] highest = highest
highest_arg_idx ((text_key name, v) ∷ es) highest = highest_arg_idx es highest
highest_arg_idx ((index_key i, v) ∷ es) highest = highest_arg_idx es (max highest (i % 2 ^ 32))

-- The slot of an argument that is not among the required ones.
abbrev pub extra_slot : Frame → ℕ → ℕ
extra_slot f i = if f.is_internal then i else i + f.temporaries

abbrev pub target : Frame → ℕ → ℕ → ℕ
target f required i = if ltb i required then i else extra_slot f i

-- The slots that are added are undefined.
unfoldable pub undefine : Frame → ℕ → ℕ → List (ℕ × Zval) → List (ℕ × Zval)
undefine f first zero slots = slots
undefine f first (suc n) slots = undefine f (suc first) n (assign (extra_slot f first) undef slots)

-- highestArgIdx + 1 is computed as uint32_t.
unfoldable pub extend : ℕ → Frame → Frame
unfolding undefine
extend highest f =
    let wanted = (highest + 1) % 2 ^ 32 in
    let added = wanted - f.num_args in
    if ltb f.num_args wanted
    then record f { num_args = f.num_args + added; slots = undefine f f.num_args added f.slots }
    else f

-- The argument that an entry stands for.
unfoldable pub arg_index : Frame → Key → Option ℕ
unfolding get_function_argument_index
arg_index f (text_key name) = get_function_argument_index name f.parameter_names
arg_index f (index_key i) = some i

unfoldable pub replace_args : Frame → ℕ → List (Key × Zval) → List (ℕ × Zval) → List (ℕ × Zval)
unfolding arg_index
replace_args f required [] slots = slots
replace_args f required ((k, v) ∷ es) slots = elim (arg_index f k) [
  | none ↦ replace_args f required es slots
  | some i ↦ replace_args f required es (assign (target f required i) v slots)
]

-- The engine's identity of values is a parameter.
unfoldable pub args_post_processing : (Zval → Zval → Bool) → Zval → Zval → Frame → Frame
unfolding entries highest_arg_idx extend replace_args
args_post_processing is_identical function_args (array next es) f =
    let f' = extend (highest_arg_idx (entries es) 0) f in
    let replaced = record f' {
      slots = replace_args f (required_args_count f) (entries es) f'.slots;
    } in
    if is_identical (array next es) function_args then f else replaced
args_post_processing is_identical function_args _ f = f

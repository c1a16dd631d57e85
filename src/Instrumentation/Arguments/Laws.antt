-- ===== src/Instrumentation/Arguments/Laws.antt =====
-- The arguments of an internal function after a hook on entry.
use opentelemetry_php_distro.Prelude.{
  ℕ, zero, suc, ◌+◌, ◌-◌, ◌%◌, ◌^◌, ◌≤◌, ◌<◌, max, ◌≡◌, refl, Bool, true, false, ◌&&◌, List, [],
  ◌∷◌, Option, none, some, lookup, assign, nat_eq, ltb, leb, lookup-assign, ==_iff, All, arith,
  ◌==◌, Option-cases, inl, inr, if◌then◌else◌,
}
use opentelemetry_php_distro.Otlp.Zval.{
  Key, text_key, index_key, Zval, Elements, undef, array, entries,
}
use opentelemetry_php_distro.Instrumentation.Arguments.{
  Frame, arg_index, required_args_count, target, extra_slot, highest_arg_idx, undefine, extend,
  replace_args, args_post_processing,
}

-- The value of the last entry for an argument.
unfoldable pub last_value : Frame → ℕ → List (Key × Zval) → Option Zval → Option Zval
last_value f i [] found = found
last_value f i ((k, v) ∷ es) found = elim (arg_index f k) [
  | none ↦ last_value f i es found
  | some j ↦ last_value f i es (if j == i then some v else found)
]

-- The keys that are numbers, and one more, fit a uint32_t.
abbrev pub IsIndex : Key × Zval → Type 0
IsIndex (text_key name, v) = Unit
IsIndex (index_key i, v) = i + 1 < 2 ^ 32

lookup-undefine :
    (f : Frame) (first n i : ℕ) (slots : List (ℕ × Zval))
    → f.is_internal ≡ true
    → lookup i (undefine f first n slots)
      ≡ (if leb first i && ltb i (first + n) then some undef else lookup i slots)
unfolding undefine
lookup-undefine f first zero i slots h = ground arith
lookup-undefine f first (suc n) i slots h =
    rw (lookup-undefine f (suc first) n i (assign (extra_slot f first) undef slots) h, h)
      (ground (arith, lookup-assign first i undef slots, ==_iff first i))

internal_target : (f : Frame) (required j : ℕ) → f.is_internal ≡ true → target f required j ≡ j
internal_target f required j h = rw h (ground arith)

lookup-replace_args :
    (f : Frame) (required i : ℕ) (es : List (Key × Zval)) (slots : List (ℕ × Zval))
    → f.is_internal ≡ true
    → lookup i (replace_args f required es slots) ≡ last_value f i es (lookup i slots)
unfolding replace_args last_value
lookup-replace_args f required i [] slots h = refl
lookup-replace_args f required i ((k, v) ∷ es) slots h = elim (Option-cases (arg_index f k)) [
  | inl unknown ↦
      rw (replace_args, last_value, unknown) (lookup-replace_args f required i es slots h)
  | inr (j, known) ↦ rw (
    replace_args,
    last_value,
    known,
    lookup-replace_args f required i es (assign (target f required j) v slots) h,
    lookup-assign (target f required j) i v slots,
    internal_target f required j h,
  )
]

-- An entry whose key is a number stands for an argument below a bound.
abbrev pub IsBelow : ℕ → Key × Zval → Type 0
IsBelow n (text_key name, v) = Unit
IsBelow n (index_key i, v) = i < n

IsBelow-weaken :
    (m n : ℕ) (es : List (Key × Zval)) → m ≤ n → All (IsBelow m) es → All (IsBelow n) es
IsBelow-weaken m n [] h a = tt
IsBelow-weaken m n ((text_key name, v) ∷ es) h a = (tt, IsBelow-weaken m n es h a.1)
IsBelow-weaken m n ((index_key i, v) ∷ es) h a =
    let b = a.0 in (omega arith, IsBelow-weaken m n es h a.1)

highest_arg_idx_lem :
    (es : List (Key × Zval)) (highest : ℕ)
    → highest + 1 < 2 ^ 32
    → All IsIndex es
    → (highest ≤ highest_arg_idx es highest)
      × (highest_arg_idx es highest + 1 < 2 ^ 32)
      × All (IsBelow (highest_arg_idx es highest + 1)) es
unfolding highest_arg_idx
highest_arg_idx_lem [] highest h a = (omega arith, h, tt)
highest_arg_idx_lem ((text_key name, v) ∷ es) highest h a =
    let r = highest_arg_idx_lem es highest h a.1 in (r.0, r.1, (tt, r.2))
highest_arg_idx_lem ((index_key i, v) ∷ es) highest h a =
    let b = a.0 in
    let r = highest_arg_idx_lem es (max highest (i % 2 ^ 32)) (omega arith) a.1 in
    (omega (arith, r.0), r.1, (omega (arith, r.0), r.2))

num-extend :
    (highest : ℕ) (f : Frame)
    → highest + 1 < 2 ^ 32
    → (extend highest f).num_args ≡ max f.num_args (highest + 1)
unfolding extend
num-extend highest f h = ground arith

lookup-extend :
    (highest : ℕ) (f : Frame) (i : ℕ)
    → f.is_internal ≡ true
    → highest + 1 < 2 ^ 32
    → lookup i (extend highest f).slots ≡ (
        if leb f.num_args i && ltb i (extend highest f).num_args
        then some undef
        else lookup i f.slots)
unfolding extend
lookup-extend highest f i internal h =
    let wanted = (highest + 1) % 2 ^ 32 in
    let undefined = lookup-undefine f f.num_args (wanted - f.num_args) i f.slots internal in
    ground (arith, undefined)

-- For an internal function, a returned array that is not the array of the arguments and whose
-- number keys are below 2 ^ 32 - 1 extends the call up to the highest of these keys, at least to one
-- argument, so that every number key stands for an argument of the call; each slot then has the
-- value of the last entry for it, by its number or by the parameter's name; without an entry it is
-- undefined if it was added, and otherwise as it was.
pub args_post_processing-internal :
    (is_identical : Zval → Zval → Bool) (function_args : Zval) (next : ℕ) (es : Elements)
    (f : Frame)
    → f.is_internal ≡ true
    → is_identical (array next es) function_args ≡ false
    → All IsIndex (entries es)
    → (let f' = args_post_processing is_identical function_args (array next es) f in
        (f'.num_args ≡ max f.num_args (highest_arg_idx (entries es) 0 + 1))
        × All (IsBelow f'.num_args) (entries es)
        × ((i : ℕ)
            → lookup i f'.slots
              ≡ last_value f i
                  (entries es)
                  (if leb f.num_args i && ltb i f'.num_args then some undef else lookup i f.slots)))
unfolding args_post_processing extend
args_post_processing-internal is_identical function_args next es f h new a =
    let r = highest_arg_idx_lem (entries es) 0 (omega arith) a in
    rw new (
      num-extend (highest_arg_idx (entries es) 0) f r.1,
      IsBelow-weaken (highest_arg_idx (entries es) 0 + 1)
          (extend (highest_arg_idx (entries es) 0) f).num_args (entries es)
          (omega (arith, num-extend (highest_arg_idx (entries es) 0) f r.1)) r.2,
      λ i. rw⁻¹ (lookup-extend (highest_arg_idx (entries es) 0) f i h r.1) (
          lookup-replace_args f (required_args_count f) i (entries es)
            (extend (highest_arg_idx (entries es) 0) f).slots h),
    )

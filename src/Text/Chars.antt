-- ===== src/Text/Chars.antt =====
-- CiCharTraits.h and trim of CommonUtils.h, over bytes in the "C" locale.
pub mod Laws
use opentelemetry_php_distro.Prelude.{
  ℕ, zero, suc, ◌+◌, ◌-◌, Bool, true, false, not, ◌&&◌, ◌||◌, List, [], ◌∷◌, ◌++◌, Option, none,
  some, ltb, leb, ◌==◌, length, take, drop, if◌then◌else◌,
}

-- std::toupper of an unsigned char
unfoldable pub to_upper : ℕ → ℕ
to_upper c = if leb b'a' c && leb c b'z' then c - 32 else c

-- CiCharTraits::eq
abbrev pub ci_char_eq : ℕ → ℕ → Bool
ci_char_eq c1 c2 = to_upper c1 == to_upper c2

-- CiCharTraits::compare over two sequences of n characters, as its sign: 0 for -1, 1 for 0, 2 for 1.
unfoldable pub ci_compare : List ℕ → List ℕ → ℕ → ℕ
ci_compare s1 s2 zero = 1
ci_compare [] s2 (suc n) = 1
ci_compare (c1 ∷ s1) [] (suc n) = 1
ci_compare (c1 ∷ s1) (c2 ∷ s2) (suc n) =
    let rest = ci_compare s1 s2 n in
    if ltb (to_upper c1) (to_upper c2)
    then 0
    else if ltb (to_upper c2) (to_upper c1)
    then 2
    else rest

-- operator== of istring_view: the lengths first, then compare.
unfoldable pub ci_eq : List ℕ → List ℕ → Bool
unfolding ci_compare
ci_eq s1 s2 = (length s1 == length s2) && (ci_compare s1 s2 (length s1) == 1)

-- starts_with of istring_view
unfoldable pub ci_starts_with : List ℕ → List ℕ → Bool
unfolding ci_compare
ci_starts_with s prefix =
    leb (length prefix) (length s)
    && (ci_compare (take (length prefix) s) prefix (length prefix) == 1)

-- std::isspace, which is also the set " \f\n\r\t\v" of trim
unfoldable pub is_space : ℕ → Bool
is_space c = c == 0x20 || (leb 0x09 c && leb c 0x0D)

-- find_first_not_of(space): none is npos
unfoldable pub find_first_not_space : List ℕ → Option ℕ
unfolding is_space
find_first_not_space [] = none
find_first_not_space (c ∷ s) =
    let rest = find_first_not_space s in
    if is_space c then elim rest [ none ↦ none | some i ↦ some (suc i) ] else some 0

-- find_last_not_of(space)
unfoldable pub find_last_not_space : List ℕ → Option ℕ
unfolding is_space
find_last_not_space [] = none
find_last_not_space (c ∷ s) = elim (find_last_not_space s) [
  | some i ↦ some (suc i)
  | none ↦ if is_space c then none else some 0
]

-- trim, with the lengths computed as in the source
unfoldable pub trim : List ℕ → List ℕ
unfolding find_first_not_space find_last_not_space
trim value =
    let lpos = elim (find_first_not_space value) as (λ _. ℕ) [ none ↦ 0 | some i ↦ i ] in
    let rend = elim (find_last_not_space value) as (λ _. ℕ) [ none ↦ 0 | some i ↦ i + 1 ] in
    let result_len = length value - lpos - (length value - rend) in
    if result_len == length value
    then value
    else if result_len == 0
    then []
    else take result_len (drop lpos value)

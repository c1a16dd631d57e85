-- ===== src/Text/Chars/Laws.antt =====
-- Case-insensitive comparison is equality of the upper-case texts; trim drops the white space at
-- both ends and nothing else.
use opentelemetry_php_distro.Prelude.{
  ℕ, suc, ◌+◌, ◌-◌, ◌≡◌, refl, ap, ◌↔◌, inl, inr, true, false, List, [], ◌∷◌, ◌++◌, map, none, some,
  append-nil, ◌==◌, length, length-append, take, drop, All, arith, Bool-cases, bytes_beq,
  bytes_beq_iff, if◌then◌else◌, take-append, drop-append,
}
use opentelemetry_php_distro.Text.Chars.{
  to_upper, ci_compare, ci_eq, is_space, find_first_not_space, find_last_not_space, trim,
}

ci_compare-eq :
    (s1 s2 : List ℕ)
    → length s1 ≡ length s2
    → (ci_compare s1 s2 (length s1) == 1) ≡ bytes_beq (map to_upper s1) (map to_upper s2)
unfolding ci_compare
ci_compare-eq [] [] h = refl
ci_compare-eq [] (y ∷ s2) h = absurd (omega arith)
ci_compare-eq (x ∷ s1) [] h = absurd (omega arith)
ci_compare-eq (x ∷ s1) (y ∷ s2) h = ground (arith, ci_compare-eq s1 s2)

length-map : (f : ℕ → ℕ) (s : List ℕ) → length (map f s) ≡ length s
length-map f [] = refl
length-map f (x ∷ s) = ap suc (length-map f s)

-- Two texts are equal without regard to case exactly when their upper-case texts are equal.
pub ci_eq_iff : (s1 s2 : List ℕ) → (ci_eq s1 s2 ≡ true) ↔ (map to_upper s1 ≡ map to_upper s2)
unfolding ci_eq
ci_eq_iff s1 s2 = (
  λ h. ground (arith, ci_compare-eq s1 s2, bytes_beq_iff (map to_upper s1) (map to_upper s2)),
  λ h. ground (
    arith,
    ci_compare-eq s1 s2,
    bytes_beq_iff (map to_upper s1) (map to_upper s2),
    ap length h,
    length-map to_upper s1,
    length-map to_upper s2,
  ),
)

abbrev pub AreSpaces : List ℕ → Type 0
AreSpaces s = All (λ c. is_space c ≡ true) s

-- A text that is empty, or has no white space at either end.
abbrev pub EndsSolid : List ℕ → Type 0
EndsSolid [] = ⊥
EndsSolid (c ∷ []) = is_space c ≡ false
EndsSolid (c ∷ d ∷ s) = EndsSolid (d ∷ s)

abbrev pub IsTrimmed : List ℕ → Type 0
IsTrimmed [] = Unit {0}
IsTrimmed (c ∷ s) = (is_space c ≡ false) × EndsSolid (c ∷ s)

first-spaces :
    (l : List ℕ) (c : ℕ) (s : List ℕ)
    → AreSpaces l
    → is_space c ≡ false
    → find_first_not_space (l ++ c ∷ s) ≡ some (length l)
unfolding find_first_not_space
first-spaces [] c s a h = rw h
first-spaces (x ∷ l) c s a h = rw (a.0, first-spaces l c s a.1 h)

first_none : (l : List ℕ) → AreSpaces l → find_first_not_space l ≡ none
unfolding find_first_not_space
first_none [] a = refl
first_none (x ∷ l) a = rw (a.0, first_none l a.1)

last_none : (r : List ℕ) → AreSpaces r → find_last_not_space r ≡ none
unfolding find_last_not_space
last_none [] a = refl
last_none (x ∷ r) a = rw (last_none r a.1, find_last_not_space, a.0)

last-solid :
    (s r : List ℕ) (c : ℕ)
    → EndsSolid (c ∷ s)
    → AreSpaces r
    → find_last_not_space ((c ∷ s) ++ r) ≡ some (length s)
unfolding find_last_not_space
last-solid [] r c h a = rw (last_none r a, find_last_not_space, h)
last-solid (d ∷ s) r c h a = rw (last-solid s r d h a, find_last_not_space)

last-prefix :
    (l s : List ℕ) (i : ℕ)
    → find_last_not_space s ≡ some i
    → find_last_not_space (l ++ s) ≡ some (length l + i)
unfolding find_last_not_space
last-prefix [] s i h = rw h (ground arith)
last-prefix (x ∷ l) s i h = rw (last-prefix l s i h, find_last_not_space) (ground arith)

AreSpaces-append : (l r : List ℕ) → AreSpaces l → AreSpaces r → AreSpaces (l ++ r)
AreSpaces-append [] r a b = b
AreSpaces-append (x ∷ l) r a b = (a.0, AreSpaces-append l r a.1 b)

nil_of_length : (s : List ℕ) → length s ≡ 0 → s ≡ []
nil_of_length [] h = refl
nil_of_length (x ∷ s) h = absurd (omega arith)

-- The last step of trim, when the length of the result is known.
cut_middle :
    (l r : List ℕ) (c : ℕ) (s : List ℕ)
    → (if suc (length s) == length (l ++ c ∷ (s ++ r))
        then l ++ c ∷ (s ++ r)
        else take (suc (length s)) (drop (length l) (l ++ c ∷ (s ++ r))))
      ≡ c ∷ s
cut_middle l r c s =
    let la = length-append l (c ∷ (s ++ r)) in
    let lb = length-append s r in
    elim (Bool-cases (suc (length s) == length (l ++ c ∷ (s ++ r)))) [
      | inl whole ↦
          let le : l ≡ [] = nil_of_length l (ground arith) in
          let re : r ≡ [] = nil_of_length r (ground arith) in
          rw whole (rw (le, re, append-nil) refl)
      | inr part ↦ rw (part, drop-append l (c ∷ (s ++ r))) (take-append (c ∷ s) r)
    ]

-- trim takes the white space from both ends, and from nowhere else: of leading white space, a
-- text that begins and ends with none, and trailing white space it returns the text.
pub trim_lem :
    (l core r : List ℕ)
    → AreSpaces l
    → IsTrimmed core
    → AreSpaces r
    → trim (l ++ (core ++ r)) ≡ core
unfolding trim
trim_lem l [] r a h b =
    let f = first_none (l ++ r) (AreSpaces-append l r a b) in
    let e = last_none (l ++ r) (AreSpaces-append l r a b) in
    let n : length (l ++ r) - 0 - (length (l ++ r) - 0) ≡ 0 = omega arith in
    rw (f, e, n) (ground (arith, nil_of_length (l ++ r)))
trim_lem l (c ∷ s) r a h b =
    let f = first-spaces l c (s ++ r) a h.0 in
    let e = last-prefix l ((c ∷ s) ++ r) (length s) (last-solid s r c h.1 b) in
    let la = length-append l (c ∷ (s ++ r)) in
    let lb = length-append s r in
    let total = length (l ++ c ∷ (s ++ r)) in
    let n : total - length l - (total - (length l + length s + 1)) ≡ suc (length s) = omega arith in
    let z : (suc (length s) == 0) ≡ false = ground arith in rw (f, e, n, z) (cut_middle l r c s)

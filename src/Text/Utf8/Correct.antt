-- ===== src/Text/Utf8/Correct.antt =====
-- isUtf8 accepts exactly the encodings of sequences of Unicode scalar values.
use opentelemetry_php_distro.Prelude.{
  ℕ, zero, suc, ◌+◌, ◌/◌, ◌%◌, ◌≤◌, ◌<◌, ◌≡◌, refl, ap, ◌∙◌, ◌↔◌, ◌⊎◌, inl, inr, true, false, List,
  [], ◌∷◌, ◌++◌, ltb, length, length-append, drop, arith, All, AreBytes, Bool-cases,
}
use opentelemetry_php_distro.Text.Utf8.{following, multibyte, utf8_loop, is_utf8}
use opentelemetry_php_distro.Text.Utf8.Bits.{following_order}
use opentelemetry_php_distro.Text.Utf8.Scalar.{IsScalar, encode, encode_all}
use opentelemetry_php_distro.Text.Utf8.Sequences.{
  two, Two-multibyte, three, Three-multibyte, four, Four-multibyte, Two-encode, Three-encode,
  Four-encode,
}

-- The condition under which an iteration goes on, and where it goes on.
abbrev Sequence : ℕ → List ℕ → Type 0
Sequence c rest = (u : ℕ) × IsScalar u × (c ∷ rest ≡ encode u ++ drop (following c) rest)

multibyte_range :
    (c : ℕ) (rest : List ℕ)
    → multibyte c rest ≡ true
    → (0xC0 ≤ c) × (c < 0xF5) × (following c ≤ length rest)
unfolding multibyte
multibyte_range c rest m = ground arith

-- The number of following bytes, by ranges of the first byte.
abbrev Leads : ℕ → Type 0
Leads c =
    ((c < 0xE0) × (following c ≡ 1))
    ⊎ ((0xE0 ≤ c) × (c < 0xF0) × (following c ≡ 2))
    ⊎ ((0xF0 ≤ c) × (following c ≡ 3))

leads : (c : ℕ) → 0xC0 ≤ c → c < 0xF5 → Leads c
leads c h k = ground (arith, following_order c)

encode-Sequence :
    (c : ℕ) (xs rest : List ℕ)
    → (u : ℕ) × IsScalar u × (encode u ≡ c ∷ xs)
    → drop (following c) (xs ++ rest) ≡ rest
    → Sequence c (xs ++ rest)
encode-Sequence c xs rest (u, su, e) d = (u, su, rw (e, d) refl)

multibyte-Sequence :
    (c : ℕ) (rest : List ℕ) → AreBytes rest → multibyte c rest ≡ true → Sequence c rest
multibyte-Sequence c rest bs m =
    go rest bs m (multibyte_range c rest m)
      (leads c (multibyte_range c rest m).0 (multibyte_range c rest m).1)
  where
    go :
        (rest : List ℕ)
        → AreBytes rest
        → multibyte c rest ≡ true
        → (0xC0 ≤ c) × (c < 0xF5) × (following c ≤ length rest)
        → Leads c
        → Sequence c rest
    go [] bs m r l = absurd (omega arith)
    go (d ∷ s) bs m r (inl l) =
        encode-Sequence c (d ∷ []) s (Two-encode c d (two c d s r.0 l.0 bs.0 m)) (rw l.1)
    go (d ∷ []) bs m r (inr l) = absurd (omega arith)
    go (d ∷ e ∷ s) bs m r (inr (inl l)) =
        encode-Sequence c (d ∷ e ∷ []) s (Three-encode c d e (three c d e s l.0 l.1 bs.0 bs.1.0 m))
          (rw l.2)
    go (d ∷ e ∷ []) bs m r (inr (inr l)) = absurd (omega arith)
    go (d ∷ e ∷ f ∷ s) bs m r (inr (inr l)) =
        encode-Sequence c (d ∷ e ∷ f ∷ []) s
          (Four-encode c d e f (four c d e f s l.0 r.1 bs.0 bs.1.0 bs.1.1.0 m)) (rw l.1)

drop_bytes : (n : ℕ) (s : List ℕ) → AreBytes s → AreBytes (drop n s)
drop_bytes zero s b = b
drop_bytes (suc n) [] b = b
drop_bytes (suc n) (x ∷ s) b = drop_bytes n s b.1

-- A byte below 0x80 is its own encoding.
encode_ascii : (c : ℕ) → ltb c 0x80 ≡ true → IsScalar c × (encode c ≡ c ∷ [])
encode_ascii c h = ground arith

loop_sound :
    (fuel : ℕ) (s : List ℕ)
    → AreBytes s
    → utf8_loop fuel s ≡ true
    → (us : List ℕ) × All IsScalar us × (s ≡ encode_all us)
unfolding utf8_loop
loop_sound fuel [] b h = ([], tt, refl)
loop_sound zero (c ∷ rest) b h = cc
loop_sound (suc fuel) (c ∷ rest) b h = elim (Bool-cases (ltb c 0x80)) [
  | inl ascii ↦
      let (us, su, e) = loop_sound fuel rest b.1 (rw (ascii, utf8_loop) at h) in
      let (sc, ec) = encode_ascii c ascii in (c ∷ us, (sc, su), rw (ec, e) refl)
  | inr more ↦ elim (Bool-cases (multibyte c rest)) [
    | inl ok ↦
        let (u, sc, ec) = multibyte-Sequence c rest b.1 ok in
        let (us, su, e) =
          loop_sound fuel (drop (following c) rest) (drop_bytes (following c) rest b.1)
            (rw (more, ok, utf8_loop) at h) in
        (u ∷ us, (sc, su), ec ∙ ap (◌++◌ (encode u)) e)
    | inr bad ↦ let bot : false ≡ true = rw (more, bad, utf8_loop) at h in cc
  ]
]

-- One iteration of the loop over a multi-byte sequence that is accepted.
loop_step :
    (fuel c : ℕ) (xs rest : List ℕ)
    → 0x80 ≤ c
    → multibyte c (xs ++ rest) ≡ true
    → drop (following c) (xs ++ rest) ≡ rest
    → utf8_loop (suc fuel) (c ∷ xs ++ rest) ≡ utf8_loop fuel rest
unfolding utf8_loop
loop_step fuel c xs rest h m d =
    let more : ltb c 0x80 ≡ false = ground arith in rw (more, utf8_loop, m, d)

-- One iteration over the encoding of any scalar value.
loop_encode :
    (fuel u : ℕ) (rest : List ℕ)
    → IsScalar u
    → utf8_loop (suc fuel) (encode u ++ rest) ≡ utf8_loop fuel rest
unfolding utf8_loop
loop_encode fuel u rest su = elim (Bool-cases (ltb u 0x80)) [
  | inl ascii ↦ rw (ascii, utf8_loop, ascii)
  | inr more ↦ elim (Bool-cases (ltb u 0x800)) [
    | inl h2 ↦
        let c = 0xC0 + u / 0x40 in
        let d = 0x80 + u % 0x40 in
        let l : following c ≡ 1 = ground (arith, following_order c) in
        rw (more, h2)
          (loop_step fuel c (d ∷ []) rest (omega arith) (Two-multibyte c d rest (ground arith))
            (rw l))
    | inr h3 ↦ elim (Bool-cases (ltb u 0x10000)) [
      | inl h4 ↦
          let c = 0xE0 + u / 0x1000 in
          let d = 0x80 + u / 0x40 % 0x40 in
          let e = 0x80 + u % 0x40 in
          let l : following c ≡ 2 = ground (arith, following_order c) in
          rw (more, h3, h4)
            (loop_step fuel c (d ∷ e ∷ []) rest (omega arith)
              (Three-multibyte c d e rest (ground arith)) (rw l))
      | inr h5 ↦
          let c = 0xF0 + u / 0x40000 in
          let d = 0x80 + u / 0x1000 % 0x40 in
          let e = 0x80 + u / 0x40 % 0x40 in
          let f = 0x80 + u % 0x40 in
          let l : following c ≡ 3 = ground (arith, following_order c) in
          rw (more, h3, h5)
            (loop_step fuel c (d ∷ e ∷ f ∷ []) rest (omega arith)
              (Four-multibyte c d e f rest (ground arith)) (rw l))
    ]
  ]
]

length-encode : (u : ℕ) → 1 ≤ length (encode u)
length-encode u = ground arith

loop_complete :
    (fuel : ℕ) (us : List ℕ)
    → length (encode_all us) ≤ fuel
    → All IsScalar us
    → utf8_loop fuel (encode_all us) ≡ true
unfolding utf8_loop
loop_complete zero [] h a = refl
loop_complete (suc fuel) [] h a = refl
loop_complete zero (u ∷ us) h a =
    absurd (omega (arith, length-append (encode u) (encode_all us), length-encode u))
loop_complete (suc fuel) (u ∷ us) h a =
    loop_encode fuel u (encode_all us) a.0
    ∙ loop_complete fuel us
        (omega (arith, length-append (encode u) (encode_all us), length-encode u)) a.1

-- On a string of bytes, isUtf8 returns true exactly when the string is the concatenation of the
-- encodings of Unicode scalar values: code points below 0x110000 that are no surrogates.
pub is_utf8_correct :
    (s : List ℕ)
    → AreBytes s
    → (is_utf8 s ≡ true) ↔ ((us : List ℕ) × All IsScalar us × (s ≡ encode_all us))
unfolding is_utf8
is_utf8_correct s b = (
  loop_sound (length s) s b,
  λ (us, su, e). rw e (loop_complete (length (encode_all us)) us (omega arith) su),
)

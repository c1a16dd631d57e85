-- ===== src/Prelude/Dict.antt =====
-- The maps of the source (std::unordered_map, std::map): association lists whose keys have a
-- Boolean equality. The order of the entries is not observable through these operations.
use Prim.Native.Nat.{ℕ}
use mathlib.Core.Path.{◌≡◌, refl, subst}
use mathlib.Core.Logic.{◌↔◌, inl, inr}
use mathlib.Core.Bool.{Bool, true, false, ◌&&◌}
use mathlib.Core.Option.{Option, none, some}
use mathlib.Core.List.{List, [], ◌∷◌}
use native.Mathlib.Omega.{arith}
use opentelemetry_php_distro.Prelude.Tests.{◌==◌ as nat_beq, ==_iff, if◌then◌else◌, Bool-cases}

pub record Eq {ℓ} (A : Type ℓ) : Type ℓ where
  pub beq : A → A → Bool
  pub beq_iff : (a b : A) → (beq a b ≡ true) ↔ (a ≡ b)

instance abbrev pub nat_eq : Eq ℕ
nat_eq = record { beq = nat_beq; beq_iff = ==_iff }

-- Equality of byte strings.
abbrev pub bytes_beq : List ℕ → List ℕ → Bool
bytes_beq [] [] = true
bytes_beq [] (y ∷ ys) = false
bytes_beq (x ∷ xs) [] = false
bytes_beq (x ∷ xs) (y ∷ ys) = nat_beq x y && bytes_beq xs ys

pub bytes_beq_iff : (xs ys : List ℕ) → (bytes_beq xs ys ≡ true) ↔ (xs ≡ ys)
bytes_beq_iff [] [] = (λ _. refl, λ _. refl)
bytes_beq_iff [] (y ∷ ys) = (λ h. cc, λ h. cc)
bytes_beq_iff (x ∷ xs) [] = (λ h. cc, λ h. cc)
bytes_beq_iff (x ∷ xs) (y ∷ ys) = ground (arith, bytes_beq_iff xs ys)

instance abbrev pub bytes_eq : Eq (List ℕ)
bytes_eq = record { beq = bytes_beq; beq_iff = bytes_beq_iff }

module _ {ℓ κ} {K : Type κ} {V : Type ℓ} ⦃e : Eq K⦄ where
  -- m.find(k)
  abbrev pub lookup : K → List (K × V) → Option V
  lookup k [] = none
  lookup k ((j, v) ∷ m) = if e.beq j k then some v else lookup k m

  -- m[k] = v, m.insert_or_assign(k, v)
  abbrev pub assign : K → V → List (K × V) → List (K × V)
  assign k v [] = (k, v) ∷ []
  assign k v ((j, w) ∷ m) = if e.beq j k then (k, v) ∷ m else (j, w) ∷ assign k v m

  -- m.emplace(k, v), m.insert({k, v}): an entry that is there stays.
  abbrev pub emplace : K → V → List (K × V) → List (K × V)
  emplace k v [] = (k, v) ∷ []
  emplace k v ((j, w) ∷ m) = if e.beq j k then (j, w) ∷ m else (j, w) ∷ emplace k v m

  -- m.erase(k)
  abbrev pub erase : K → List (K × V) → List (K × V)
  erase k [] = []
  erase k ((j, w) ∷ m) = if e.beq j k then erase k m else (j, w) ∷ erase k m

pub beq_refl {κ} : {K : Type κ} ⦃e : Eq K⦄ → (k : K) → e.beq k k ≡ true
beq_refl ⦃e⦄ k = (e.beq_iff k k).1 refl

module _ {ℓ κ} {K : Type κ} {V : Type ℓ} ⦃e : Eq K⦄ where
  pub lookup-assign :
      (k j : K) (v : V) (m : List (K × V))
      → lookup j (assign k v m) ≡ (if e.beq k j then some v else lookup j m)
  lookup-assign k j v [] = refl
  lookup-assign k j v ((i, w) ∷ m) =
      ground (arith, e.beq_iff k j, e.beq_iff i k, e.beq_iff i j, lookup-assign k j v m)

  pub lookup-erase :
      (k j : K) (m : List (K × V)) → lookup j (erase k m) ≡ (if e.beq k j then none else lookup j m)
  lookup-erase k j [] = ground arith
  lookup-erase k j ((i, w) ∷ m) =
      ground (arith, e.beq_iff k j, e.beq_iff i k, e.beq_iff i j, lookup-erase k j m)

  pub lookup-emplace :
      (k j : K) (v : V) (m : List (K × V))
      → lookup j (emplace k v m)
        ≡ elim (lookup j m) [ none ↦ if e.beq k j then some v else none | some w ↦ some w ]
  lookup-emplace k j v [] = refl
  lookup-emplace k j v ((i, w) ∷ m) =
      ground (arith, e.beq_iff k j, e.beq_iff i k, e.beq_iff i j, lookup-emplace k j v m)

-- Keys stand once, as in the maps of the source.
module _ {ℓ κ} {K : Type κ} {V : Type ℓ} ⦃e : Eq K⦄ where
  abbrev pub Distinct : List (K × V) → Type ℓ
  Distinct [] = Unit
  Distinct ((k, v) ∷ m) = (lookup k m ≡ none) × Distinct m

module _ {ℓ κ} {K : Type κ} {V : Type ℓ} ⦃e : Eq K⦄ where
  pub assign-Distinct : (k : K) (v : V) (m : List (K × V)) → Distinct m → Distinct (assign k v m)
  assign-Distinct k v [] d = (refl, tt)
  assign-Distinct k v ((j, w) ∷ m) d =
      ground (arith, e.beq_iff j k, e.beq_iff k j, lookup-assign k j v m, assign-Distinct k v m d.1)

  pub emplace-Distinct : (k : K) (v : V) (m : List (K × V)) → Distinct m → Distinct (emplace k v m)
  emplace-Distinct k v [] d = (refl, tt)
  emplace-Distinct k v ((j, w) ∷ m) d =
      ground
        (arith, e.beq_iff j k, e.beq_iff k j, lookup-emplace k j v m, emplace-Distinct k v m d.1)

  pub erase-Distinct : (k : K) (m : List (K × V)) → Distinct m → Distinct (erase k m)
  erase-Distinct k [] d = tt
  erase-Distinct k ((j, w) ∷ m) d =
      ground (arith, e.beq_iff j k, e.beq_iff k j, lookup-erase k j m, erase-Distinct k m d.1)

-- A property of every value.
module _ {ℓ κ μ} {K : Type κ} {V : Type ℓ} where
  abbrev pub AllValues : (V → Type μ) → List (K × V) → Type μ
  AllValues P [] = Unit
  AllValues P ((k, v) ∷ m) = P v × AllValues P m

module _ {ℓ κ μ} {K : Type κ} {V : Type ℓ} ⦃e : Eq K⦄ (P : V → Type μ) where
  pub assign-AllValues :
      (k : K) (v : V) (m : List (K × V)) → P v → AllValues P m → AllValues P (assign k v m)
  assign-AllValues k v [] p a = (p, tt)
  assign-AllValues k v ((j, w) ∷ m) p a = ground (arith, assign-AllValues k v m p a.1)

  pub emplace-AllValues :
      (k : K) (v : V) (m : List (K × V)) → P v → AllValues P m → AllValues P (emplace k v m)
  emplace-AllValues k v [] p a = (p, tt)
  emplace-AllValues k v ((j, w) ∷ m) p a = ground (arith, emplace-AllValues k v m p a.1)

  pub erase-AllValues : (k : K) (m : List (K × V)) → AllValues P m → AllValues P (erase k m)
  erase-AllValues k [] a = tt
  erase-AllValues k ((j, w) ∷ m) a = ground (arith, erase-AllValues k m a.1)

  pub lookup-AllValues :
      (k : K) (m : List (K × V)) (v : V) → AllValues P m → lookup k m ≡ some v → P v
  lookup-AllValues k [] v a h = absurd (cc)
  lookup-AllValues k ((j, w) ∷ m) v a h = elim (Bool-cases (e.beq j k)) [
    | inl hit ↦ let e : w ≡ v = ground arith in subst P e a.0
    | inr miss ↦ lookup-AllValues k m v a.1 (rw miss at h)
  ]

pub ruleset dict_laws = (lookup-assign, lookup-erase, lookup-emplace, beq_refl)

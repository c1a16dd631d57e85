-- ===== src/Coordinator/SharedConfig/Laws.antt =====
-- Histories of stores, and what a worker is given after them.
use opentelemetry_php_distro.Prelude.{
  ℕ, suc, ◌+◌, ◌≤◌, ◌<◌, ◌≡◌, refl, ap, ◌∙◌, List, [], ◌∷◌, Option, none, some, lookup, emplace,
  All, inl, inr, Bool-cases, bytes_beq, bytes_eq, Distinct, lookup-emplace, word_mod, arith,
  if◌then◌else◌,
}
use opentelemetry_php_distro.Coordinator.SharedConfig.{
  Files, SharedData, insert_or_assign, insert_or_assign_all, bytes_less, store_config_files, c_str,
  emplace_all, get_configuration, trigger_update_if_changed,
}

-- A history of the coordinator's stores, and their number.
unfoldable pub store_all : List Files → SharedData → SharedData
store_all [] d = d
store_all (files ∷ rest) d = store_all rest (store_config_files files d)

unfoldable pub count : List Files → ℕ
count [] = 0
count (files ∷ rest) = suc (count rest)

abbrev pub or_else : Option (List ℕ) → Option (List ℕ) → Option (List ℕ)
or_else (some x) y = some x
or_else none y = y

lookup-insert_or_assign :
    (name key content : List ℕ) (m : Files)
    → lookup key (insert_or_assign name content m)
      ≡ (if bytes_beq name key then some content else lookup key m)
unfolding insert_or_assign
lookup-insert_or_assign name key content [] = refl
lookup-insert_or_assign name key content ((n, c) ∷ m) = ground (
  arith,
  bytes_eq.beq_iff name key,
  bytes_eq.beq_iff n name,
  bytes_eq.beq_iff n key,
  lookup-insert_or_assign name key content m,
)

lookup-insert_or_assign_all :
    (name : List ℕ) (files m : Files)
    → Distinct files
    → lookup name (insert_or_assign_all files m) ≡ or_else (lookup name files) (lookup name m)
unfolding insert_or_assign_all
lookup-insert_or_assign_all name [] m d = refl
lookup-insert_or_assign_all name ((key, content) ∷ files) m d = ground (
  arith,
  lookup-insert_or_assign_all name files (insert_or_assign key content m) d.1,
  lookup-insert_or_assign key name content m,
  bytes_eq.beq_iff key name,
)

-- Texts without NUL.
abbrev pub IsCString : List ℕ → Type 0
IsCString s = c_str s ≡ s

abbrev pub AreCStrings : Files → Type 0
AreCStrings [] = Unit
AreCStrings ((name, content) ∷ files) = IsCString name × IsCString content × AreCStrings files

insert_or_assign-AreCStrings :
    (name content : List ℕ) (m : Files)
    → IsCString name
    → IsCString content
    → AreCStrings m
    → AreCStrings (insert_or_assign name content m)
unfolding insert_or_assign
insert_or_assign-AreCStrings name content [] i j a = (i, j, tt)
insert_or_assign-AreCStrings name content ((n, c) ∷ m) i j a =
    elim (Bool-cases (bytes_beq n name)) [
      | inl hit ↦ rw hit (i, j, a.2)
      | inr miss ↦ elim (Bool-cases (bytes_less name n)) [
        | inl less ↦ rw (miss, less) (i, j, a)
        | inr more ↦ rw (miss, more) (a.0, a.1, insert_or_assign-AreCStrings name content m i j a.2)
      ]
    ]

insert_or_assign_all-AreCStrings :
    (files m : Files)
    → AreCStrings files
    → AreCStrings m
    → AreCStrings (insert_or_assign_all files m)
unfolding insert_or_assign_all
insert_or_assign_all-AreCStrings [] m a b = b
insert_or_assign_all-AreCStrings ((name, content) ∷ files) m a b =
    insert_or_assign_all-AreCStrings files (insert_or_assign name content m) a.2
      (insert_or_assign-AreCStrings name content m a.0 a.1 b)

lookup-emplace_all :
    (name : List ℕ) (files result : Files)
    → AreCStrings files
    → lookup name (emplace_all files result) ≡ or_else (lookup name result) (lookup name files)
unfolding emplace_all
lookup-emplace_all name [] result a = ground arith
lookup-emplace_all name ((key, content) ∷ files) result a =
    let same = lookup-emplace_all name files (emplace key content result) a.2 in
    rw (a.0, a.1) (ground (arith, same, lookup-emplace key name content result))

store_all-revision :
    (history : List Files) (d : SharedData)
    → d.config_revision + count history < word_mod
    → (store_all history d).config_revision ≡ d.config_revision + count history
unfolding store_all store_config_files count
store_all-revision [] d h = omega arith
store_all-revision (files ∷ rest) d h =
    omega (arith, store_all-revision rest (store_config_files files d) (omega arith))

-- What the last of the stores that names a file gives it, or what it was before.
abbrev pub last_stored : List ℕ → List Files → Option (List ℕ) → Option (List ℕ)
last_stored name [] before = before
last_stored name (files ∷ rest) before = last_stored name rest (or_else (lookup name files) before)

abbrev pub AreStores : List Files → Type 0
AreStores history = All (λ files. Distinct files × AreCStrings files) history

store_all-lookup :
    (name : List ℕ) (history : List Files) (d : SharedData)
    → AreStores history
    → AreCStrings d.config_files
    → (lookup name (store_all history d).config_files
        ≡ last_stored name history (lookup name d.config_files))
      × AreCStrings (store_all history d).config_files
unfolding store_all store_config_files
store_all-lookup name [] d a c = (refl, c)
store_all-lookup name (files ∷ rest) d a c =
    let kept = insert_or_assign_all-AreCStrings files d.config_files a.0.1 c in
    let later = store_all-lookup name rest (store_config_files files d) a.1 kept in
    (
      later.0
          ∙ ap (last_stored name rest)
              (lookup-insert_or_assign_all name files d.config_files a.0.0),
      later.1,
    )

-- After any history of stores, at least one, a worker that last looked before it is given files at
-- its next look, once: each with the content of the last store that names it, or that it had before
-- if none does; a look after that gives the worker nothing. The stores and the files before have no
-- NUL in names and contents, and the revision does not wrap around.
pub store_all-trigger :
    (files : Files) (rest : List Files) (d : SharedData) (local : ℕ)
    → local ≤ d.config_revision
    → d.config_revision + suc (count rest) < word_mod
    → AreStores (files ∷ rest)
    → AreCStrings d.config_files
    → let d' = store_all (files ∷ rest) d in
      (given : Files) × (trigger_update_if_changed d' local ≡ (some given, d'.config_revision))
      × ((name : List ℕ)
          → lookup name given ≡ last_stored name (files ∷ rest) (lookup name d.config_files))
      × (trigger_update_if_changed d' d'.config_revision ≡ (none, d'.config_revision))
unfolding trigger_update_if_changed count get_configuration
store_all-trigger files rest d local h w a c =
    let r = store_all-revision (files ∷ rest) d w in
    let d' = store_all (files ∷ rest) d in
    (get_configuration d', (ground arith), found, (ground arith))
  where
    found :
        (name : List ℕ)
        → lookup name (get_configuration (store_all (files ∷ rest) d))
          ≡ last_stored name (files ∷ rest) (lookup name d.config_files)
    found name =
        let stored = store_all-lookup name (files ∷ rest) d a c in
        lookup-emplace_all name (store_all (files ∷ rest) d).config_files [] stored.1 ∙ stored.0

-- A store replaces the files that it names and keeps every other: a file that is no longer among
-- those of the coordinator stays in shared memory.
pub store_config_files-lookup :
    (name : List ℕ) (files : Files) (d : SharedData)
    → Distinct files
    → lookup name (store_config_files files d).config_files
      ≡ or_else (lookup name files) (lookup name d.config_files)
unfolding store_config_files
store_config_files-lookup name files d h = lookup-insert_or_assign_all name files d.config_files h

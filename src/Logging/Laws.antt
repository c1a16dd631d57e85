-- ===== src/Logging/Laws.antt =====
-- What reaches a sink, and what the file sink keeps open.
use opentelemetry_php_distro.Prelude.{
  ℕ, suc, ◌≡◌, ◌≤◌, ◌<◌, refl, Bool, true, false, List, [], ◌∷◌, Option, none, ltb, nat_eq, ◌==◌,
  any, arith, bytes_beq_iff, if◌then◌else◌, ◌⊎◌,
}
use opentelemetry_php_distro.Config.Level.{LogLevel, level_value}
use opentelemetry_php_distro.Logging.{
  Logger, max_level, does_meets_level_condition, does_feature_meets_level_condition, written, log,
  elog, FileSink, reopen, closed,
}

above_max :
    (i : ℕ) (level : LogLevel) (sinks : List LogLevel)
    → max_level sinks < level_value level
    → written i level sinks ≡ []
unfolding written max_level
above_max i level [] h = refl
above_max i level (s ∷ ss) h = ground (arith, above_max (suc i) level ss)

-- Without levels for features, the gate in front of the logger drops nothing that a sink would take.
pub elog_no_features :
    (all_feature : ℕ) (level : LogLevel) (feature : ℕ) (sinks : List LogLevel)
    → let l : Logger = record { sinks = sinks; features = [] } in
      elog all_feature level feature l ≡ log level l
unfolding elog log does_feature_meets_level_condition does_meets_level_condition
elog_no_features all_feature level feature sinks = ground (arith, above_max 0 level sinks)

-- Whether a sink is among those written.
abbrev pub reaches : ℕ → List ℕ → Bool
reaches sink is = any (λ i. i == sink) is

ltb_mono : (a b c : ℕ) → b ≤ c → ltb a b ≡ true → ltb a c ≡ true
ltb_mono a b c h t = ground arith

-- One sink: left out at the higher level whenever it is at the lower.
keep_monotone :
    (skip_high skip_low : Bool) (i sink : ℕ) (xs ys : List ℕ)
    → (skip_low ≡ true → skip_high ≡ true)
    → (reaches sink xs ≡ true → reaches sink ys ≡ true)
    → reaches sink (if skip_high then xs else i ∷ xs) ≡ true
    → reaches sink (if skip_low then ys else i ∷ ys) ≡ true
keep_monotone true true i sink xs ys h f r = f r
keep_monotone true false i sink xs ys h f r = ground (arith, f r)
keep_monotone false true i sink xs ys h f r = absurd (ground (arith, h refl))
keep_monotone false false i sink xs ys h f r = ground (arith, f)

written_monotone :
    (i sink : ℕ) (low high : LogLevel) (sinks : List LogLevel)
    → level_value low ≤ level_value high
    → reaches sink (written i high sinks) ≡ true
    → reaches sink (written i low sinks) ≡ true
unfolding written
written_monotone i sink low high [] h r = r
written_monotone i sink low high (s ∷ ss) h r =
    keep_monotone (ltb (level_value s) (level_value high)) (ltb (level_value s) (level_value low)) i
      sink (written (suc i) high ss) (written (suc i) low ss)
      (ltb_mono (level_value s) (level_value low) (level_value high) h)
      (written_monotone (suc i) sink low high ss h) r

gate_monotone :
    (all_feature feature : ℕ) (low high : LogLevel) (sinks : List LogLevel)
    (features : List (ℕ × LogLevel))
    → level_value low ≤ level_value high
    → let l : Logger = record { sinks = sinks; features = features } in
      does_feature_meets_level_condition all_feature high feature l ≡ true
      → does_feature_meets_level_condition all_feature low feature l ≡ true
unfolding does_feature_meets_level_condition does_meets_level_condition
gate_monotone all_feature feature low high sinks [] h r = ground arith
gate_monotone all_feature feature low high sinks (f ∷ fs) h r = ground arith

-- A sink that gets the messages of a feature at one level gets those at every more severe level,
-- which has a lower number.
pub elog_monotone :
    (all_feature feature sink : ℕ) (low high : LogLevel) (sinks : List LogLevel)
    (features : List (ℕ × LogLevel))
    → level_value low ≤ level_value high
    → let l : Logger = record { sinks = sinks; features = features } in
      reaches sink (elog all_feature high feature l) ≡ true
      → reaches sink (elog all_feature low feature l) ≡ true
unfolding elog log
elog_monotone all_feature feature sink low high sinks features h r = ground (
  arith,
  gate_monotone all_feature feature low high sinks features h,
  written_monotone 0 sink low high sinks h,
)

-- A file sink without a descriptor has no path.
abbrev pub IsFileSink : FileSink → Type 0
IsFileSink s = s.fd ≡ none → s.opened_file_path ≡ []

-- reopen keeps that, closes exactly the descriptor that it replaces, and when it returns true the
-- sink has the path asked for.
pub reopen-IsFileSink :
    (open_file : List ℕ → Option ℕ) (file_name : List ℕ) (s : FileSink)
    → IsFileSink s
    → let r = reopen open_file file_name s in
      IsFileSink r.2
      × (r.0 ≡ true → r.2.opened_file_path ≡ file_name)
      × ((r.2 ≡ s) ⊎ (r.1 ≡ closed s.fd))
unfolding reopen
reopen-IsFileSink open_file file_name s h =
    ground (arith, bytes_beq_iff s.opened_file_path file_name)

-- ===== src/Config/Manager/Revisions.antt =====
-- How a new revision reaches the snapshots of the workers.
use opentelemetry_php_distro.Prelude.{
  ℕ, suc, ◌≡◌, ◌≤◌, ◌<◌, true, [], word_mod, map, arith, inl, inr, Option-cases,
}
use opentelemetry_php_distro.Config.Units.{Float}
use opentelemetry_php_distro.Config.Options.{options, new_snapshot}
use opentelemetry_php_distro.Config.Provider.{Files, Provider}
use opentelemetry_php_distro.Config.Manager.{
  Manager, update_options, update, update_if_changed, Storage, storage_update,
}

-- Revisions are handed out in order.
abbrev pub IsOrdered : Manager → Type 0
IsOrdered m = m.current.revision ≤ m.upcoming_config_revision

-- After an `update` that succeeds, the next storage_update of any storage whose copy came from the
-- manager earlier takes up the new snapshot and calls each watcher once with it; one more changes
-- nothing and calls no watcher. The revision in use is at most the last handed out. The counter may
-- not wrap around.
pub update-storage_update :
    (f : Float) (refresh : Files → Provider → Provider) (files : Files) (m : Manager) (s : Storage)
    → s.config.revision ≤ m.upcoming_config_revision
    → suc m.upcoming_config_revision < word_mod
    → (update f refresh files m).0 ≡ true
    → let m' = (update f refresh files m).1 in
      let after = storage_update m' s in
      IsOrdered m'
      × (after.1.config ≡ m'.current)
      × (after.0 ≡ map (λ (watcher : ℕ). (watcher, m'.current)) s.watchers)
      × (storage_update m' after.1 ≡ ([], after.1))
unfolding update storage_update update_if_changed
update-storage_update f refresh files m s h w ok =
    let p = refresh files m.option_value_provider in
    elim (Option-cases (update_options f p options new_snapshot.members)) [
      | inl e ↦ absurd (ground (arith, e))
      | inr (ms, e) ↦ rw (e, update) (ground arith, ground arith, ground arith, ground arith)
    ]

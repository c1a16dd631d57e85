-- ===== src/Coordinator/SharedConfig.antt =====
-- CoordinatorConfigurationProvider of
-- prod/native/libcommon/code/coordinator/CoordinatorConfigurationProvider.h: the config files in
-- shared memory, which the coordinator stores and every worker takes up, each operation under the
-- interprocess mutex. The segment is taken to have room for what is stored.
pub mod Laws
use opentelemetry_php_distro.Prelude.{
  ℕ, ◌%◌, Bool, true, false, ltb, List, [], ◌∷◌, Option, none, some, ◌==◌, emplace, bytes_beq,
  bytes_eq, add_word, word_mod, if◌then◌else◌,
}

abbrev pub Files : Type 0
Files = List (List ℕ × List ℕ)

pub record SharedData : Type 0 where
  pub config_revision : ℕ
  pub config_files : Files

-- The constructor
abbrev pub new_shared_data : SharedData
new_shared_data = record { config_revision = 1; config_files = [] }

-- std::less of the names
unfoldable pub bytes_less : List ℕ → List ℕ → Bool
bytes_less [] [] = false
bytes_less [] (d ∷ t) = true
bytes_less (c ∷ s) [] = false
bytes_less (c ∷ s) (d ∷ t) =
    let rest = bytes_less s t in if ltb c d then true else if c == d then rest else false

-- insert_or_assign of a map in the order of its keys
unfoldable pub insert_or_assign : List ℕ → List ℕ → Files → Files
unfolding bytes_less
insert_or_assign name content [] = (name, content) ∷ []
insert_or_assign name content ((n, c) ∷ m) =
    let later = insert_or_assign name content m in
    if bytes_beq n name
    then (name, content) ∷ m
    else if bytes_less name n
    then (name, content) ∷ (n, c) ∷ m
    else (n, c) ∷ later

unfoldable pub insert_or_assign_all : Files → Files → Files
unfolding insert_or_assign
insert_or_assign_all [] m = m
insert_or_assign_all ((name, content) ∷ files) m =
    insert_or_assign_all files (insert_or_assign name content m)

unfoldable pub store_config_files : Files → SharedData → SharedData
unfolding insert_or_assign_all
store_config_files files d = record {
  config_revision = add_word d.config_revision 1;
  config_files = insert_or_assign_all files d.config_files;
}

-- std::string(s.c_str()): the text ends at its first NUL.
unfoldable pub c_str : List ℕ → List ℕ
c_str [] = []
c_str (c ∷ s) = let rest = c_str s in if c == 0 then [] else c ∷ rest

-- getConfigurationNoLock
unfoldable pub emplace_all : Files → Files → Files
unfolding c_str
emplace_all [] result = result
emplace_all ((name, content) ∷ files) result =
    emplace_all files (emplace (c_str name) (c_str content) result)

unfoldable pub get_configuration : SharedData → Files
unfolding emplace_all
get_configuration d = emplace_all d.config_files []

-- triggerUpdateIfChanged of a worker with its local revision: the files that its watchers are given,
-- and the new local revision.
unfoldable pub trigger_update_if_changed : SharedData → ℕ → Option Files × ℕ
unfolding get_configuration
trigger_update_if_changed d local =
    if d.config_revision == local
    then (none, local)
    else (some (get_configuration d), d.config_revision)

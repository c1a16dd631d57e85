-- ===== src/Coordinator/Tests.antt =====
-- Runs of the coordinator around its chunks, and the theorems at concrete states.
use opentelemetry_php_distro.Prelude.{
  ℕ, ◌≡◌, refl, Bool, true, false, List, [], ◌∷◌, Option, none, some, lookup, ◌==◌, codes, arith,
  bytes_eq,
}
use opentelemetry_php_distro.Coordinator.Chunks.{Processor, chunk_at, send_payload, send_loop}
use opentelemetry_php_distro.Coordinator.Chunks.Delivery.{outcomes_of}
use opentelemetry_php_distro.Coordinator.Workers.{
  Coordinator, has_worker, register_worker, unregister_worker, verify_workers_alive, IsSetOf,
  registry_lem,
}
use opentelemetry_php_distro.Coordinator.Dispatch.{
  Command, registration, Receiver, Services, dispatch_command, dispatch_outcomes, send_command,
}
use opentelemetry_php_distro.Coordinator.Dispatch.EndToEnd.{send_command-dispatch}
use opentelemetry_php_distro.Coordinator.SharedConfig.{
  Files, new_shared_data, c_str, store_config_files, trigger_update_if_changed,
}
use opentelemetry_php_distro.Coordinator.SharedConfig.Laws.{
  store_all, count, AreStores, last_stored, store_all-trigger,
}
use opentelemetry_php_distro.Transport.Async.{Transport}

-- Worker 5 is gone.
abbrev five_gone : ℕ → Bool
five_gone pid = pid == 5

registry_lem_example :
    (has_worker 7 (register_worker 7 (5 ∷ [])) ≡ true)
    × (has_worker 7 (unregister_worker 7 (5 ∷ [])) ≡ false)
    × (has_worker 7 (verify_workers_alive five_gone (5 ∷ [])) ≡ false)
    × IsSetOf (register_worker 7 (5 ∷ []))
    × IsSetOf (unregister_worker 7 (5 ∷ []))
    × IsSetOf (verify_workers_alive five_gone (5 ∷ []))
unfolding has_worker
registry_lem_example = registry_lem five_gone 7 7 (5 ∷ []) (refl, tt)

abbrev idle : Processor
idle = record { received = []; msg_id = 6 }

abbrev coordinator : Coordinator
coordinator = record {
  working = true;
  parent_process_id = 3;
  workers = 5 ∷ [];
  processor = idle;
  last_cleanup_time = 0;
}

abbrev transport : Transport
transport = record {
  payloads_to_send = [];
  payloads_byte_usage = 0;
  endpoints = record { endpoints = []; connections = [] };
  thread = false;
  working = true;
  force_flush_on_destruction = false;
  shutdown_start = 0;
}

abbrev receiver : Receiver
receiver = record { transport = transport; workers = [] }

-- An encoding of registrations by their process id.
abbrev encode : Command → Option (List ℕ)
encode c = some (10 ∷ [])

abbrev decode : List ℕ → Option Command
decode [] = none
decode (b ∷ text) = some (registration b 1)

abbrev services : Services
services = record { hash = λ s. 0; curl_ok = true; max_send_queue_size = 100; parse = decode }

send_command-dispatch_example :
    dispatch_outcomes services
      (outcomes_of 10 7 ((1, chunk_at 10 7 (10 ∷ []) 0) ∷ []) idle)
      receiver
    ≡ dispatch_command services (registration 10 1) receiver
unfolding send_command send_payload send_loop
send_command-dispatch_example =
    send_command-dispatch services (registration 10 1) (10 ∷ []) 10 idle idle
      ((1, chunk_at 10 7 (10 ∷ []) 0) ∷ []) receiver encode refl refl (λ e. cc) (omega arith) refl
      refl

abbrev one_store : List Files
one_store = ((codes "a", codes "1") ∷ []) ∷ []

one_store-AreStores : AreStores one_store
unfolding c_str
one_store-AreStores = (((refl, tt), (refl, refl, tt)), tt)

store_all-trigger_example :
    let d = store_all one_store new_shared_data in
    (given : Files) × (trigger_update_if_changed d 0 ≡ (some given, d.config_revision))
    × ((name : List ℕ) → lookup name given ≡ last_stored name one_store none)
    × (trigger_update_if_changed d d.config_revision ≡ (none, d.config_revision))
unfolding count
store_all-trigger_example =
    store_all-trigger ((codes "a", codes "1") ∷ []) [] new_shared_data 0 (omega arith) (omega arith)
      one_store-AreStores tt

-- The worker is given a file only up to its first NUL.
cut_file :
    (trigger_update_if_changed
      (store_config_files ((codes "a", b'1' ∷ 0 ∷ b'2' ∷ []) ∷ []) new_shared_data)
      0).0
    ≡ some ((codes "a", codes "1") ∷ [])
unfolding trigger_update_if_changed store_config_files
cut_file = refl

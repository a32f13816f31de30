-- ===== src/Recovery/Examples.antt =====
-- Concrete runs of the recovery of crates/dst-server/src/recovery.rs, on two shards whose catalogs
-- show the snapshots 8 to 12.
use dst_server.Base.{
  ℕ, ◌+◌, ◌≤◌, ◌≡◌, refl, ◌⊎◌, inl, inr, String, false, some, List, [], ◌∷◌, any_control, ok, arith,
}
use dst_server.Recovery.State.{
  Snapshot, Catalog, Catalogs, SavedRoom, Failure, load_failure, retryable, FixedTarget,
  RecoveryState, Decision, restore, preparing, fresh, validate, validate_retry, validate_target,
  verify_saved, valid_text,
}
use dst_server.Recovery.Snapshots.{
  previous_target, latest_room, latest_shards, latest_shard, distinct_ids, saved, select, complete,
  target_shards,
}
use dst_server.Recovery.Decide.{
  decide, recover, weigh, retry_differs, failed_snapshot, earliest_failed, failed_shard, answer,
  roll_back,
}
use dst_server.Recovery.Operations.{on_failure, resume, resume_pending}
use dst_server.Recovery.State.{verify_all, retry_current}
use dst_server.Recovery.Decide.{reserve_retry}
use dst_server.Recovery.Operations.{update}
use dst_server.Recovery.Resumed.{resume_pending-on_failure}
use dst_server.Recovery.Trace.{
  Call, fails, resumes, begins, prepares, readies, Renewal, opens, run, bare_run, run-eq-bare_run,
  update-eq-change,
}
use dst_server.Recovery.Starts.{started, startable}
use dst_server.Recovery.Budget.{launched, final, budget, launched_bounded}
use dst_server.Recovery.Rollback.{IsRollback, previous_target-IsRollback}
use dst_server.Recovery.Answers.{Justified, decide-Justified}
use dst_server.Recovery.Total.{decide_total}

abbrev at : ℕ → String → Snapshot
at id file = record { snapshot_id = id; world_file = some file }

abbrev catalog_of : String → Catalog
catalog_of session = record {
  session_id = session;
  latest_world_file = "12";
  snapshots = at 12 "12" ∷ at 11 "11" ∷ at 10 "10" ∷ at 9 "9" ∷ at 8 "8" ∷ [];
}

abbrev required : List String
required = "Caves" ∷ "Master" ∷ []

abbrev catalogs : Catalogs
catalogs = ("Caves", catalog_of "CAVES") ∷ ("Master", catalog_of "MASTER") ∷ []

abbrev latest : SavedRoom
latest =
    ("Caves", record { session_id = "CAVES"; snapshot_id = 12; world_file = "12" })
    ∷ ("Master", record { session_id = "MASTER"; snapshot_id = 12; world_file = "12" })
    ∷ []

abbrev failure : Failure
failure = load_failure (("Master", record { session_id = "MASTER"; world_file = "12" }) ∷ [])

-- Both restarts are used up.
abbrev spent : RecoveryState
spent = record fresh { restarts_used = 2 }

abbrev target : FixedTarget
target = record {
  snapshot_id = 11;
  shards =
      ("Caves", record { session_id = "CAVES"; snapshot_id = 11; world_file = "11" })
      ∷ ("Master", record { session_id = "MASTER"; snapshot_id = 11; world_file = "11" })
      ∷ [];
  phase = preparing;
}

abbrev history : List (Call ⊎ Renewal)
history =
    inl (fails retryable required catalogs 0)
    ∷ inl (begins 30000)
    ∷ inl (fails failure required catalogs 31000)
    ∷ inl (resumes required catalogs 61000)
    ∷ inr (opens 90000)
    ∷ inl readies
    ∷ []

abbrev calls : List Call
calls =
    fails retryable required catalogs 0
    ∷ begins 30000
    ∷ fails failure required catalogs 31000
    ∷ begins 61000
    ∷ fails failure required catalogs 62000
    ∷ prepares
    ∷ readies
    ∷ []

-- The catalogs' current save.
latest_eq : latest_room required catalogs ≡ ok latest
unfolding latest_room latest_shards latest_shard distinct_ids saved verify_saved valid_text
    any_control
latest_eq = refl

-- The snapshot before the failed one.
rollback_eq : previous_target latest catalogs 12 ≡ ok target
unfolding previous_target select complete target_shards saved verify_saved valid_text any_control
rollback_eq = refl

decide_eq :
    decide spent failure required catalogs 0
    ≡ ok (record spent { target = some target }, restore target false)
unfolding decide recover latest_room latest_shards latest_shard distinct_ids saved verify_saved
    valid_text any_control weigh retry_differs failed_snapshot earliest_failed failed_shard answer
    roll_back previous_target select complete target_shards
decide_eq = refl

spent-valid : validate spent ≡ ok tt
unfolding validate validate_retry validate_target
spent-valid = refl

run-eq-bare_run_example :
    (validate (bare_run spent history) ≡ ok tt) × (run spent history ≡ bare_run spent history)
run-eq-bare_run_example = run-eq-bare_run spent history spent-valid

update-eq-change_example :
    (on_failure failure required catalogs 0 spent ≡ decide spent failure required catalogs 0)
    × (resume_pending required catalogs 0 spent
        ≡ resume spent spent.closed spent.target required catalogs 0)
update-eq-change_example = update-eq-change spent failure required catalogs 0 spent-valid

launched_bounded_example :
    ((launched fresh calls + budget (final fresh calls) ≤ budget fresh) × (budget fresh ≤ 3))
    × (started fresh calls ≤ startable fresh)
launched_bounded_example = launched_bounded fresh calls

previous_target-IsRollback_example : IsRollback latest catalogs 12 target
previous_target-IsRollback_example = previous_target-IsRollback latest catalogs 12 rollback_eq

decide-Justified_example :
    Justified spent failure required catalogs 0
      (record spent { target = some target }, restore target false)
decide-Justified_example = decide-Justified spent failure required catalogs 0 decide_eq

decide_total_example :
    (r : RecoveryState × Decision) × (decide spent failure required catalogs 0 ≡ ok r)
decide_total_example = decide_total spent failure required catalogs 0 (omega arith)

abbrev reserved : RecoveryState
reserved = record fresh {
  restarts_used = 1;
  retry = some (record { not_before_ms = 30000; started = false; shards = latest });
}

reserved_eq :
    on_failure retryable required catalogs 0 fresh ≡ ok (reserved, retry_current 1 30000 latest)
unfolding on_failure update validate validate_retry validate_target verify_all decide recover
    latest_room latest_shards latest_shard distinct_ids saved verify_saved valid_text any_control
    weigh retry_differs failed_snapshot answer reserve_retry
reserved_eq = refl

resume_pending-on_failure_example :
    resume_pending required catalogs 5000 reserved
    ≡ ok (reserved, some (retry_current 1 30000 latest))
resume_pending-on_failure_example =
    resume_pending-on_failure fresh retryable required catalogs 0 5000 refl reserved_eq

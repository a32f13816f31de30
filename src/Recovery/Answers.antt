-- ===== src/Recovery/Answers.antt =====
-- When `decide` of recovery.rs restarts the current save, and when it rolls back.
use dst_server.Base.{
  ℕ, ◌+◌, ◌≤◌, ◌<◌, ◌≡◌, refl, false, List, String, Option, none, some, ok, arith, Holds, Holds-ok,
  Result-cases, inl, inr, Bool-cases,
}
use dst_server.Recovery.State.{
  Catalogs, SavedRoom, RecoveryState, Failure, Decision, retry_current, restore, stay_closed, close,
  is_none,
}
use dst_server.Recovery.Snapshots.{latest_room, previous_target}
use dst_server.Recovery.Decide.{
  reserve_retry, roll_back, answer, weigh, recover, decide, failed_snapshot,
}
use dst_server.Recovery.Rollback.{IsRollback, previous_target-IsRollback}

-- The failure is a load failure of shards that the current save proves, `failed` the earliest of
-- their snapshots.
abbrev pub Proves : Failure → SavedRoom → ℕ → Type 0
Proves failure latest failed = failed_snapshot failure latest ≡ ok (some failed)

-- What a decision of `decide` says of the state and the failure before it.
abbrev pub Justified :
    RecoveryState → Failure → List String → Catalogs → ℕ → RecoveryState × Decision → Type 0
Justified s failure required catalogs now (t, retry_current attempt not_before shards) =
    (s.closed ≡ none)
    × (s.restarts_used < 2)
    × (attempt ≡ s.restarts_used + 1)
    × (t.restarts_used ≡ attempt)
    × (not_before ≡ now + 30000)
    × (latest_room required catalogs ≡ ok shards)
Justified s failure required catalogs now (t, restore target resumed) =
    (s.closed ≡ none)
    × (2 ≤ s.restarts_used)
    × (s.target ≡ none)
    × (t.target ≡ some target)
    × (resumed ≡ false)
    × ((latest : SavedRoom) × (latest_room required catalogs ≡ ok latest)
        × ((failed : ℕ) × Proves failure latest failed × IsRollback latest catalogs failed target))
Justified s failure required catalogs now (t, stay_closed reason) = t.closed ≡ some reason

module _ (s : RecoveryState) (failure : Failure) (required : List String) (catalogs : Catalogs)
    (now : ℕ) (c : s.closed ≡ none) where
  module _ (latest : SavedRoom) (l : latest_room required catalogs ≡ ok latest) where
    roll_back-Justified :
        (failed : Option ℕ)
        → failed_snapshot failure latest ≡ ok failed
        → 2 ≤ s.restarts_used
        → Holds (Justified s failure required catalogs now) (roll_back s latest catalogs failed)
    unfolding roll_back close
    roll_back-Justified none f u = refl
    roll_back-Justified (some failed) f u =
        elim (Result-cases (previous_target latest catalogs failed)) [
          | inr (e, h) ↦ ground (arith, h)
          | inl (t, h) ↦
              let r = previous_target-IsRollback latest catalogs failed h in
              elim (Bool-cases (is_none s.target)) [
                | inr o ↦ ground (arith, o)
                | inl o ↦
                    rw (o, h) (c, u, ground (arith, o), refl, refl, (latest, l, (failed, f, r)))
              ]
        ]

    answer-Justified :
        (failed : Option ℕ)
        → failed_snapshot failure latest ≡ ok failed
        → Holds (Justified s failure required catalogs now) (answer s latest catalogs now failed)
    unfolding answer reserve_retry close
    answer-Justified failed f = ground (arith, roll_back-Justified failed f)

    weigh-Justified :
        Holds (Justified s failure required catalogs now) (weigh s failure latest catalogs now)
    unfolding weigh close
    weigh-Justified = grind (arith, answer-Justified)

  recover-Justified :
      Holds (Justified s failure required catalogs now) (recover s failure required catalogs now)
  unfolding recover close
  recover-Justified = grind (arith, weigh-Justified)

decide-Holds :
    (s : RecoveryState) (failure : Failure) (required : List String) (catalogs : Catalogs) (now : ℕ)
    → Holds (Justified s failure required catalogs now) (decide s failure required catalogs now)
unfolding decide close
decide-Holds s failure required catalogs now =
    ground (arith, recover-Justified s failure required catalogs now)

-- Every answer to a failure is justified. A restart of the current save is one of two, half a
-- minute later, with the shards that the catalogs show. A rollback comes only after both restarts,
-- once, for a load failure that the current save proves, and to the newest eligible snapshot.
-- Any other answer closes the room, and a closed room stays closed.
pub decide-Justified :
    (s : RecoveryState) (failure : Failure) (required : List String) (catalogs : Catalogs) (now : ℕ)
    {t : RecoveryState} {d : Decision}
    → decide s failure required catalogs now ≡ ok (t, d)
    → Justified s failure required catalogs now (t, d)
decide-Justified s failure required catalogs now {t} {d} h =
    Holds-ok (Justified s failure required catalogs now)
      (decide-Holds s failure required catalogs now) h

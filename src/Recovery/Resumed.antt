-- ===== src/Recovery/Resumed.antt =====
-- A decision of crates/dst-server/src/recovery.rs that the Agent takes up again after its own restart.
use dst_server.Base.{
  ℕ, ◌≡◌, refl, String, Bool, true, false, none, some, List, ok, arith, Fallible, Holds, Holds-ok,
  Result-cases, inl, inr, text_eq_iff, [], ◌∷◌,
}
use dst_server.Recovery.State.{
  Catalogs, SavedShard, SavedRoom, Failure, RecoveryState, Decision, retry_current, restore,
  stay_closed, close, validate,
}
use dst_server.Recovery.Snapshots.{latest_room, same_shard}
use dst_server.Recovery.Decide.{
  decide, recover, weigh, answer, reserve_retry, roll_back, target_in_flight,
}
use dst_server.Recovery.Operations.{
  update, on_failure, same_room, resume, resume_rest, resume_retry, resume_pending,
}

same_shard_refl : (a : SavedShard) → same_shard a a ≡ true
unfolding same_shard
same_shard_refl a =
    ground (arith, text_eq_iff a.session_id a.session_id, text_eq_iff a.world_file a.world_file)

same_room_refl : (r : SavedRoom) → same_room r r ≡ true
unfolding same_room
same_room_refl [] = refl
same_room_refl ((k, a) ∷ r) = ground (arith, text_eq_iff k k, same_shard_refl a, same_room_refl r)

-- What a resumption finds after a decision that is not a rollback.
abbrev Stored : List String → Catalogs → RecoveryState × Decision → Type 0
Stored required catalogs (t, retry_current attempt not_before shards) =
    (t.closed ≡ none)
    × (target_in_flight t.target ≡ false)
    × (t.retry ≡ some (record { not_before_ms = not_before; started = false; shards = shards }))
    × (t.restarts_used ≡ attempt)
    × (latest_room required catalogs ≡ ok shards)
Stored required catalogs (t, restore target resumed) = Unit
Stored required catalogs (t, stay_closed reason) = t.closed ≡ some reason

module _ (s : RecoveryState) (failure : Failure) (required : List String) (catalogs : Catalogs)
    (now : ℕ) where
  weigh-Stored :
      (latest : SavedRoom)
      → s.closed ≡ none
      → target_in_flight s.target ≡ false
      → latest_room required catalogs ≡ ok latest
      → Holds (Stored required catalogs) (weigh s failure latest catalogs now)
  unfolding weigh answer reserve_retry roll_back close
  weigh-Stored latest c f l = ground (arith, c, f, l)

  decide-Stored : Holds (Stored required catalogs) (decide s failure required catalogs now)
  unfolding decide recover close
  decide-Stored = grind (arith, weigh-Stored)

-- The decision with which a resumption starts.
abbrev pub again : Decision → Decision
again (restore target resumed) = restore target true
again d = d

abbrev pub is_restore : Decision → Bool
is_restore (restore target resumed) = true
is_restore _ = false

update-ok :
    {T : Type 0} (change : RecoveryState → Fallible (RecoveryState × T)) (s : RecoveryState)
    {t : RecoveryState} {x : T}
    → update change s ≡ ok (t, x)
    → (change s ≡ ok (t, x)) × (validate t ≡ ok tt)
unfolding update
update-ok change s {t} {x} h = elim (Result-cases (validate s)) [
  | inr (e, v) ↦ ground (arith, v, h)
  | inl (_, v) ↦ elim (Result-cases (change s)) [
    | inr (e, c) ↦ ground (arith, v, c, h)
    | inl ((u, y), c) ↦ elim (Result-cases (validate u)) [
      | inr (e, w) ↦ ground (arith, v, c, w, h)
      | inl (_, w) ↦ ground (arith, v, c, w, h)
    ]
  ]
]

resume-eq :
    (required : List String) (catalogs : Catalogs) (later : ℕ) (t : RecoveryState) (d : Decision)
    → is_restore d ≡ false
    → Stored required catalogs (t, d)
    → resume t t.closed t.target required catalogs later ≡ ok (t, some d)
unfolding resume resume_rest resume_retry
resume-eq required catalogs later t (stay_closed reason) n h = rw h refl
resume-eq required catalogs later t (restore target resumed) n h = ground (arith, n)
resume-eq required catalogs later t (retry_current attempt not_before shards) n h =
    ground (arith, same_room_refl shards, h)

-- A restart of the current save, or a closed room, outlives a restart of the Agent: while the
-- catalogs stay as they are and the restart has not begun, taking the stored state up again gives
-- the same decision, with its attempt and its time, and changes nothing.
pub resume_pending-on_failure :
    (s : RecoveryState) (failure : Failure) (required : List String) (catalogs : Catalogs)
    (now later : ℕ) {t : RecoveryState} {d : Decision}
    → is_restore d ≡ false
    → on_failure failure required catalogs now s ≡ ok (t, d)
    → resume_pending required catalogs later t ≡ ok (t, some d)
unfolding on_failure resume_pending update
resume_pending-on_failure s failure required catalogs now later {t} {d} n h =
    let (decided, valid) = update-ok (λ u. decide u failure required catalogs now) s h in
    let stored =
      Holds-ok (Stored required catalogs) (decide-Stored s failure required catalogs now) decided in
    rw (valid, resume-eq required catalogs later t d n stored, valid) refl

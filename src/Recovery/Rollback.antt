-- ===== src/Recovery/Rollback.antt =====
-- Which snapshot recovery.rs rolls a room back to.
use dst_server.Base.{
  ℕ, ◌+◌, ◌-◌, ◌≤◌, ◌<◌, ◌≡◌, refl, List, [], ◌∷◌, String, Option, none, some, Bool, true, ◌&&◌, ok,
  arith, Holds, Holds-ok, Holds-map, Result-cases, ◌∙◌, ==_iff, All, Option-cases, inl, inr, any,
  keep, map, find, find-passes, text_eq_iff, ltb, leb,
}
use dst_server.Recovery.State.{Catalog, Catalogs, Snapshot, SavedRoom, FixedTarget, preparing}
use dst_server.Recovery.Valid.{saved-Holds}
use dst_server.Recovery.Snapshots.{
  saved, has_id, has_some_file, has_file, maximum, minimum, ids, complete, select, target_shards,
  previous_target,
}
use dst_server.Recovery.Extremes.{
  All-le_mono, All-ge_mono, minimum-Lower, maximum-Upper, minimum-Below,
}

best : (ℕ → Bool) → (ℕ → Bool) → List Snapshot → Option ℕ
best p q snapshots =
    maximum (
      map (λ s. s.snapshot_id)
        (keep (λ s. q s.snapshot_id) (keep (λ s. p s.snapshot_id) snapshots)))

abbrev Passes : (ℕ → Bool) → (ℕ → Bool) → Option ℕ → Type 0
Passes p q none = Unit
Passes p q (some m) = (p m ≡ true) × (q m ≡ true)

abbrev AtLeast : ℕ → Option ℕ → Type 0
AtLeast n none = ⊥
AtLeast n (some m) = n ≤ m

best-Passes : (p q : ℕ → Bool) (snapshots : List Snapshot) → Passes p q (best p q snapshots)
unfolding best
best-Passes p q [] = tt
best-Passes p q (s ∷ ss) = ground (arith, best-Passes p q ss)

best-AtLeast :
    (p q : ℕ → Bool) (n : ℕ) (snapshots : List Snapshot)
    → any (has_id n) snapshots ≡ true
    → p n ≡ true
    → q n ≡ true
    → AtLeast n (best p q snapshots)
unfolding best
best-AtLeast p q n [] a hp hq = ground arith
best-AtLeast p q n (s ∷ ss) a hp hq = ground (arith, best-AtLeast p q n ss)

abbrev pub Everywhere : Catalogs → Option ℕ → Type 0
Everywhere catalogs none = Unit
Everywhere catalogs (some id) = complete catalogs id ≡ true

pub select-Everywhere :
    (snapshots : List Snapshot) (catalogs : Catalogs) (failed oldest : ℕ)
    → Everywhere catalogs (select snapshots catalogs failed oldest)
unfolding select best
select-Everywhere snapshots catalogs failed oldest = ground (
  arith,
  best-Passes (λ n. ltb 0 n && (ltb n failed && leb n oldest)) (complete catalogs) snapshots,
)

-- A snapshot that a room with these latest saves may be rolled back to: older than the failed
-- one, no newer than any shard's save, and with a world file in every catalog.
pub record Eligible (latest : List ℕ) (catalogs : Catalogs) (failed id : ℕ) : Type 0 where
  pub positive : 0 < id
  pub before_failed : id < failed
  pub at_most_latest : All (λ n. id ≤ n) latest
  pub everywhere : complete catalogs id ≡ true

-- The target's shards are those of the catalogs, each at the snapshot `id` of its catalog.
abbrev pub AtSnapshot : ℕ → Catalogs → SavedRoom → Type 0
AtSnapshot id [] [] = Unit
AtSnapshot id ((n, c) ∷ cs) ((m, x) ∷ xs) =
    (m ≡ n)
    × (x.session_id ≡ c.session_id)
    × (x.snapshot_id ≡ id)
    × (any (λ s. has_id id s && has_file x.world_file s.world_file) c.snapshots ≡ true)
    × AtSnapshot id cs xs
AtSnapshot id _ _ = ⊥

find-any :
    (id : ℕ) (file : String) (ss : List Snapshot) {s : Snapshot}
    → find (has_id id) ss ≡ some s
    → s.world_file ≡ some file
    → any (λ t. has_id id t && has_file file t.world_file) ss ≡ true
find-any id file [] e f = ground arith
find-any id file (t ∷ ss) {s} e f =
    ground (arith, find-any id file ss {s = s}, text_eq_iff file file)

saved-AtSnapshot :
    (id : ℕ) (c : Catalog) (s : Snapshot)
    → find (has_id id) c.snapshots ≡ some s
    → Holds
        (λ x.
          (x.session_id ≡ c.session_id)
          × (x.snapshot_id ≡ id)
          × (any (λ t. has_id id t && has_file x.world_file t.world_file) c.snapshots ≡ true))
        (saved c s)
saved-AtSnapshot id c s e =
    Holds-map _ _ (saved c s)
      (λ x h p. (
        p.2,
        p.1 ∙ (==_iff s.snapshot_id id).0 (find-passes (has_id id) c.snapshots e),
        find-any id x.world_file c.snapshots e p.3,
      ))
      (saved-Holds c s)

target_shards-AtSnapshot :
    (catalogs : Catalogs) (id : ℕ) → Holds (AtSnapshot id catalogs) (target_shards catalogs id)
unfolding target_shards
target_shards-AtSnapshot [] id = tt
target_shards-AtSnapshot ((n, c) ∷ cs) id =
    grind (arith, saved-AtSnapshot id c, target_shards-AtSnapshot cs id)

any-has_id :
    (id : ℕ) (ss : List Snapshot)
    → any (λ s. has_id id s && has_some_file s) ss ≡ true
    → any (has_id id) ss ≡ true
any-has_id id [] h = h
any-has_id id (s ∷ ss) h = ground (arith, any-has_id id ss)

module _ (latest : SavedRoom) (catalogs : Catalogs) (failed : ℕ) where
  -- What a rollback's target is: an eligible snapshot within the gap, the newest eligible one, with
  -- the shards of the catalogs.
  pub record IsRollback (t : FixedTarget) : Type 0 where
    pub eligible : Eligible (ids latest) catalogs failed t.snapshot_id
    pub within_gap : All (λ n. n ≤ t.snapshot_id + 3) (ids latest)
    pub newest : (id : ℕ) → Eligible (ids latest) catalogs failed id → id ≤ t.snapshot_id
    pub shards : AtSnapshot t.snapshot_id catalogs t.shards
    pub unprepared : t.phase ≡ preparing

  module _ (c : Catalog) (name : String) (cs : Catalogs) (e : catalogs ≡ (name, c) ∷ cs) where
    complete-any : (id : ℕ) → complete catalogs id ≡ true → any (has_id id) c.snapshots ≡ true
    unfolding complete
    complete-any id h =
        any-has_id id c.snapshots
          (let h' : complete ((name, c) ∷ cs) id ≡ true = rw e at h in ground (arith, h'))

  select-Eligible :
      (snapshots : List Snapshot) {oldest id : ℕ}
      → minimum (ids latest) ≡ some oldest
      → select snapshots catalogs failed oldest ≡ some id
      → Eligible (ids latest) catalogs failed id
  unfolding select best
  select-Eligible snapshots {oldest} {id} o h =
      let p : Passes (λ n. ltb 0 n && (ltb n failed && leb n oldest)) (complete catalogs)
          (some id) =
        rw h at (
          best-Passes (λ n. ltb 0 n && (ltb n failed && leb n oldest)) (complete catalogs)
            snapshots) in
      record {
        positive = ground (arith, p);
        before_failed = ground (arith, p);
        at_most_latest =
            All-le_mono (ids latest) (ground (arith, p)) (rw o at (minimum-Lower (ids latest)));
        everywhere = p.1;
      }

  select-newest :
      (snapshots : List Snapshot) {oldest id : ℕ} (n : ℕ)
      → minimum (ids latest) ≡ some oldest
      → select snapshots catalogs failed oldest ≡ some id
      → any (has_id n) snapshots ≡ true
      → Eligible (ids latest) catalogs failed n
      → n ≤ id
  unfolding select best
  select-newest snapshots {oldest} {id} n o h a e =
      let b : n ≤ oldest = rw o at (minimum-Below n (ids latest) e.at_most_latest) in
      rw h at (
        best-AtLeast (λ k. ltb 0 k && (ltb k failed && leb k oldest)) (complete catalogs) n
          snapshots a (ground (arith, e.positive, e.before_failed, b)) e.everywhere)

  target-IsRollback :
      (name : String) (c : Catalog) (cs : Catalogs) {oldest newest id : ℕ} (shards : SavedRoom)
      → catalogs ≡ (name, c) ∷ cs
      → maximum (ids latest) ≡ some newest
      → minimum (ids latest) ≡ some oldest
      → select c.snapshots catalogs failed oldest ≡ some id
      → newest - id ≤ 3
      → target_shards catalogs id ≡ ok shards
      → IsRollback (record { snapshot_id = id; shards = shards; phase = preparing })
  target-IsRollback name c cs {id = id} shards e m o h g t = record {
    eligible = select-Eligible c.snapshots o h;
    within_gap = All-ge_mono (ids latest) (omega arith) (rw m at (maximum-Upper (ids latest)));
    newest = λ n el. select-newest c.snapshots n o h (complete-any c name cs e n el.everywhere) el;
    shards = Holds-ok (AtSnapshot id catalogs) (target_shards-AtSnapshot catalogs id) t;
    unprepared = refl;
  }

-- The target of a rollback, whenever there is one, is the newest eligible snapshot: older than the
-- failed one, no newer than any shard's current save and at most three behind each, with a world
-- file in every catalog; its shards are the catalogs' own, each at that snapshot.
pub previous_target-IsRollback :
    (latest : SavedRoom) (catalogs : Catalogs) (failed : ℕ) {t : FixedTarget}
    → previous_target latest catalogs failed ≡ ok t
    → IsRollback latest catalogs failed t
unfolding previous_target
previous_target-IsRollback latest [] failed {t} h = ground arith
previous_target-IsRollback latest ((name, c) ∷ cs) failed {t} h =
    elim (Option-cases (maximum (ids latest))) [
      | inl e ↦ ground (arith, e)
      | inr (newest, m) ↦ elim (Option-cases (minimum (ids latest))) [
        | inl e ↦ ground (arith, e, m)
        | inr (oldest, o) ↦
            elim (Option-cases (select c.snapshots ((name, c) ∷ cs) failed oldest)) [
              | inl e ↦ ground (arith, e, m, o)
              | inr (id, s) ↦ elim (Result-cases (target_shards ((name, c) ∷ cs) id)) [
                | inr (e, r) ↦ ground (arith, r, s, m, o)
                | inl (shards, r) ↦
                    let g : newest - id ≤ 3 = ground (arith, r, s, m, o) in
                    let found : t
                        ≡ record { snapshot_id = id; shards = shards; phase = preparing } =
                      ground (arith, r, s, m, o) in
                    rw found (
                      target-IsRollback latest ((name, c) ∷ cs) failed name c cs shards refl m o s g
                        r)
              ]
            ]
      ]
    ]

-- ===== src/Policy/Schedule/Local.antt =====
-- What a local time of the schedule stands for in a zone whose clock changes.
use dst_server.Base.{
  ℕ, zero, suc, ◌+◌, ◌*◌, max, min, dec_lt, ◌≤◌, ◌<◌, ◌≡◌, ◌≢◌, refl, Bool, false, ok, Fallible,
  Holds, Holds-ok, Holds-map, Bool-cases, inl, inr, arith, leb, if◌then◌else◌,
}
use dst_server.Policy.Time.{Zone, Chrono, LocalResult, single, ambiguous, gap}
use dst_server.Policy.Schedule.{resolve_from, resolve_local}

abbrev pub Picks : Bool → ℕ → LocalResult → Type 0
Picks end v (single x) = v ≡ x
Picks end v (ambiguous a b) = v ≡ (if end then max a b else min a b)
Picks end v gap = ⊥

-- `v` is the instant of the first local minute from `local` on that exists, at most a day later:
-- of one that occurs twice, the last occurrence for an end and the first for a start.
pub record IsResolved (z : Zone) (local : ℕ) (end : Bool) (v : ℕ) : Type 0 where
  pub skipped : ℕ
  pub candidate : ℕ
  pub candidate_is : candidate ≡ local + skipped
  pub gaps : (k : ℕ) → local ≤ k → k < candidate → z.from_local k ≡ gap
  pub picks : Picks end v (z.from_local candidate)

resolve-step :
    (z : Zone) (local : ℕ) (end : Bool) (v : ℕ)
    → z.from_local local ≡ gap
    → IsResolved z (local + 1) end v
    → IsResolved z local end v
resolve-step z local end v g r = record {
  skipped = r.skipped + 1;
  candidate = r.candidate;
  candidate_is = omega (arith, r.candidate_is);
  gaps = λ k a b. elim (dec_lt local k) [
    | yes l ↦ r.gaps k (omega arith) b
    | no l ↦ let e : k ≡ local = omega arith in rw e g
  ];
  picks = r.picks;
}

resolve-here :
    (z : Zone) (local : ℕ) (end : Bool) (v : ℕ)
    → Picks end v (z.from_local local)
    → IsResolved z local end v
resolve-here z local end v p = record {
  skipped = 0;
  candidate = local;
  candidate_is = omega arith;
  gaps = λ k a b. absurd (omega arith);
  picks = p;
}

resolve-by :
    (z : Zone) (end : Bool) (local : ℕ) (r : LocalResult) (next : Fallible ℕ)
    → z.from_local local ≡ r
    → Holds (IsResolved z (local + 1) end) next
    → Holds (IsResolved z local end) (elim r [
      | single value ↦ ok value
      | ambiguous first second ↦ ok (if end then max first second else min first second)
      | gap ↦ next
    ])
resolve-by z end local (single x) next e h = resolve-here z local end x (rw e refl)
resolve-by z end local (ambiguous x y) next e h = resolve-here z local end _ (rw e refl)
resolve-by z end local gap next e h =
    Holds-map (IsResolved z (local + 1) end) _ next (λ v _. resolve-step z local end v e) h

resolve_from-IsResolved :
    (c : Chrono) (z : Zone) (end : Bool) (rounds local : ℕ)
    → Holds (IsResolved z local end) (resolve_from c z end rounds local)
unfolding resolve_from
resolve_from-IsResolved c z end zero local = tt
resolve_from-IsResolved c z end (suc rounds) local =
    elim (Bool-cases (leb (c.dates * 1440) local)) [
      | inl a ↦ rw a tt
      | inr a ↦ rw a (
          resolve-by z end local (z.from_local local) _ refl
            (resolve_from-IsResolved c z end rounds (local + 1)))
    ]

-- One round, where the minute at hand exists.
found-by :
    (end : Bool) (r : LocalResult) (next : Fallible ℕ)
    → r ≢ gap
    → (v : ℕ) × ((elim r [
      | single value ↦ ok value
      | ambiguous first second ↦ ok (if end then max first second else min first second)
      | gap ↦ next
    ])
        ≡ ok v)
found-by end (single x) next g = (x, refl)
found-by end (ambiguous x y) next g = (_, refl)
found-by end gap next g = absurd (g refl)

-- One round, where a later minute exists.
passed-by :
    (end : Bool) (r : LocalResult) (next : Fallible ℕ)
    → (v : ℕ) × (next ≡ ok v)
    → (v : ℕ) × ((elim r [
      | single value ↦ ok value
      | ambiguous first second ↦ ok (if end then max first second else min first second)
      | gap ↦ next
    ])
        ≡ ok v)
passed-by end (single x) next h = (x, refl)
passed-by end (ambiguous x y) next h = (_, refl)
passed-by end gap next h = h

-- Within the rounds left there is a minute that exists, and the dates do not end before it.
resolve_from-total :
    (c : Chrono) (z : Zone) (end : Bool) (rounds local skipped : ℕ)
    → skipped < rounds
    → local + skipped < c.dates * 1440
    → z.from_local (local + skipped) ≢ gap
    → (v : ℕ) × (resolve_from c z end rounds local ≡ ok v)
unfolding resolve_from
resolve_from-total c z end zero local skipped l d g = absurd (omega arith)
resolve_from-total c z end (suc rounds) local zero l d g =
    let early : leb (c.dates * 1440) local ≡ false = ground arith in
    let here : local + 0 ≡ local = omega arith in
    rw early (found-by end (z.from_local local) _ (λ e. g (rw here e)))
resolve_from-total c z end (suc rounds) local (suc skipped) l d g =
    let early : leb (c.dates * 1440) local ≡ false = ground arith in
    let there : local + suc skipped ≡ local + 1 + skipped = omega arith in
    rw early (
      passed-by end (z.from_local local) _ (
        resolve_from-total c z end rounds (local + 1) skipped (omega arith) (omega arith)
          (λ e. g (rw there e))))

-- Where a local minute exists at most a day after a local time of the schedule, and within the
-- dates, the local time is resolved: to the first minute from it on that exists in the zone, and
-- of its two occurrences to the first if it starts an opening, and to the last if it ends one.
pub resolve_local-resolves :
    (c : Chrono) (z : Zone) (end : Bool) (local skipped : ℕ)
    → skipped ≤ 1440
    → local + skipped < c.dates * 1440
    → z.from_local (local + skipped) ≢ gap
    → (v : ℕ) × ((resolve_local c z local end ≡ ok v) × IsResolved z local end v)
unfolding resolve_local
resolve_local-resolves c z end local skipped l d g =
    let (v, e) = resolve_from-total c z end 1441 local skipped (omega arith) d g in
    (v, (e, Holds-ok (IsResolved z local end) (resolve_from-IsResolved c z end 1441 local) e))

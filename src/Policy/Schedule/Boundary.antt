-- ===== src/Policy/Schedule/Boundary.antt =====
-- What the schedule says of an instant: whether it lies in an opening, and when that changes.
use dst_server.Base.{
  ℕ, zero, suc, ◌+◌, ◌-◌, ◌≤◌, ◌<◌, ◌≡◌, refl, ◌∙◌, true, false, not, ◌&&◌, List, [], ◌∷◌, ◌++◌,
  none, some, ok, Holds, Holds-ok, Holds-map, sym, Bool-cases, inl, inr, All, arith, ltb, leb,
}
use dst_server.Ranges.{Range, sort, merge, covered, Separate}
use dst_server.Ranges.Merge.{
  covered-sort, covered-merge, merge-Separate, sort-Rising, sort-All, Nonempty,
}
use dst_server.Policy.Time.{Zone, Chrono}
use dst_server.Policy.Windows.{DailyWindow, merged_minutes}
use dst_server.Policy.Schedule.{
  ScheduleState, scan, date_intervals, intervals_from, intervals, always_open, schedule_in,
}

-- A state that is right about intervals: it is open exactly at the instants covered, and nothing
-- changes from now until the next change, where the state flips.
pub record IsRight (now : ℕ) (intervals : List Range) (s : ScheduleState) : Type 0 where
  pub now_right : covered now intervals ≡ s.is_open
  pub change : ℕ
  pub change_some : s.next_change ≡ some change
  pub later : now < change
  pub steady : (t : ℕ) → now ≤ t → t < change → covered t intervals ≡ s.is_open
  pub flips : covered change intervals ≡ not s.is_open

-- Nothing is covered before the first range may start.
covered-before : (t from : ℕ) (rs : List Range) → Separate from rs → t < from → covered t rs ≡ false
covered-before t from [] h l = refl
covered-before t from ((s, e) ∷ rs) h l = ground (arith, covered-before t (e + 1) rs h.2)

module _ (now s e : ℕ) (rs : List Range) (h : Separate (e + 1) rs) where
  inside-IsRight :
      s ≤ now
      → now < e
      → IsRight now
          ((s, e) ∷ rs)
          (record { is_open = true; opening_id = some s; next_change = some e })
  inside-IsRight a b = record {
    now_right = ground arith;
    change = e;
    change_some = refl;
    later = b;
    steady = λ t c d. ground arith;
    flips = ground (arith, covered-before e (e + 1) rs h);
  }

  before-IsRight :
      now < s
      → s < e
      → IsRight now
          ((s, e) ∷ rs)
          (record { is_open = false; opening_id = none; next_change = some s })
  before-IsRight a b = record {
    now_right = ground (arith, covered-before now (e + 1) rs h);
    change = s;
    change_some = refl;
    later = a;
    steady = λ t c d. ground (arith, covered-before t (e + 1) rs h);
    flips = ground arith;
  }

  behind-IsRight : (st : ScheduleState) → e ≤ now → IsRight now rs st → IsRight now ((s, e) ∷ rs) st
  behind-IsRight st a r = record {
    now_right = ground (arith, r.now_right);
    change = r.change;
    change_some = r.change_some;
    later = r.later;
    steady = λ t c d. ground (arith, r.steady t c d);
    flips = ground (arith, r.flips, r.later);
  }

scan-IsRight :
    (now from : ℕ) (rs : List Range) → Separate from rs → Holds (IsRight now rs) (scan now rs)
unfolding scan
scan-IsRight now from [] h = tt
scan-IsRight now from ((s, e) ∷ rs) h = elim (Bool-cases (leb s now && ltb now e)) [
  | inl a ↦ rw a (inside-IsRight now s e rs h.2 (ground arith) (ground arith))
  | inr a ↦ elim (Bool-cases (ltb now s)) [
    | inl b ↦ rw (a, b) (before-IsRight now s e rs h.2 (ground arith) h.1)
    | inr b ↦
        rw (a, b)
          (Holds-map _ _ (scan now rs) (λ st _. behind-IsRight now s e rs h.2 st (ground arith))
            (scan-IsRight now (e + 1) rs h.2))
  ]
]

date_intervals-Nonempty :
    (c : Chrono) (z : Zone) (date : ℕ) (ws : List Range)
    → Holds (All Nonempty) (date_intervals c z date ws)
unfolding date_intervals
date_intervals-Nonempty c z date [] = tt
date_intervals-Nonempty c z date (w ∷ ws) = ground (arith, date_intervals-Nonempty c z date ws)

All-append : (rs qs : List Range) → All Nonempty rs → All Nonempty qs → All Nonempty (rs ++ qs)
All-append [] qs a b = b
All-append (r ∷ rs) qs a b = (a.0, All-append rs qs a.1 b)

intervals-Nonempty :
    (c : Chrono) (z : Zone) (today k rounds : ℕ) (ws : List Range)
    → Holds (All Nonempty) (intervals_from c z today k rounds ws)
unfolding intervals_from
intervals-Nonempty c z today k zero ws = tt
intervals-Nonempty c z today k (suc rounds) ws = grind (
  arith,
  All-append,
  date_intervals-Nonempty c z (today + k - 2) ws,
  intervals-Nonempty c z today (k + 1) rounds ws,
)

-- The schedule in a zone, where the windows neither are missing nor fill the day. Its answer is
-- right about the openings of the days around `now`, each resolved in the zone: it is open
-- exactly if `now` lies in one, it stays so up to the next change, and changes there.
pub schedule_in-IsRight :
    (c : Chrono) (schedule : List DailyWindow) (now : ℕ) (z : Zone) (found : List Range)
    {s : ScheduleState}
    → always_open (merged_minutes schedule) ≡ false
    → intervals c z now (merged_minutes schedule) ≡ ok found
    → schedule_in c schedule now z ≡ ok s
    → IsRight now found s
unfolding schedule_in intervals
schedule_in-IsRight c schedule now z found {s} a f h =
    let full = Holds-ok (All Nonempty) (intervals-Nonempty c z (z.date_of now) 0 6 _) f in
    let scanned : scan now (merge (sort found)) ≡ ok s = ground (arith, a, f, h) in
    let right =
      Holds-ok (IsRight now (merge (sort found)))
        (scan-IsRight now 0 (merge (sort found))
          (merge-Separate (sort found) (sort-Rising found) (sort-All Nonempty found full)))
        scanned in
    let same : (t : ℕ) → covered t found ≡ covered t (merge (sort found)) =
      λ t. sym (covered-merge t (sort found) (sort-Rising found) ∙ covered-sort t found) in
    record {
      now_right = same now ∙ right.now_right;
      change = right.change;
      change_some = right.change_some;
      later = right.later;
      steady = λ t a b. same t ∙ right.steady t a b;
      flips = same right.change ∙ right.flips;
    }

-- ===== src/Policy/Windows/Coverage.antt =====
-- The union of the daily windows covers the minutes that the windows do.

use dst_server.Base.{
  ℕ, ◌+◌, ◌≤◌, ◌<◌, ◌≡◌, refl, ◌∙◌, ap, Bool, true, false, not, ◌||◌, List, [], ◌∷◌, Option, none,
  some, All, any, Bool-cases, inl, inr, ==_iff, keep, arith, ltb, ◌==◌, if◌then◌else◌,
}
use dst_server.Ranges.{Range, sort, push, push_all, merge, holds, covered, Separate}
use dst_server.Ranges.Merge.{
  covered-sort, covered-append, covered-merge, merge-Separate, sort-Rising, Rising, Nonempty,
  sort-All, Rising-weaken,
}
use dst_server.Policy.Windows.{
  DailyWindow, window_ranges, all_ranges, push_minutes, close_last, join_midnight, merged_minutes,
  opens, window_opens,
}

abbrev nonempty : Range → Bool
nonempty r = not (r.0 == r.1)

push_minutes-keep :
    (merged rs : List Range) → push_minutes merged rs ≡ push_all merged (keep nonempty rs)
unfolding push_minutes push_all
push_minutes-keep merged [] = refl
push_minutes-keep merged ((s, e) ∷ rs) =
    ground (arith, push_minutes-keep merged rs, push_minutes-keep (push merged (s, e)) rs)

covered-keep : (m : ℕ) (rs : List Range) → covered m (keep nonempty rs) ≡ covered m rs
covered-keep m [] = refl
covered-keep m ((s, e) ∷ rs) = ground (arith, covered-keep m rs)

Rising-keep : (from : ℕ) (rs : List Range) → Rising from rs → Rising from (keep nonempty rs)
Rising-keep from [] h = tt
Rising-keep from ((s, e) ∷ rs) h =
    ground (arith, Rising-keep s rs h.1, Rising-keep from rs (Rising-weaken from s rs h.0 h.1))

-- A range within a day.
abbrev InDay : Range → Type 0
InDay r = (r.0 ≤ r.1) × (r.1 ≤ 1440)

keep-InDay :
    (rs : List Range)
    → All InDay rs
    → All InDay (keep nonempty rs) × All Nonempty (keep nonempty rs)
keep-InDay [] h = (tt, tt)
keep-InDay ((s, e) ∷ rs) h = ground (arith, keep-InDay rs h.1)

-- The windows hold times of day.
pub record IsTime (w : DailyWindow) : Type 0 where
  pub start_hour : w.start.hour < 24
  pub start_minute : w.start.minute < 60
  pub end_hour : w.end.hour < 24
  pub end_minute : w.end.minute < 60

all_ranges-InDay : (ws : List DailyWindow) → All IsTime ws → All InDay (all_ranges ws)
unfolding all_ranges
all_ranges-InDay [] h = tt
all_ranges-InDay (w ∷ ws) h = ground (arith, h.0, all_ranges-InDay ws h.1)

covered-all_ranges :
    (m : ℕ) (ws : List DailyWindow) → m < 1440 → covered m (all_ranges ws) ≡ any (window_opens m) ws
unfolding all_ranges
covered-all_ranges m [] h = refl
covered-all_ranges m (w ∷ ws) h =
    ground (arith, covered-append m (window_ranges w) (all_ranges ws), covered-all_ranges m ws h)

opens-Separate : (m from : ℕ) (rs : List Range) → Separate from rs → any (opens m) rs ≡ covered m rs
opens-Separate m from [] h = refl
opens-Separate m from ((s, e) ∷ rs) h = ground (arith, opens-Separate m (e + 1) rs h.2)

-- The join stands for the last range and the one before it that ends at `end`.
abbrev Joins : ℕ → ℕ → List Range → Option (List Range) → Type 0
Joins m end rs none = Unit
Joins m end rs (some joined) = any (opens m) joined ≡ (ltb m end || covered m rs)

or_swap : (a b c : Bool) → (a || (b || c)) ≡ (b || (a || c))
or_swap true true c = refl
or_swap true false c = refl
or_swap false b c = refl

opens-holds : (m s e : ℕ) → s < e → opens m (s, e) ≡ holds m (s, e)
opens-holds m s e h = ground arith

Joins-cons :
    (m end s e : ℕ) (rs : List Range) (o : Option (List Range))
    → s < e
    → Joins m end rs o
    → Joins m end ((s, e) ∷ rs) (elim o [ none ↦ none | some joined ↦ some ((s, e) ∷ joined) ])
Joins-cons m end s e rs none h j = tt
Joins-cons m end s e rs (some joined) h j =
    rw (opens-holds m s e h) (rw j (or_swap (holds m (s, e)) (ltb m end) (covered m rs)))

close_last-Joins :
    (m end from : ℕ) (r : Range) (rs : List Range)
    → m < 1440
    → end < from
    → Separate from (r ∷ rs)
    → Joins m end (r ∷ rs) (close_last end r rs)
unfolding close_last
close_last-Joins m end from (s, e) [] l g h = ground arith
close_last-Joins m end from (s, e) (r ∷ rs) l g h =
    Joins-cons m end s e (r ∷ rs) (close_last end r rs) h.1
      (close_last-Joins m end (e + 1) r rs l (omega arith) h.2)

first-joined :
    (m s e : ℕ) (rs : List Range) (o : Option (List Range))
    → Separate 0 ((s, e) ∷ rs)
    → s ≡ 0
    → Joins m e rs o
    → any (opens m) (elim o [ none ↦ (s, e) ∷ rs | some joined ↦ joined ]) ≡ covered m ((s, e) ∷ rs)
first-joined m s e rs none h z j = opens-Separate m 0 ((s, e) ∷ rs) h
first-joined m s e rs (some joined) h z j = rw j (ground arith)

joined-covered :
    (m s e : ℕ) (rs : List Range) (o : Option (List Range))
    → Separate 0 ((s, e) ∷ rs)
    → Joins m e rs o
    → any
        (opens m)
        (if s == 0 then elim o [ none ↦ (s, e) ∷ rs | some joined ↦ joined ] else (s, e) ∷ rs)
      ≡ covered m ((s, e) ∷ rs)
joined-covered m s e rs o h j = elim (Bool-cases (s == 0)) [
  | inr f ↦ rw f (opens-Separate m 0 ((s, e) ∷ rs) h)
  | inl t ↦ rw t (first-joined m s e rs o h ((==_iff s 0).0 t) j)
]

join_midnight-covered :
    (m : ℕ) (rs : List Range)
    → m < 1440
    → Separate 0 rs
    → any (opens m) (join_midnight rs) ≡ covered m rs
unfolding join_midnight
join_midnight-covered m [] l h = refl
join_midnight-covered m ((s, e) ∷ []) l h = ground arith
join_midnight-covered m ((s, e) ∷ r ∷ rs) l h =
    joined-covered m s e (r ∷ rs) (close_last e r rs) h
      (close_last-Joins m e (e + 1) r rs l (omega arith) h.2)

merged-eq :
    (ws : List DailyWindow)
    → merged_minutes ws ≡ join_midnight (merge (keep nonempty (sort (all_ranges ws))))
unfolding merged_minutes merge
merged-eq ws = rw (push_minutes-keep [] (sort (all_ranges ws)))

module _ (ws : List DailyWindow) (h : All IsTime ws) where
  sorted-InDay :
      All InDay (keep nonempty (sort (all_ranges ws)))
      × All Nonempty (keep nonempty (sort (all_ranges ws)))
  sorted-InDay =
      keep-InDay (sort (all_ranges ws)) (sort-All InDay (all_ranges ws) (all_ranges-InDay ws h))

  pub merged-Separate : Separate 0 (merge (keep nonempty (sort (all_ranges ws))))
  merged-Separate = merge-Separate _ (Rising-keep 0 _ (sort-Rising (all_ranges ws))) sorted-InDay.1

-- A minute of the day lies in the merged windows exactly if it lies in one of the windows, those
-- that run over midnight included, whatever their order and overlaps.
pub merged_minutes-opens :
    (ws : List DailyWindow) (m : ℕ)
    → All IsTime ws
    → m < 1440
    → any (opens m) (merged_minutes ws) ≡ any (window_opens m) ws
merged_minutes-opens ws m h l =
    ap (any (opens m)) (merged-eq ws)
    ∙ join_midnight-covered m _ l (merged-Separate ws h)
    ∙ covered-merge m _ (Rising-keep 0 _ (sort-Rising (all_ranges ws)))
    ∙ covered-keep m (sort (all_ranges ws))
    ∙ covered-sort m (all_ranges ws)
    ∙ covered-all_ranges m ws l

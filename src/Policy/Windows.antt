-- ===== src/Policy/Windows.antt =====
-- The daily windows of crates/dst-server/src/policy.rs, and their union in minutes of the day.
pub mod Coverage
use mathlib.Core.List.{reverse}
use dst_server.Base.{
  ℕ, ◌+◌, ◌-◌, ◌*◌, ◌≤◌, ◌<◌, ◌≡◌, String, Bool, true, false, not, ◌&&◌, ◌||◌, List, [], ◌∷◌, ◌++◌,
  Option, none, some, Result, ok, err, Fallible, ◌>>=◌, ◌>>◌, ensure, ltb, leb, ◌==◌, if◌then◌else◌,
}
use dst_server.Ranges.{Range, sort, push}
use dst_server.Policy.Time.{NaiveTime}

pub record DailyWindow : Type 0 where
  pub start : NaiveTime
  pub end : NaiveTime

-- `==` on times.
abbrev pub same_time : NaiveTime → NaiveTime → Bool
same_time a b =
    (a.hour == b.hour && a.minute == b.minute)
    && (a.second == b.second && a.nanosecond == b.nanosecond)

abbrev pub on_minute : NaiveTime → Bool
on_minute t = t.second == 0 && t.nanosecond == 0

unfoldable pub validate_window : DailyWindow → Fallible (Unit {0})
validate_window w = do
  ensure (not (same_time w.start w.end))
      "daily window endpoints must differ; use an empty schedule for all day"
  ensure (on_minute w.start && on_minute w.end) "daily windows require minute precision"

abbrev pub minute_of : NaiveTime → ℕ
minute_of t = t.hour * 60 + t.minute

-- The ranges of one window: two if it runs over midnight.
abbrev pub window_ranges : DailyWindow → List Range
window_ranges w =
    let start = minute_of w.start in
    let end = minute_of w.end in
    if ltb start end then (start, end) ∷ [] else (start, 1440) ∷ (0, end) ∷ []

unfoldable pub all_ranges : List DailyWindow → List Range
all_ranges [] = []
all_ranges (w ∷ ws) = window_ranges w ++ all_ranges ws

-- The merging loop, which skips empty ranges.
unfoldable pub push_minutes : List Range → List Range → List Range
push_minutes merged [] = merged
push_minutes merged ((start, end) ∷ rs) =
    push_minutes (if start == end then merged else push merged (start, end)) rs

-- The join of the two sides of midnight: `last` is the last range so far, `rest` what follows.
unfoldable pub close_last : ℕ → Range → List Range → Option (List Range)
close_last end (s, e) [] = if e == 1440 then some ((s, end) ∷ []) else none
close_last end (s, e) (r ∷ rs) = elim (close_last end r rs) [
  | none ↦ none
  | some joined ↦ some ((s, e) ∷ joined)
]

unfoldable pub join_midnight : List Range → List Range
unfolding close_last
join_midnight [] = []
join_midnight ((s, e) ∷ []) = (s, e) ∷ []
join_midnight ((s, e) ∷ r ∷ rs) =
    if s == 0
    then elim (close_last e r rs) [ none ↦ (s, e) ∷ r ∷ rs | some joined ↦ joined ]
    else (s, e) ∷ r ∷ rs

unfoldable pub merged_minutes : List DailyWindow → List Range
unfolding all_ranges push_minutes join_midnight
merged_minutes windows = join_midnight (reverse (push_minutes [] (sort (all_ranges windows))))

-- Whether a minute of the day lies in a window; one that does not end after it starts runs over
-- midnight.
abbrev pub opens : ℕ → Range → Bool
opens m (s, e) = if ltb s e then leb s m && ltb m e else leb s m || ltb m e

abbrev pub window_opens : ℕ → DailyWindow → Bool
window_opens m w = opens m (minute_of w.start, minute_of w.end)

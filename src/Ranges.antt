-- ===== src/Ranges.antt =====
-- Half-open ranges of minutes or instants, and the loop that joins them, which
-- crates/dst-server/src/policy.rs has twice (`merged_minutes` and `schedule_in`).
pub mod Merge
use dst_server.Base.{
  ℕ, ◌+◌, ◌≤◌, ◌<◌, ◌≡◌, Bool, true, false, ◌&&◌, ◌||◌, List, [], ◌∷◌, max, any, ltb, leb,
  if◌then◌else◌,
}
use mathlib.Core.List.{reverse}

abbrev pub Range : Type 0
Range = ℕ × ℕ

-- The order of pairs.
abbrev pub le_range : Range → Range → Bool
le_range (a, b) (c, d) = ltb a c || (leb a c && leb b d)

insert : Range → List Range → List Range
insert r [] = r ∷ []
insert r (q ∷ qs) = if le_range r q then r ∷ q ∷ qs else q ∷ insert r qs

-- `sort_unstable`: on pairs of numbers the sorted list is the only one.
unfoldable pub sort : List Range → List Range
unfolding insert
sort [] = []
sort (r ∷ rs) = insert r (sort rs)

-- One round of the loop: the last merged range, which is the head here, grows, or a new one opens.
unfoldable pub push : List Range → Range → List Range
push [] r = r ∷ []
push ((start, end) ∷ merged) (s, e) =
    if leb s end then (start, max end e) ∷ merged else (s, e) ∷ (start, end) ∷ merged

unfoldable pub push_all : List Range → List Range → List Range
unfolding push
push_all merged [] = merged
push_all merged (r ∷ rs) = push_all (push merged r) rs

unfoldable pub merge : List Range → List Range
unfolding push_all
merge ranges = reverse (push_all [] ranges)

-- A range holds the numbers from its start up to its end, which it does not hold.
abbrev pub holds : ℕ → Range → Bool
holds n (s, e) = leb s n && ltb n e

abbrev pub covered : ℕ → List Range → Bool
covered n = any (holds n)

-- Each range is nonempty and starts behind the end of the one before, with a gap.
abbrev pub Separate : ℕ → List Range → Type 0
Separate from [] = Unit
Separate from ((s, e) ∷ rs) = (from ≤ s) × (s < e) × Separate (e + 1) rs

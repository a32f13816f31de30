-- ===== src/Policy/Time.antt =====
-- What crates/dst-server/src/policy.rs takes from chrono, chrono-tz and std::time. An instant is
-- the number of nanoseconds since chrono's earliest UTC instant, a date the number of days since
-- its earliest date, a local date and time the number of minutes since that date began.
use dst_server.Base.{
  ℕ, ◌+◌, ◌-◌, ◌*◌, String, ◌&&◌, Option, none, some, ok, err, Fallible, panic, leb, if◌then◌else◌,
}
use dst_server.Base.Int.{ℤ, pos_part, neg_part, ◌-ℤ◌}

-- `chrono::LocalResult`.
pub data LocalResult : Type 0 where
  single : ℕ → LocalResult
  ambiguous : ℕ → ℕ → LocalResult
  gap : LocalResult

-- A time zone: the local date of an instant, the instants of a local time, and a text for the
-- local time of day of an instant (`%H:%M`).
pub record Zone : Type 0 where
  pub date_of : ℕ → ℕ
  pub from_local : ℕ → LocalResult
  pub clock : ℕ → String

-- The limits of chrono's types, and its time zones.
pub record Chrono : Type 0 where
  pub last_instant : ℕ
  pub dates : ℕ
  pub last_delta : ℕ
  pub zones : String → Option Zone
  pub local_zone : Zone

-- A `NaiveTime`.
pub record NaiveTime : Type 0 where
  pub hour : ℕ
  pub minute : ℕ
  pub second : ℕ
  pub nanosecond : ℕ

abbrev pub seconds : ℕ → ℕ
seconds n = n * 1000000000

abbrev pub hours : ℕ → ℕ
hours n = seconds (n * 3600)

-- `DateTime::checked_add_signed`.
unfoldable pub checked_add_signed : Chrono → ℕ → ℤ → Option ℕ
checked_add_signed c t d =
    let later = t + pos_part d in
    if leb (neg_part d) later && leb (later - neg_part d) c.last_instant
    then some (later - neg_part d)
    else none

-- `DateTime + TimeDelta`, which panics out of range.
unfoldable pub add_time : Chrono → ℕ → ℕ → Fallible ℕ
add_time c t d = if leb (t + d) c.last_instant then ok (t + d) else err panic

-- `DateTime - TimeDelta`.
unfoldable pub sub_time : ℕ → ℕ → Fallible ℕ
sub_time t d = if leb d t then ok (t - d) else err panic

-- `TimeDelta - TimeDelta`.
unfoldable pub sub_delta : Chrono → ℤ → ℤ → Fallible ℤ
sub_delta c a b =
    let d = a -ℤ b in
    if leb (pos_part d) c.last_delta && leb (neg_part d) c.last_delta then ok d else err panic

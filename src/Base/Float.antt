-- ===== src/Base/Float.antt =====
-- `f64` exactly: a finite binary64 number is a whole multiple of 2^-1074.
use Prim.Native.Nat.{ℕ, zero, suc, ◌+◌, ◌-◌, ◌*◌, ◌/◌, ◌%◌, ◌^◌}
use mathlib.Core.Bool.{Bool, true, false, not, ◌&&◌, ◌||◌}
use mathlib.Core.Option.{Option, none, some}
use dst_server.Base.Tests.{ltb, leb, if◌then◌else◌}

-- The flag is the sign, true for a minus; `finite s n` is n * 2^-1074 with that sign.
pub data F64 : Type 0 where
  nan : F64
  infinite : Bool → F64
  finite : Bool → ℕ → F64

-- The number of units of 2^-1074 in one.
unfoldable pub unit : ℕ
unit = 2 ^ 1074

unfoldable pub is_finite : F64 → Bool
is_finite (finite s n) = true
is_finite _ = false

-- `<=`, which no comparison with NaN satisfies; the two zeros are equal.
unfoldable pub le_f64 : F64 → F64 → Bool
le_f64 nan y = false
le_f64 (infinite s) nan = false
le_f64 (infinite s) (infinite t) = s || not t
le_f64 (infinite s) (finite t n) = s
le_f64 (finite s m) nan = false
le_f64 (finite s m) (infinite t) = not t
le_f64 (finite true m) (finite true n) = leb n m
le_f64 (finite true m) (finite false n) = true
le_f64 (finite false m) (finite true n) = leb (m + n) 0
le_f64 (finite false m) (finite false n) = leb m n

-- `<`.
unfoldable pub lt_f64 : F64 → F64 → Bool
unfolding le_f64
lt_f64 x y = le_f64 x y && not (le_f64 y x)

abbrev pub zero_f64 : F64
zero_f64 = finite false 0

-- To the nearest, ties to even.
round : ℕ → ℕ → ℕ
round n d =
    let q = n / d in
    let r = n % d in if ltb (2 * r) d then q else if ltb d (2 * r) then q + 1 else q + q % 2

-- `std::time::Duration::MAX` in nanoseconds.
abbrev pub max_duration : ℕ
max_duration = 18446744073709551615 * 1000000000 + 999999999

-- `Duration::try_from_secs_f64`, in nanoseconds.
unfoldable pub try_from_secs_f64 : F64 → Option ℕ
unfolding unit round
try_from_secs_f64 (finite s n) =
    let d = round (n * 1000000000) unit in
    if s && ltb 0 n then none else if leb d max_duration then some d else none
try_from_secs_f64 _ = none

-- The bits of a number below 2 ^ 4096.
bits : ℕ → ℕ → ℕ
bits zero n = 0
bits (suc f) n = let rest = bits f (n / 2) in if leb n 0 then 0 else 1 + rest

-- The double nearest to n / d units: 53 significant bits, and infinite from 2^1024 on.
rounded : Bool → ℕ → ℕ → F64
unfolding bits round
rounded s n d =
    let step = 2 ^ (bits 4096 (n / d) - 53) in
    let m = round n (d * step) * step in if leb (2 ^ 2098) m then infinite s else finite s m

abbrev same_sign : Bool → Bool → Bool
same_sign true t = t
same_sign false t = not t

-- `+`, `*`, and `as f64` of a natural number.
unfoldable pub add_f64 : F64 → F64 → F64
unfolding rounded
add_f64 nan y = nan
add_f64 (infinite s) nan = nan
add_f64 (infinite s) (infinite t) = if same_sign s t then infinite s else nan
add_f64 (infinite s) (finite t n) = infinite s
add_f64 (finite s m) nan = nan
add_f64 (finite s m) (infinite t) = infinite t
add_f64 (finite s m) (finite t n) =
    if same_sign s t
    then rounded s (m + n) 1
    else if leb m n
    then (if leb n m then finite false 0 else rounded t (n - m) 1)
    else rounded s (m - n) 1

unfoldable pub mul_f64 : F64 → F64 → F64
unfolding rounded unit
mul_f64 nan y = nan
mul_f64 (infinite s) nan = nan
mul_f64 (infinite s) (infinite t) = infinite (not (same_sign s t))
mul_f64 (infinite s) (finite t n) = if leb n 0 then nan else infinite (not (same_sign s t))
mul_f64 (finite s m) nan = nan
mul_f64 (finite s m) (infinite t) = if leb m 0 then nan else infinite (not (same_sign s t))
mul_f64 (finite s m) (finite t n) = rounded (not (same_sign s t)) (m * n) unit

unfoldable pub of_ℕ : ℕ → F64
unfolding rounded unit
of_ℕ n = rounded false (n * unit) 1

-- ===== src/Policy/Inputs.antt =====
-- What the Agent observes of a room for crates/dst-server/src/policy.rs, and the actions it can
-- be told to take.
use dst_server.Base.{
  ℕ, ◌+◌, ◌/◌, String, Bool, true, false, not, ◌&&◌, ◌||◌, List, [], ◌∷◌, Option, none, some, ok,
  Fallible, ◌>>◌, ensure, Map, values, lookup, length, all, is_empty, is_none_or, is_some_and,
  text_is_empty, distinct_texts, decimal, ◌⧺◌, ltb, leb, ◌==◌, if◌then◌else◌,
}
use dst_server.Base.Float.{F64, is_finite, le_f64, zero_f64, try_from_secs_f64}

pub record Presence : Type 0 where
  pub session_id : String
  pub observation : String
  pub reliable : Bool
  pub client_count : ℕ
  pub player_count : ℕ
  pub idle_seconds : F64
  pub observed_seconds : F64

-- `monotonic` is in nanoseconds.
pub record Inputs : Type 0 where
  pub game_running : Bool
  pub all_ready : Bool
  pub clean_stop_in_progress : Bool
  pub busy : Bool
  pub writes_in_progress : Bool
  pub faulted : Bool
  pub mods_outdated : Bool
  pub expected_shards : List String
  pub presence : Map Presence
  pub master_day : Option ℕ
  pub monotonic : Option ℕ

abbrev is_some {ℓ} : {A : Type ℓ} → Option A → Bool
is_some none = false
is_some (some a) = true

unfoldable pub valid_time : F64 → Bool
valid_time value = is_finite value && (le_f64 zero_f64 value && is_some (try_from_secs_f64 value))

unfoldable pub validate_presences : List Presence → Fallible (Unit {0})
unfolding valid_time
validate_presences [] = ok tt
validate_presences (p ∷ ps) = do
  ensure (not (text_is_empty p.session_id) && not (text_is_empty p.observation))
      "presence identity is missing"
  ensure (valid_time p.idle_seconds && valid_time p.observed_seconds)
      "presence times must be finite nonnegative durations"
  validate_presences ps

unfoldable pub validate_inputs : Inputs → Fallible (Unit {0})
unfolding validate_presences
validate_inputs i = do
  ensure (not i.all_ready || i.game_running) "a stopped room cannot be ready"
  ensure (is_none_or i.master_day (λ day. ltb 0 day)) "world day must be positive"
  ensure
      (distinct_texts i.expected_shards && all (λ name. not (text_is_empty name)) i.expected_shards)
      "expected shards must be nonempty and unique"
  validate_presences (values i.presence)

unfoldable pub reliable : Inputs → Bool
reliable i =
    i.all_ready
    && (not (is_empty i.expected_shards)
        && (length i.presence == length i.expected_shards
            && all (λ name. is_some_and (lookup name i.presence) (λ (p : Presence). p.reliable))
                i.expected_shards))

unfoldable pub reliable_empty : Inputs → Bool
reliable_empty i =
    reliable i
    && all (λ (p : Presence). p.client_count == 0 && p.player_count == 0) (values i.presence)

pub data StopReason : Type 0 where
  schedule mod_update mod_failure : StopReason

pub data Action : Type 0 where
  start : Action
  stop : StopReason → Option String → Action
  announce : String → Action
  update_mods : ℕ → Action
  regenerate : Map String → Action

-- `mod_message`, on a number of seconds that is not negative.
unfoldable pub mod_message : ℕ → String
mod_message seconds =
    let when =
      if seconds == 0
      then "即将"
      else if leb 60 seconds
      then "将在约 " ⧺ decimal ((seconds + 59) / 60) ⧺ " 分钟后"
      else "将在" ⧺ decimal seconds ⧺ "秒后" in
    "本房间" ⧺ when ⧺ "重启更新 MOD，预计耗时约 5 分钟，请提前安排游戏进度。"

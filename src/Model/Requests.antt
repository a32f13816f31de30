-- ===== src/Model/Requests.antt =====
-- Requests, their methods and their errors.
use dst_server.Base.{ℕ, String, Bool, Option, Result}
use dst_server.Base.Float.{F64}
use dst_server.Model.Json.{Value, null, Entries}

pub data ErrorCode : Type 0 where
  invalid not_ready busy unsupported not_found conflict partial_failure unknown : ErrorCode
  transport timeout overflow stale_reference lua protocol internal : ErrorCode

pub record Error (N : Type 0) : Type 0 where
  pub code : ErrorCode
  pub message : String
  pub details : Value N

-- `Error::new`.
abbrev pub new_error : {N : Type 0} → ErrorCode → String → Error N
new_error c m = record { code = c; message = m; details = null }

-- `model::Result`.
abbrev pub Answer : Type 0 → Type 0 → Type 0
Answer N A = Result (Error N) A

pub data Scope : Type 0 where
  room shard : Scope

pub data Target : Type 0 where
  room : Target
  shard : String → Target

pub record Countdown (N : Type 0) : Type 0 where
  pub template : String
  pub delay : F64
  pub interval : F64
  pub parameters : Entries N

pub record Vitals : Type 0 where
  pub health : Option F64
  pub hunger : Option F64
  pub sanity : Option F64
  pub temperature : Option F64
  pub moisture : Option F64

pub data Request (N : Type 0) : Type 0 where
  status start kill read_configuration save reset : Request N
  health presence room world runtime mods connected_shards list_players : Request N
  blocklist read_permissions : Request N
  stop restart : Option (Countdown N) → Request N
  update_mods : Bool → Option (Countdown N) → Request N
  configure : Value N → Bool → Request N
  set_policy : Value N → Request N
  execute execute_json evaluate execute_all : String → Request N
  announce : String → ℕ → F64 → Request N
  pause : Bool → Request N
  rollback : ℕ → Request N
  regenerate : Option String → Option Bool → Request N
  regenerate_shard : Bool → Request N
  snapshots : ℕ → Option ℕ → Request N
  rollback_to_day : ℕ → Request N
  rollback_to_snapshot : String → ℕ → Request N
  get_player inventory kick is_blocked unban is_admin : String → Request N
  kill_player revive despawn is_whitelisted whitelist unwhitelist : String → Request N
  ban : String → Option ℕ → Request N
  set_admin : String → Bool → Request N
  set_vitals : String → Vitals → Request N
  migrate : String → String → ℕ → Request N
  teleport : String → F64 → F64 → F64 → Request N
  give remove : String → String → ℕ → Request N

pub record Envelope (N : Type 0) : Type 0 where
  pub target : Target
  pub request : Request N
  pub timeout : Option F64

-- ===== src/Rpc/Schema.antt =====
-- Requests of crates/dst-server/schema/room.capnp as capnp reads them. What an absent pointer
-- stands for is an option; a pointer that cannot be followed carries the report of capnp. The
-- arguments of a request are in its constructor, and `unreadable` is a request whose kind or
-- arguments cannot be read.
use dst_server.Base.{ℕ, String, Bool, Option, Result}
use dst_server.Base.Float.{F64}
use dst_server.Rpc.Values.{Wire, WireText, WireEntries}

-- `capnp::Result`.
abbrev pub Read {ℓ} : Type ℓ → Type ℓ
Read A = Result String A

pub record WireCountdown : Type 0 where
  pub template : WireText
  pub delay : F64
  pub interval : F64
  pub parameters : Read WireEntries

abbrev pub WireNotice : Type 0
WireNotice = Option (Read WireCountdown)

pub record WireVitals : Type 0 where
  pub health : Option (Read F64)
  pub hunger : Option (Read F64)
  pub sanity : Option (Read F64)
  pub temperature : Option (Read F64)
  pub moisture : Option (Read F64)

pub data WireRequest : Type 0 where
  status start kill read_configuration save reset : WireRequest
  health presence room world runtime mods connected_shards list_players : WireRequest
  blocklist read_permissions : WireRequest
  stop restart : WireNotice → WireRequest
  update_mods : Bool → WireNotice → WireRequest
  configure : Read Wire → Bool → WireRequest
  set_policy : Read Wire → WireRequest
  execute execute_json evaluate execute_all : WireText → WireRequest
  announce : WireText → ℕ → F64 → WireRequest
  pause : Bool → WireRequest
  rollback : ℕ → WireRequest
  regenerate : Option WireText → Option (Read Bool) → WireRequest
  regenerate_shard : Bool → WireRequest
  snapshots : ℕ → Option (Read ℕ) → WireRequest
  rollback_to_day : ℕ → WireRequest
  rollback_to_snapshot : WireText → ℕ → WireRequest
  get_player inventory kick is_blocked unban is_admin : WireText → WireRequest
  kill_player revive despawn is_whitelisted whitelist unwhitelist : WireText → WireRequest
  ban : WireText → Option (Read ℕ) → WireRequest
  set_admin : WireText → Bool → WireRequest
  set_vitals : WireText → WireVitals → WireRequest
  migrate : WireText → WireText → ℕ → WireRequest
  teleport : WireText → F64 → F64 → F64 → WireRequest
  give remove : WireText → WireText → ℕ → WireRequest
  unreadable : String → WireRequest

pub data WireErrorCode : Type 0 where
  invalid not_ready busy unsupported not_found conflict partial_failure unknown : WireErrorCode
  transport timeout overflow stale_reference lua protocol internal : WireErrorCode

pub record WireError : Type 0 where
  pub code : Read WireErrorCode
  pub message : WireText
  pub details : Read Wire

pub data WireOutcome : Type 0 where
  value : Read Wire → WireOutcome
  error : Read WireError → WireOutcome
  unreadable : String → WireOutcome

pub data WireTarget : Type 0 where
  room : WireTarget
  shard : WireText → WireTarget

pub record WireEnvelope : Type 0 where
  pub target : Option (Read WireTarget)
  pub request : Option (Read WireRequest)
  pub timeout : Option (Read F64)

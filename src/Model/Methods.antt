-- ===== src/Model/Methods.antt =====
-- What crates/dst-server/src/model.rs tells of each request's method: one registry.
use dst_server.Base.{ℕ, ◌+◌, ◌*◌, String, Bool, true, false, List, [], ◌∷◌}
use dst_server.Base.Float.{F64, finite, unit}
use dst_server.Model.Requests.{
  Scope, Request, status, start, stop, restart, kill, update_mods, read_configuration, configure,
  set_policy, execute, execute_json, evaluate, execute_all, announce, save, pause, reset, rollback,
  regenerate, regenerate_shard, snapshots, rollback_to_day, rollback_to_snapshot, health, presence,
  room, world, runtime, mods, connected_shards, list_players, get_player, inventory, kick, ban,
  blocklist, is_blocked, unban, is_admin, read_permissions, set_admin, set_vitals, kill_player,
  revive, despawn, migrate, teleport, give, remove, is_whitelisted, whitelist, unwhitelist,
}

-- Whole seconds.
unfoldable pub timeout_seconds : ℕ → F64
unfolding unit
timeout_seconds n = finite false (n * unit)

abbrev command_timeout : ℕ
command_timeout = 120

abbrev start_timeout : ℕ
start_timeout = 900

abbrev reload_timeout : ℕ
reload_timeout = 900

abbrev stop_timeout : ℕ
stop_timeout = 120

abbrev output_drain_timeout : ℕ
output_drain_timeout = 30

abbrev restart_timeout : ℕ
restart_timeout = 1200

abbrev room_scopes : List Scope
room_scopes = Scope.room ∷ []

abbrev shard_scopes : List Scope
shard_scopes = Scope.shard ∷ []

abbrev both_scopes : List Scope
both_scopes = Scope.room ∷ Scope.shard ∷ []

-- The default timeout is in seconds.
pub record Method : Type 0 where
  pub name : String
  pub mutation : Bool
  pub scopes : List Scope
  pub default_timeout : ℕ

abbrev method : String → Bool → List Scope → ℕ → Method
method n m s t = record { name = n; mutation = m; scopes = s; default_timeout = t }

module _ {N : Type 0} where
  unfoldable pub metadata : Request N → Method
  metadata status = method "status" false both_scopes command_timeout
  metadata start = method "start" true both_scopes start_timeout
  metadata (stop a) = method "stop" true both_scopes 220
  metadata (restart a) = method "restart" true both_scopes restart_timeout
  metadata kill = method "kill" true both_scopes (stop_timeout + output_drain_timeout)
  metadata (update_mods a b) = method "update_mods" true room_scopes 7200
  metadata read_configuration = method "read_configuration" false room_scopes command_timeout
  metadata (configure a b) = method "configure" true room_scopes command_timeout
  metadata (set_policy a) = method "set_policy" true room_scopes command_timeout
  metadata (execute a) = method "execute" true shard_scopes command_timeout
  metadata (execute_json a) = method "execute_json" true shard_scopes command_timeout
  metadata (evaluate a) = method "evaluate" true shard_scopes command_timeout
  metadata (execute_all a) = method "execute_all" true room_scopes command_timeout
  metadata (announce a b c) = method "announce" true room_scopes command_timeout
  metadata save = method "save" true room_scopes command_timeout
  metadata (pause a) = method "pause" true both_scopes command_timeout
  metadata reset = method "reset" true room_scopes reload_timeout
  metadata (rollback a) = method "rollback" true room_scopes reload_timeout
  metadata (regenerate a b) = method "regenerate" true room_scopes reload_timeout
  metadata (regenerate_shard a) = method "regenerate_shard" true shard_scopes reload_timeout
  metadata (snapshots a b) = method "list_snapshots" false both_scopes command_timeout
  metadata (rollback_to_day a) = method "rollback_to_day" true room_scopes reload_timeout
  metadata (rollback_to_snapshot a b) =
      method "rollback_to_snapshot" true room_scopes reload_timeout
  metadata health = method "health" false both_scopes command_timeout
  metadata presence = method "presence" false both_scopes command_timeout
  metadata room = method "room" false shard_scopes command_timeout
  metadata world = method "world" false shard_scopes command_timeout
  metadata runtime = method "runtime" false shard_scopes command_timeout
  metadata mods = method "mods" false both_scopes command_timeout
  metadata connected_shards = method "connected_shards" false shard_scopes command_timeout
  metadata list_players = method "list_players" false both_scopes command_timeout
  metadata (get_player a) = method "get_player" false both_scopes command_timeout
  metadata (inventory a) = method "inventory" false both_scopes command_timeout
  metadata (kick a) = method "kick" true both_scopes command_timeout
  metadata (ban a b) = method "ban" true both_scopes command_timeout
  metadata blocklist = method "blocklist" false both_scopes command_timeout
  metadata (is_blocked a) = method "is_blocked" false both_scopes command_timeout
  metadata (unban a) = method "unban" true both_scopes command_timeout
  metadata (is_admin a) = method "is_admin" false both_scopes command_timeout
  metadata read_permissions = method "read_permissions" false room_scopes command_timeout
  metadata (set_admin a b) = method "set_admin" true room_scopes command_timeout
  metadata (set_vitals a b) = method "set_vitals" true both_scopes command_timeout
  metadata (kill_player a) = method "kill_player" true both_scopes command_timeout
  metadata (revive a) = method "revive" true both_scopes command_timeout
  metadata (despawn a) = method "despawn" true both_scopes command_timeout
  metadata (migrate a b c) = method "migrate" true both_scopes command_timeout
  metadata (teleport a b c d) = method "teleport" true both_scopes command_timeout
  metadata (give a b c) = method "give" true both_scopes command_timeout
  metadata (remove a b c) = method "remove" true both_scopes command_timeout
  metadata (is_whitelisted a) = method "is_whitelisted" false room_scopes command_timeout
  metadata (whitelist a) = method "whitelist" true room_scopes command_timeout
  metadata (unwhitelist a) = method "unwhitelist" true room_scopes command_timeout

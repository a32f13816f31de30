-- ===== src/Rpc/Requests.antt =====
-- How crates/dst-server/src/rpc/codec.rs writes requests on the wire, and reads them.
pub mod RoundTrip
use dst_server.Base.{ℕ, String, Bool, true, false, Option, none, some, Result, ok, err, ◌>>=◌, ◌*◌}
use dst_server.Base.Float.{F64}
use dst_server.Model.Json.{Values, Value, Entries, no_entries, Numbers, entries_length}
use dst_server.Model.Requests.{
  ErrorCode, invalid, Error, new_error, Answer, Countdown, Vitals, Request, status, start, kill,
  read_configuration, save, reset, health, presence, room, world, runtime, mods, connected_shards,
  list_players, blocklist, read_permissions, stop, restart, update_mods, configure, set_policy,
  execute, execute_json, evaluate, execute_all, get_player, inventory, kick, is_blocked, unban,
  is_admin, kill_player, revive, despawn, is_whitelisted, whitelist, unwhitelist, announce,
  rollback, rollback_to_day, pause, regenerate_shard, regenerate, snapshots, rollback_to_snapshot,
  ban, set_admin, set_vitals, migrate, teleport, give, remove,
}
use dst_server.Rpc.Values.{
  Wires, wires_length, read_items, Wire, WireText, WireEntries, utf8, take, take_list, take_text,
  read_text, write_value, write_entries, read_value_with_budget, read_fields, wire_entries_length,
}
use dst_server.Rpc.Schema
use dst_server.Rpc.Schema.{Read, WireCountdown, WireNotice, WireVitals, WireRequest}

abbrev pub max_message : ℕ
max_message = 1048576

-- `init_…().set_value`, for what is there.
abbrev pub pointer {ℓ} : {A : Type ℓ} → Option A → Option (Read A)
pointer none = none
pointer (some a) = some (ok a)

abbrev pub pointer_text : Option String → Option WireText
pointer_text none = none
pointer_text (some s) = some (utf8 s)

abbrev pub write_vitals : Vitals → WireVitals
write_vitals v = record {
  health = pointer v.health;
  hunger = pointer v.hunger;
  sanity = pointer v.sanity;
  temperature = pointer v.temperature;
  moisture = pointer v.moisture;
}

module _ {N : Type 0} where
  -- `map_err(invalid)`.
  abbrev pub followed : {A : Type 0} → Read A → Answer N A
  followed (ok a) = ok a
  followed (err m) = err (new_error invalid m)

  abbrev pub follow : {A : Type 0} → Option (Read A) → Answer N (Option A)
  follow none = ok none
  follow (some r) = do a ← followed r; ok (some a)

  abbrev pub read_optional_text : Option WireText → Answer N (Option String)
  read_optional_text none = ok none
  read_optional_text (some t) = do s ← read_text t; ok (some s)

  unfoldable pub read_vitals : WireVitals → Answer N Vitals
  read_vitals w = do
    h ← follow w.health
    u ← follow w.hunger
    s ← follow w.sanity
    t ← follow w.temperature
    m ← follow w.moisture
    ok (record { health = h; hunger = u; sanity = s; temperature = t; moisture = m })

module _ {N : Type 0} (J : Numbers N) where
  unfoldable pub write_countdown : Countdown N → Answer N WireCountdown
  unfolding take take_list entries_length write_entries
  write_countdown c = do
    left ← take_list max_message (entries_length c.parameters) 40
    less ← take left (entries_length c.parameters * 16)
    (rest, ws) ← write_entries J less 0 c.parameters
    ok (record {
      template = utf8 c.template;
      delay = c.delay;
      interval = c.interval;
      parameters = ok ws;
    })

  -- `read_entries`, with the budget for a message.
  unfoldable pub read_entries : WireEntries → Answer N (Entries N)
  unfolding take take_list wire_entries_length read_fields
  read_entries ws = do
    left ← take_list max_message (wire_entries_length ws) 40
    less ← take left (wire_entries_length ws * 16)
    (rest, es) ← read_fields J less 1 no_entries ws
    ok es

  unfoldable pub read_countdown : WireCountdown → Answer N (Countdown N)
  unfolding read_entries
  read_countdown w = do
    t ← read_text w.template
    ws ← followed w.parameters
    es ← read_entries ws
    ok (record { template = t; delay = w.delay; interval = w.interval; parameters = es })

  unfoldable pub write_notice : Option (Countdown N) → Answer N WireNotice
  unfolding write_countdown
  write_notice none = ok none
  write_notice (some c) = do w ← write_countdown c; ok (some (ok w))

  unfoldable pub read_notice : WireNotice → Answer N (Option (Countdown N))
  unfolding read_countdown
  read_notice none = ok none
  read_notice (some r) = do w ← followed r; c ← read_countdown w; ok (some c)

  -- A value with the budget for a message.
  unfoldable pub write_root : Value N → Answer N Wire
  unfolding write_value
  write_root v = do (rest, w) ← write_value J max_message 0 v; ok w

  unfoldable pub read_root : Read Wire → Answer N (Value N)
  unfolding read_value_with_budget
  read_root r = do w ← followed r; (rest, v) ← read_value_with_budget J max_message 0 w; ok v

  -- The records of a batch.
  unfoldable pub read_values : Wires → Answer N (Values N)
  unfolding take_list wires_length read_items
  read_values ws = do
    left ← take_list max_message (wires_length ws) 24
    (rest, vs) ← read_items J left 0 ws
    ok vs

  unfoldable pub write_request : Request N → Answer N WireRequest
  unfolding write_notice write_root
  write_request status = ok Schema.status
  write_request start = ok Schema.start
  write_request kill = ok Schema.kill
  write_request read_configuration = ok Schema.read_configuration
  write_request save = ok Schema.save
  write_request reset = ok Schema.reset
  write_request health = ok Schema.health
  write_request presence = ok Schema.presence
  write_request room = ok Schema.room
  write_request world = ok Schema.world
  write_request runtime = ok Schema.runtime
  write_request mods = ok Schema.mods
  write_request connected_shards = ok Schema.connected_shards
  write_request list_players = ok Schema.list_players
  write_request blocklist = ok Schema.blocklist
  write_request read_permissions = ok Schema.read_permissions
  write_request (stop notice) = do w ← write_notice notice; ok (Schema.stop w)
  write_request (restart notice) = do w ← write_notice notice; ok (Schema.restart w)
  write_request (update_mods again notice) = do
    w ← write_notice notice
    ok (Schema.update_mods again w)
  write_request (configure configuration replace) = do
    w ← write_root configuration
    ok (Schema.configure (ok w) replace)
  write_request (set_policy policy) = do w ← write_root policy; ok (Schema.set_policy (ok w))
  write_request (execute source) = ok (Schema.execute (utf8 source))
  write_request (execute_json source) = ok (Schema.execute_json (utf8 source))
  write_request (evaluate source) = ok (Schema.evaluate (utf8 source))
  write_request (execute_all source) = ok (Schema.execute_all (utf8 source))
  write_request (get_player userid) = ok (Schema.get_player (utf8 userid))
  write_request (inventory userid) = ok (Schema.inventory (utf8 userid))
  write_request (kick userid) = ok (Schema.kick (utf8 userid))
  write_request (is_blocked userid) = ok (Schema.is_blocked (utf8 userid))
  write_request (unban userid) = ok (Schema.unban (utf8 userid))
  write_request (is_admin userid) = ok (Schema.is_admin (utf8 userid))
  write_request (kill_player userid) = ok (Schema.kill_player (utf8 userid))
  write_request (revive userid) = ok (Schema.revive (utf8 userid))
  write_request (despawn userid) = ok (Schema.despawn (utf8 userid))
  write_request (is_whitelisted userid) = ok (Schema.is_whitelisted (utf8 userid))
  write_request (whitelist userid) = ok (Schema.whitelist (utf8 userid))
  write_request (unwhitelist userid) = ok (Schema.unwhitelist (utf8 userid))
  write_request (announce message count interval) =
      ok (Schema.announce (utf8 message) count interval)
  write_request (rollback n) = ok (Schema.rollback n)
  write_request (rollback_to_day n) = ok (Schema.rollback_to_day n)
  write_request (pause n) = ok (Schema.pause n)
  write_request (regenerate_shard n) = ok (Schema.regenerate_shard n)
  write_request (regenerate session require) =
      ok (Schema.regenerate (pointer_text session) (pointer require))
  write_request (snapshots limit before) = ok (Schema.snapshots limit (pointer before))
  write_request (rollback_to_snapshot session id) =
      ok (Schema.rollback_to_snapshot (utf8 session) id)
  write_request (ban userid seconds) = ok (Schema.ban (utf8 userid) (pointer seconds))
  write_request (set_admin userid gone) = ok (Schema.set_admin (utf8 userid) gone)
  write_request (set_vitals userid vitals) =
      ok (Schema.set_vitals (utf8 userid) (write_vitals vitals))
  write_request (migrate userid shard portal) =
      ok (Schema.migrate (utf8 userid) (utf8 shard) portal)
  write_request (teleport userid x y z) = ok (Schema.teleport (utf8 userid) x y z)
  write_request (give userid item count) = ok (Schema.give (utf8 userid) (utf8 item) count)
  write_request (remove userid item count) = ok (Schema.remove (utf8 userid) (utf8 item) count)

  unfoldable pub read_request : WireRequest → Answer N (Request N)
  unfolding read_notice read_root read_vitals
  read_request Schema.status = ok status
  read_request Schema.start = ok start
  read_request Schema.kill = ok kill
  read_request Schema.read_configuration = ok read_configuration
  read_request Schema.save = ok save
  read_request Schema.reset = ok reset
  read_request Schema.health = ok health
  read_request Schema.presence = ok presence
  read_request Schema.room = ok room
  read_request Schema.world = ok world
  read_request Schema.runtime = ok runtime
  read_request Schema.mods = ok mods
  read_request Schema.connected_shards = ok connected_shards
  read_request Schema.list_players = ok list_players
  read_request Schema.blocklist = ok blocklist
  read_request Schema.read_permissions = ok read_permissions
  read_request (Schema.stop w) = do notice ← read_notice w; ok (stop notice)
  read_request (Schema.restart w) = do notice ← read_notice w; ok (restart notice)
  read_request (Schema.update_mods again w) = do
    notice ← read_notice w
    ok (update_mods again notice)
  read_request (Schema.configure w replace) = do
    configuration ← read_root w
    ok (configure configuration replace)
  read_request (Schema.set_policy w) = do policy ← read_root w; ok (set_policy policy)
  read_request (Schema.execute t) = do source ← read_text t; ok (execute source)
  read_request (Schema.execute_json t) = do source ← read_text t; ok (execute_json source)
  read_request (Schema.evaluate t) = do source ← read_text t; ok (evaluate source)
  read_request (Schema.execute_all t) = do source ← read_text t; ok (execute_all source)
  read_request (Schema.get_player t) = do userid ← read_text t; ok (get_player userid)
  read_request (Schema.inventory t) = do userid ← read_text t; ok (inventory userid)
  read_request (Schema.kick t) = do userid ← read_text t; ok (kick userid)
  read_request (Schema.is_blocked t) = do userid ← read_text t; ok (is_blocked userid)
  read_request (Schema.unban t) = do userid ← read_text t; ok (unban userid)
  read_request (Schema.is_admin t) = do userid ← read_text t; ok (is_admin userid)
  read_request (Schema.kill_player t) = do userid ← read_text t; ok (kill_player userid)
  read_request (Schema.revive t) = do userid ← read_text t; ok (revive userid)
  read_request (Schema.despawn t) = do userid ← read_text t; ok (despawn userid)
  read_request (Schema.is_whitelisted t) = do userid ← read_text t; ok (is_whitelisted userid)
  read_request (Schema.whitelist t) = do userid ← read_text t; ok (whitelist userid)
  read_request (Schema.unwhitelist t) = do userid ← read_text t; ok (unwhitelist userid)
  read_request (Schema.announce t count interval) = do
    message ← read_text t
    ok (announce message count interval)
  read_request (Schema.rollback n) = ok (rollback n)
  read_request (Schema.rollback_to_day n) = ok (rollback_to_day n)
  read_request (Schema.pause n) = ok (pause n)
  read_request (Schema.regenerate_shard n) = ok (regenerate_shard n)
  read_request (Schema.regenerate t b) = do
    session ← read_optional_text t
    require ← follow b
    ok (regenerate session require)
  read_request (Schema.snapshots limit b) = do before ← follow b; ok (snapshots limit before)
  read_request (Schema.rollback_to_snapshot t id) = do
    session ← read_text t
    ok (rollback_to_snapshot session id)
  read_request (Schema.ban t s) = do
    userid ← read_text t
    seconds ← follow s
    ok (ban userid seconds)
  read_request (Schema.set_admin t gone) = do userid ← read_text t; ok (set_admin userid gone)
  read_request (Schema.set_vitals t w) = do
    userid ← read_text t
    vitals ← read_vitals w
    ok (set_vitals userid vitals)
  read_request (Schema.migrate t u portal) = do
    userid ← read_text t
    shard ← read_text u
    ok (migrate userid shard portal)
  read_request (Schema.teleport t x y z) = do userid ← read_text t; ok (teleport userid x y z)
  read_request (Schema.give t i count) = do
    userid ← read_text t
    item ← read_text i
    ok (give userid item count)
  read_request (Schema.remove t i count) = do
    userid ← read_text t
    item ← read_text i
    ok (remove userid item count)
  read_request (Schema.unreadable m) = err (new_error invalid m)

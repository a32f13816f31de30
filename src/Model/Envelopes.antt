-- ===== src/Model/Envelopes.antt =====
-- Requests and their envelopes in crates/dst-server/src/model.rs: what is required of them, and how
-- long a caller waits.
use dst_server.Base.{
  ℕ, ◌*◌, ◌-◌, String, Bool, true, false, not, ◌&&◌, ◌||◌, List, [], ◌∷◌, Option, none, some, ok,
  err, ◌>>=◌, ◌>>◌, is_none_or, if◌then◌else◌,
}
use dst_server.Base.Float.{F64, finite, unit, is_finite, le_f64, zero_f64, add_f64, mul_f64, of_ℕ}
use dst_server.Model.Json.{Value, text, object, no_entries, entry, Numbers}
use dst_server.Model.Requests.{
  unsupported, Answer, Error, Scope, Target, Countdown, Vitals, Request, Envelope, stop, restart,
  update_mods, configure, set_policy, execute, execute_json, evaluate, execute_all, announce,
  rollback, regenerate, snapshots, rollback_to_day, rollback_to_snapshot, get_player, inventory,
  kick, is_blocked, unban, is_admin, kill_player, revive, despawn, is_whitelisted, whitelist,
  unwhitelist, ban, set_admin, set_vitals, migrate, teleport, give, remove,
}
use dst_server.Model.Methods.{metadata, timeout_seconds}
use dst_server.Model.Validation.{
  Host, max_source_bytes, safe_integer_bound, require, finite_field, integer, text_field,
  identifier, is_object, check_target, positive_duration,
}
use dst_server.Model.Countdowns.{validate_countdown}

abbrev pub in_unit_interval : F64 → Bool
in_unit_interval x = is_finite x && (le_f64 zero_f64 x && le_f64 x (timeout_seconds 1))

abbrev pub absent : {A : Type 0} → Option A → Bool
absent o = is_none_or o (λ _. false)

-- `Target::scope`, and `scopes.contains`.
abbrev pub scope_of : Target → Scope
scope_of Target.room = Scope.room
scope_of (Target.shard name) = Scope.shard

abbrev pub same_scope : Scope → Scope → Bool
same_scope Scope.room Scope.room = true
same_scope Scope.shard Scope.shard = true
same_scope _ _ = false

abbrev pub has_scope : Scope → List Scope → Bool
has_scope s [] = false
has_scope s (t ∷ ts) = same_scope t s || has_scope s ts

module _ {N : Type 0} where
  unfoldable pub userid_of : Request N → Option String
  userid_of (get_player u) = some u
  userid_of (inventory u) = some u
  userid_of (kick u) = some u
  userid_of (ban u s) = some u
  userid_of (is_blocked u) = some u
  userid_of (unban u) = some u
  userid_of (is_admin u) = some u
  userid_of (set_admin u r) = some u
  userid_of (set_vitals u v) = some u
  userid_of (kill_player u) = some u
  userid_of (revive u) = some u
  userid_of (despawn u) = some u
  userid_of (migrate u s p) = some u
  userid_of (teleport u x y z) = some u
  userid_of (give u i c) = some u
  userid_of (remove u i c) = some u
  userid_of (is_whitelisted u) = some u
  userid_of (whitelist u) = some u
  userid_of (unwhitelist u) = some u
  userid_of _ = none

  -- A check of what may be absent.
  abbrev pub present : {A : Type 0} → Option A → (A → Answer N (Unit {0})) → Answer N (Unit {0})
  present none check = ok tt
  present (some a) check = check a

  unfoldable pub vital : String → Option F64 → Answer N (Unit {0})
  unfolding is_finite le_f64 timeout_seconds
  vital name value =
      require (is_none_or value in_unit_interval) name
        "player vital must be finite and between 0 and 1"

  unfoldable pub validate_vitals : Vitals → Answer N (Unit {0})
  unfolding vital finite_field
  validate_vitals v = do
    require
        (not (
          absent v.health
          && (absent v.hunger && (absent v.sanity && (absent v.temperature && absent v.moisture)))))
        "vitals" "at least one player vital must be supplied"
    vital "health" v.health
    vital "hunger" v.hunger
    vital "sanity" v.sanity
    vital "moisture" v.moisture
    present v.temperature (finite_field "temperature")

  abbrev pub target_value : Target → Value N
  target_value Target.room = object (entry "scope" (text "room") no_entries)
  target_value (Target.shard name) =
      object (entry "scope" (text "shard") (entry "shard" (text name) no_entries))

  unfoldable pub out_of_scope : Envelope N → Error N
  unfolding metadata
  out_of_scope e = record {
    code = unsupported;
    message = "method is unavailable at the requested scope";
    details = object (
        entry "method" (text ((metadata e.request).name))
          (entry "target" (target_value e.target) no_entries));
  }

module _ (host : Host) {N : Type 0} (J : Numbers N) where
  -- The match of `Request::validate`.
  unfoldable pub validate_arguments : Request N → Answer N (Unit {0})
  unfolding validate_countdown text_field integer identifier positive_duration validate_vitals
      finite_field
  validate_arguments (configure configuration replace) =
      require (is_object configuration) "configuration" "configuration must be an object"
  validate_arguments (set_policy policy) =
      require (is_object policy) "policy" "policy must be an object"
  validate_arguments (stop notice) = present notice (validate_countdown host J)
  validate_arguments (restart notice) = present notice (validate_countdown host J)
  validate_arguments (update_mods again notice) = present notice (validate_countdown host J)
  validate_arguments (execute source) = text_field "source" source max_source_bytes
  validate_arguments (execute_json source) = text_field "source" source max_source_bytes
  validate_arguments (evaluate source) = text_field "source" source max_source_bytes
  validate_arguments (execute_all source) = text_field "source" source max_source_bytes
  validate_arguments (announce message count interval) = do
    text_field "message" message max_source_bytes
    integer "count" count 1 safe_integer_bound
    d ← positive_duration host "interval" interval
    ok tt
  validate_arguments (rollback count) = integer "count" count 0 safe_integer_bound
  validate_arguments (regenerate session required) =
      present session (identifier "expected_session_id")
  validate_arguments (snapshots limit before) = do
    integer "limit" limit 1 100
    present before (λ b. integer "before" b 0 safe_integer_bound)
  validate_arguments (rollback_to_day day) = integer "day" day 1 safe_integer_bound
  validate_arguments (rollback_to_snapshot session id) = do
    identifier "session_id" session
    integer "snapshot_id" id 1 safe_integer_bound
  validate_arguments (ban userid s) = present s (λ n. integer "seconds" n 1 safe_integer_bound)
  validate_arguments (set_vitals userid vitals) = validate_vitals vitals
  validate_arguments (migrate userid shard portal) = do
    identifier "shard_id" shard
    integer "portal_id" portal 1 safe_integer_bound
  validate_arguments (teleport userid x y z) = do
    finite_field "x" x
    finite_field "y" y
    finite_field "z" z
  validate_arguments (give userid item count) = do
    text_field "item" item max_source_bytes
    integer "count" count 1 64
  validate_arguments (remove userid item count) = do
    text_field "item" item max_source_bytes
    integer "count" count 1 safe_integer_bound
  validate_arguments _ = ok tt

  unfoldable pub validate_request : Request N → Answer N (Unit {0})
  unfolding userid_of identifier validate_arguments
  validate_request r = do present (userid_of r) (identifier "userid"); validate_arguments r

  -- A minute of notice is in the timeout already.
  abbrev pub with_notice : F64 → Option (Countdown N) → F64
  with_notice base none = add_f64 (add_f64 base (finite true (60 * unit))) zero_f64
  with_notice base (some c) = add_f64 (add_f64 base (finite true (60 * unit))) c.delay

  unfoldable pub completion_seconds : Request N → F64 → F64
  unfolding add_f64 mul_f64 of_ℕ unit
  completion_seconds (announce message count interval) base =
      add_f64 base (mul_f64 (of_ℕ (count - 1)) interval)
  completion_seconds (stop notice) base = with_notice base notice
  completion_seconds (restart notice) base = with_notice base notice
  completion_seconds (update_mods again notice) base = with_notice base notice
  completion_seconds _ base = base

  unfoldable pub completion_timeout : Request N → Answer N ℕ
  unfolding completion_seconds positive_duration metadata timeout_seconds
  completion_timeout r =
      positive_duration host "completion_timeout"
        (completion_seconds r (timeout_seconds ((metadata r).default_timeout)))

  -- `Envelope::timeout`.
  unfoldable pub timeout_of : Envelope N → Answer N ℕ
  unfolding positive_duration completion_timeout
  timeout_of e = elim (e.timeout) [
    | none ↦ completion_timeout e.request
    | some t ↦ positive_duration host "timeout" t
  ]

  unfoldable pub validate_envelope : Envelope N → Answer N (Unit {0})
  unfolding check_target validate_request metadata out_of_scope timeout_of completion_timeout
  validate_envelope e = do
    check_target host e.target
    validate_request e.request
    if has_scope (scope_of e.target) ((metadata e.request).scopes)
        then ok tt
        else err (out_of_scope e)
    t ← timeout_of e
    d ← completion_timeout e.request
    ok tt

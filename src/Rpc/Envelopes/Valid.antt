-- ===== src/Rpc/Envelopes/Valid.antt =====
-- What is validated of a request, for reading it back.
use dst_server.Base.{
  String, none, some, Holds, Holds-then, Holds-bind, Holds-map, Holds-const, not, mem_text,
}
use dst_server.Model.Json.{
  number, text, null, boolean, array, object, Entries, no_entries, entry, Numbers,
}
use dst_server.Model.Requests.{
  Answer, Countdown, Request, Envelope, stop, restart, update_mods, configure, set_policy, status,
  start, kill, read_configuration, save, reset, health, presence, room, world, runtime, mods,
  connected_shards, list_players, blocklist, read_permissions, execute, execute_json, evaluate,
  execute_all, get_player, inventory, kick, is_blocked, unban, is_admin, kill_player, revive,
  despawn, is_whitelisted, whitelist, unwhitelist, rollback, rollback_to_day, pause,
  regenerate_shard, regenerate, snapshots, ban, set_vitals, announce, rollback_to_snapshot,
  set_admin, migrate, teleport, give, remove,
}
use dst_server.Model.Validation.{
  Host, require, text_field, nonnegative, positive_duration, check_target, identifier,
}
use dst_server.Model.Countdowns.{
  validate_parameters, validate_countdown, scan_template, outside, countdown_names,
  as_text_or_number,
}
use dst_server.Model.Envelopes.{
  validate_arguments, validate_request, validate_envelope, userid_of, present,
}
use dst_server.Rpc.Values.RoundTrip.{IsExact, AreEntries}
use dst_server.Rpc.Requests.RoundTrip.{AreFlat, IsExactRequest}

module _ {N : Type 0} (J : Numbers N) where
  abbrev unreserved : String → Answer N (Unit {0})
  unreserved k =
      require (not (mem_text k countdown_names)) "notice.parameters" "reserved countdown parameter"

  flat_parameters : (es : Entries N) → Holds (λ _. AreFlat J es) (validate_parameters J es)
  unfolding validate_parameters
  flat_parameters no_entries = tt
  flat_parameters (entry k (text s) es) = Holds-then _ (unreserved k) _ (λ _ _. flat_parameters es)
  flat_parameters (entry k (number n) es) = Holds-then _ (unreserved k) _ (λ _ _.
      Holds-then _
        (require {N = N} (as_text_or_number J (number n)) "notice.parameters"
          "countdown parameters must be text or finite numbers")
        _ (λ _ _. flat_parameters es))
  flat_parameters (entry k null es) = Holds-then _ (unreserved k) _ (λ _ _. tt)
  flat_parameters (entry k (boolean b) es) = Holds-then _ (unreserved k) _ (λ _ _. tt)
  flat_parameters (entry k (array vs) es) = Holds-then _ (unreserved k) _ (λ _ _. tt)
  flat_parameters (entry k (object fs) es) = Holds-then _ (unreserved k) _ (λ _ _. tt)

  -- Exact numbers and maps in key order in what a request carries.
  abbrev pub IsExactPart : Request N → Type 0
  IsExactPart (stop (some c)) = AreEntries J c.parameters
  IsExactPart (restart (some c)) = AreEntries J c.parameters
  IsExactPart (update_mods again (some c)) = AreEntries J c.parameters
  IsExactPart (configure configuration replace) = IsExact J configuration
  IsExactPart (set_policy policy) = IsExact J policy
  IsExactPart _ = Unit

module _ (host : Host) {N : Type 0} (J : Numbers N) where
  countdown-flat :
      (c : Countdown N) → Holds (λ _. AreFlat J c.parameters) (validate_countdown host J c)
  unfolding validate_countdown
  countdown-flat c = Holds-then _ (text_field "notice.template" c.template 3072) _ (λ _ _.
      Holds-then _ (nonnegative host "notice.delay" c.delay) _ (λ _ _.
        Holds-then _ (positive_duration host "notice.interval" c.interval) _ (λ _ _.
          Holds-bind _ _ (validate_parameters J c.parameters) _
            (λ _ _ f. Holds-const (scan_template host c.parameters outside c.template) f)
            (flat_parameters J c.parameters))))

  -- The parameters of a validated request's countdown are texts and numbers.
  arguments-Exact :
      (r : Request N)
      → IsExactPart J r
      → Holds (λ _. IsExactRequest J r) (validate_arguments host J r)
  unfolding validate_arguments
  arguments-Exact (stop (some c)) x =
      Holds-map _ _ (validate_countdown host J c) (λ _ _ f. (x, f)) (countdown-flat c)
  arguments-Exact (restart (some c)) x =
      Holds-map _ _ (validate_countdown host J c) (λ _ _ f. (x, f)) (countdown-flat c)
  arguments-Exact (update_mods again (some c)) x =
      Holds-map _ _ (validate_countdown host J c) (λ _ _ f. (x, f)) (countdown-flat c)
  arguments-Exact (stop none) x = tt
  arguments-Exact (restart none) x = tt
  arguments-Exact (update_mods again none) x = tt
  arguments-Exact (configure v r) x = Holds-const (validate_arguments host J (configure v r)) x
  arguments-Exact (set_policy v) x = Holds-const (validate_arguments host J (set_policy v)) x
  arguments-Exact status x = tt
  arguments-Exact start x = tt
  arguments-Exact kill x = tt
  arguments-Exact read_configuration x = tt
  arguments-Exact save x = tt
  arguments-Exact reset x = tt
  arguments-Exact health x = tt
  arguments-Exact presence x = tt
  arguments-Exact room x = tt
  arguments-Exact world x = tt
  arguments-Exact runtime x = tt
  arguments-Exact mods x = tt
  arguments-Exact connected_shards x = tt
  arguments-Exact list_players x = tt
  arguments-Exact blocklist x = tt
  arguments-Exact read_permissions x = tt
  arguments-Exact (execute a) x = Holds-const (validate_arguments host J (execute a)) tt
  arguments-Exact (execute_json a) x = Holds-const (validate_arguments host J (execute_json a)) tt
  arguments-Exact (evaluate a) x = Holds-const (validate_arguments host J (evaluate a)) tt
  arguments-Exact (execute_all a) x = Holds-const (validate_arguments host J (execute_all a)) tt
  arguments-Exact (get_player a) x = Holds-const (validate_arguments host J (get_player a)) tt
  arguments-Exact (inventory a) x = Holds-const (validate_arguments host J (inventory a)) tt
  arguments-Exact (kick a) x = Holds-const (validate_arguments host J (kick a)) tt
  arguments-Exact (is_blocked a) x = Holds-const (validate_arguments host J (is_blocked a)) tt
  arguments-Exact (unban a) x = Holds-const (validate_arguments host J (unban a)) tt
  arguments-Exact (is_admin a) x = Holds-const (validate_arguments host J (is_admin a)) tt
  arguments-Exact (kill_player a) x = Holds-const (validate_arguments host J (kill_player a)) tt
  arguments-Exact (revive a) x = Holds-const (validate_arguments host J (revive a)) tt
  arguments-Exact (despawn a) x = Holds-const (validate_arguments host J (despawn a)) tt
  arguments-Exact (is_whitelisted a) x =
      Holds-const (validate_arguments host J (is_whitelisted a)) tt
  arguments-Exact (whitelist a) x = Holds-const (validate_arguments host J (whitelist a)) tt
  arguments-Exact (unwhitelist a) x = Holds-const (validate_arguments host J (unwhitelist a)) tt
  arguments-Exact (rollback a) x = Holds-const (validate_arguments host J (rollback a)) tt
  arguments-Exact (rollback_to_day a) x =
      Holds-const (validate_arguments host J (rollback_to_day a)) tt
  arguments-Exact (pause a) x = Holds-const (validate_arguments host J (pause a)) tt
  arguments-Exact (regenerate_shard a) x =
      Holds-const (validate_arguments host J (regenerate_shard a)) tt
  arguments-Exact (regenerate a b) x = Holds-const (validate_arguments host J (regenerate a b)) tt
  arguments-Exact (snapshots a b) x = Holds-const (validate_arguments host J (snapshots a b)) tt
  arguments-Exact (ban a b) x = Holds-const (validate_arguments host J (ban a b)) tt
  arguments-Exact (set_vitals a b) x = Holds-const (validate_arguments host J (set_vitals a b)) tt
  arguments-Exact (announce a b c) x = Holds-const (validate_arguments host J (announce a b c)) tt
  arguments-Exact (rollback_to_snapshot a b) x =
      Holds-const (validate_arguments host J (rollback_to_snapshot a b)) tt
  arguments-Exact (set_admin a b) x = Holds-const (validate_arguments host J (set_admin a b)) tt
  arguments-Exact (migrate a b c) x = Holds-const (validate_arguments host J (migrate a b c)) tt
  arguments-Exact (teleport a b c d) x =
      Holds-const (validate_arguments host J (teleport a b c d)) tt
  arguments-Exact (give a b c) x = Holds-const (validate_arguments host J (give a b c)) tt
  arguments-Exact (remove a b c) x = Holds-const (validate_arguments host J (remove a b c)) tt

  pub validated-Exact :
      (e : Envelope N)
      → IsExactPart J e.request
      → Holds (λ _. IsExactRequest J e.request) (validate_envelope host J e)
  unfolding validate_envelope validate_request
  validated-Exact e x = Holds-then _ (check_target host e.target) _ (λ _ _.
      Holds-bind _ _ (validate_request host J e.request) _ (λ _ _ f. Holds-const _ f)
        (Holds-then _ (present (userid_of e.request) (identifier "userid")) _
          (λ _ _. arguments-Exact e.request x)))

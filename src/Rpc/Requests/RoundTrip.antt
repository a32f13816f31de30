-- ===== src/Rpc/Requests/RoundTrip.antt =====
-- What is written of a request is read back as that request.
use dst_server.Base.{
  ℕ, ◌*◌, ◌≡◌, refl, String, Option, none, some, ok, ◌>>=◌, Holds, Holds-then, Holds-bind, fun_ext,
  ap,
}
use dst_server.Model.Json.{
  Value, number, text, Entries, no_entries, entry, Numbers, entries_length, null, boolean, array,
  object,
}
use dst_server.Model.Requests.{
  Answer, Countdown, Vitals, Request, stop, restart, update_mods, configure, set_policy, regenerate,
  snapshots, ban, set_vitals, status, start, kill, read_configuration, save, reset, health,
  presence, room, world, runtime, mods, connected_shards, list_players, blocklist, read_permissions,
  execute, execute_json, evaluate, execute_all, get_player, inventory, kick, is_blocked, unban,
  is_admin, kill_player, revive, despawn, is_whitelisted, whitelist, unwhitelist, rollback,
  rollback_to_day, pause, regenerate_shard, announce, rollback_to_snapshot, set_admin, migrate,
  teleport, give, remove,
}
use dst_server.Rpc.Values.{
  utf8, take, take_list, take_text, enter, check_depth, write_value, write_kind, write_entries,
  wire_entry, WireEntries,
}
use dst_server.Rpc.Values.RoundTrip.{NumberLaws, IsExact, AreEntries, entries-same, value-same}
use dst_server.Rpc.Requests.{
  max_message, pointer, pointer_text, follow, read_optional_text, write_vitals, read_vitals,
  write_countdown, read_entries, read_countdown, write_notice, read_notice, write_root, read_root,
  write_request, read_request,
}

module _ {N : Type 0} (J : Numbers N) where
  -- The parameters of a countdown: texts and numbers.
  abbrev pub AreFlat : Entries N → Type 0
  AreFlat no_entries = Unit
  AreFlat (entry k (text s) es) = AreFlat es
  AreFlat (entry k (number n) es) = AreFlat es
  AreFlat (entry k v es) = ⊥

  -- Exact numbers and maps in key order in what a request carries.
  abbrev pub IsExactNotice : Option (Countdown N) → Type 0
  IsExactNotice none = Unit
  IsExactNotice (some c) = AreEntries J c.parameters × AreFlat c.parameters

  abbrev pub IsExactRequest : Request N → Type 0
  IsExactRequest (stop notice) = IsExactNotice notice
  IsExactRequest (restart notice) = IsExactNotice notice
  IsExactRequest (update_mods again notice) = IsExactNotice notice
  IsExactRequest (configure configuration replace) = IsExact J configuration
  IsExactRequest (set_policy policy) = IsExact J policy
  IsExactRequest _ = Unit

  -- Writing the entries after the first by `rest`.
  abbrev entry_then :
      String → Value N → (ℕ → Answer N (ℕ × WireEntries)) → ℕ → Answer N (ℕ × WireEntries)
  entry_then k v rest b = do
    less ← take_text b k
    (left, w) ← enter less 0 (λ c. write_kind J c 0 v)
    (q, ws) ← rest left
    ok (q, wire_entry (utf8 k) w ws)

  -- A parameter is written the same one level deeper.
  flat-depth :
      (es : Entries N) (b : ℕ) → AreFlat es → write_entries J b 0 es ≡ write_entries J b 1 es
  unfolding write_entries write_kind enter check_depth
  flat-depth no_entries b f = refl
  flat-depth (entry k (text s) es) b f =
      let same : (λ c. write_entries J c 0 es) ≡ (λ c. write_entries J c 1 es) =
        fun_ext λ c. flat-depth es c f in
      ap (λ rest. entry_then k (text s) rest b) same
  flat-depth (entry k (number s) es) b f =
      let same : (λ c. write_entries J c 0 es) ≡ (λ c. write_entries J c 1 es) =
        fun_ext λ c. flat-depth es c f in
      ap (λ rest. entry_then k (number s) rest b) same
  flat-depth (entry k null es) b f = elim f [ ]
  flat-depth (entry k (boolean _) es) b f = elim f [ ]
  flat-depth (entry k (array _) es) b f = elim f [ ]
  flat-depth (entry k (object _) es) b f = elim f [ ]

pub follow-pointer : {N : Type 0} {A : Type 0} (o : Option A) → follow {N = N} (pointer o) ≡ ok o
follow-pointer none = refl
follow-pointer (some a) = refl

read_optional_text-pointer :
    {N : Type 0} (o : Option String) → read_optional_text {N = N} (pointer_text o) ≡ ok o
read_optional_text-pointer none = refl
read_optional_text-pointer (some a) = refl

read_vitals-write_vitals : {N : Type 0} (v : Vitals) → read_vitals {N = N} (write_vitals v) ≡ ok v
unfolding read_vitals
read_vitals-write_vitals v = rw (
  follow-pointer v.health,
  follow-pointer v.hunger,
  follow-pointer v.sanity,
  follow-pointer v.temperature,
  follow-pointer v.moisture,
)

module _ {N : Type 0} (J : Numbers N) (L : NumberLaws J) where
  countdown-Holds :
      (c : Countdown N)
      → AreEntries J c.parameters
      → AreFlat J c.parameters
      → Holds (λ w. read_countdown J w ≡ ok c) (write_countdown J c)
  unfolding write_countdown read_countdown read_entries
  countdown-Holds c x f =
      let es = c.parameters in
      Holds-then _ (take_list max_message (entries_length es) 40) _ (λ left e.
        Holds-then _ (take left (entries_length es * 16)) _ (λ less g. rw (flat-depth J es less f) (
          Holds-bind _ _ (write_entries J less 1 es) _ (λ r h (n, t). rw (n, e, g, t))
            (entries-same J L es x less 1))))

  notice-Holds :
      (n : Option (Countdown N))
      → IsExactNotice J n
      → Holds (λ w. read_notice J w ≡ ok n) (write_notice J n)
  unfolding write_notice read_notice
  notice-Holds none x = refl
  notice-Holds (some c) (x, f) =
      Holds-bind _ _ (write_countdown J c) _ (λ w e h. rw h) (countdown-Holds c x f)

  pub root-Holds :
      (v : Value N) → IsExact J v → Holds (λ w. read_root J (ok w) ≡ ok v) (write_root J v)
  unfolding write_root read_root
  root-Holds v x =
      Holds-bind _ _ (write_value J max_message 0 v) _ (λ r e h. rw h)
        (value-same J L max_message 0 v x)

  -- A request whose values have exact numbers and whose countdown has texts and numbers as its
  -- parameters is read back, where it is written.
  pub read_request-write_request :
      (r : Request N)
      → IsExactRequest J r
      → Holds (λ w. read_request J w ≡ ok r) (write_request J r)
  unfolding write_request read_request
  read_request-write_request (stop n) x =
      Holds-bind _ _ (write_notice J n) _ (λ w e h. rw h) (notice-Holds n x)
  read_request-write_request (restart n) x =
      Holds-bind _ _ (write_notice J n) _ (λ w e h. rw h) (notice-Holds n x)
  read_request-write_request (update_mods again n) x =
      Holds-bind _ _ (write_notice J n) _ (λ w e h. rw h) (notice-Holds n x)
  read_request-write_request (configure v r) x =
      Holds-bind _ _ (write_root J v) _ (λ w e h. rw h) (root-Holds v x)
  read_request-write_request (set_policy v) x =
      Holds-bind _ _ (write_root J v) _ (λ w e h. rw h) (root-Holds v x)
  read_request-write_request (regenerate s r) x =
      rw (read_optional_text-pointer {N = N} s, follow-pointer {N = N} r)
  read_request-write_request (snapshots l b) x = rw (follow-pointer {N = N} b)
  read_request-write_request (ban u s) x = rw (follow-pointer {N = N} s)
  read_request-write_request (set_vitals u v) x = rw (read_vitals-write_vitals {N = N} v)
  read_request-write_request status x = refl
  read_request-write_request start x = refl
  read_request-write_request kill x = refl
  read_request-write_request read_configuration x = refl
  read_request-write_request save x = refl
  read_request-write_request reset x = refl
  read_request-write_request health x = refl
  read_request-write_request presence x = refl
  read_request-write_request room x = refl
  read_request-write_request world x = refl
  read_request-write_request runtime x = refl
  read_request-write_request mods x = refl
  read_request-write_request connected_shards x = refl
  read_request-write_request list_players x = refl
  read_request-write_request blocklist x = refl
  read_request-write_request read_permissions x = refl
  read_request-write_request (execute a) x = refl
  read_request-write_request (execute_json a) x = refl
  read_request-write_request (evaluate a) x = refl
  read_request-write_request (execute_all a) x = refl
  read_request-write_request (get_player a) x = refl
  read_request-write_request (inventory a) x = refl
  read_request-write_request (kick a) x = refl
  read_request-write_request (is_blocked a) x = refl
  read_request-write_request (unban a) x = refl
  read_request-write_request (is_admin a) x = refl
  read_request-write_request (kill_player a) x = refl
  read_request-write_request (revive a) x = refl
  read_request-write_request (despawn a) x = refl
  read_request-write_request (is_whitelisted a) x = refl
  read_request-write_request (whitelist a) x = refl
  read_request-write_request (unwhitelist a) x = refl
  read_request-write_request (rollback a) x = refl
  read_request-write_request (rollback_to_day a) x = refl
  read_request-write_request (pause a) x = refl
  read_request-write_request (regenerate_shard a) x = refl
  read_request-write_request (announce a b c) x = refl
  read_request-write_request (rollback_to_snapshot a b) x = refl
  read_request-write_request (set_admin a b) x = refl
  read_request-write_request (migrate a b c) x = refl
  read_request-write_request (teleport a b c d) x = refl
  read_request-write_request (give a b c) x = refl
  read_request-write_request (remove a b c) x = refl

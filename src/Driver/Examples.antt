-- ===== src/Driver/Examples.antt =====
-- Concrete runs of crates/dst-server/src/driver.rs: a shard whose world starts, answers a request and
-- changes.
use dst_server.Base.{
  ℕ, ◌+◌, ◌≤◌, ◌≡◌, refl, inl, String, Bool, true, false, Option, none, some, List, [], ◌∷◌, arith,
  text_eq, ◌==◌, if◌then◌else◌, length,
}
use dst_server.Driver.State.{
  waiting, answered, Shared, Json, RequestRecord, DriverState, Shared, safe_integer, healthy,
  can_serve, recompute_ready, deliver,
}
use dst_server.Driver.Handlers.{
  bootstrap, boot, start_world, advance_generation, drop_request, mandatory_record,
}
use dst_server.Driver.Replies.{
  rpc, reply_to, reply, take_result, take_value, learn_result, native_barrier,
}
use dst_server.Driver.Requests.{
  master_ready, Telemetry, dispatch, mark_written, lifecycle, request_stop,
}
use dst_server.Driver.Steps.{
  Event, bootstraps, replies, ends_command, lives, dispatches, writes, stops, step, run,
}
use dst_server.Driver.Readiness.{Honest, run-Honest}
use dst_server.Driver.Generations.{Follows, run-Follows, receive, receive-counted}
use dst_server.Base.{ok}
use dst_server.Driver.Steps.{exits}
use dst_server.Driver.Requests.{ExitReport}
use dst_server.Driver.Held.{IsHeld, gone, step-held}
use dst_server.Driver.Answers.{Reports, exit-Reports, Waits, Kept, step-Kept}

-- Parsed values; an object is the chain of its fields.
data Tree : Type 0 where
  null nothing : Tree
  flag : Bool → Tree
  count : ℕ → Tree
  word : String → Tree
  field : String → Tree → Tree → Tree

abbrev object : Tree → Bool
object nothing = true
object (field name value rest) = true
object _ = false

abbrev found : Tree → String → Option Tree
found (field name value rest) key = if text_eq name key then some value else found rest key
found _ key = none

abbrev or_null : Option Tree → Tree
or_null none = null
or_null (some value) = value

abbrev word_of : Tree → Option String
word_of (word t) = some t
word_of _ = none

abbrev count_of : Tree → Option ℕ
count_of (count n) = some n
count_of _ = none

abbrev is_word : Tree → String → Bool
is_word (word t) key = text_eq t key
is_word _ key = false

abbrev is_count : Tree → ℕ → Bool
is_count (count n) m = n == m
is_count _ m = false

abbrev is_flag : Tree → Bool → Bool
is_flag (flag true) true = true
is_flag (flag false) false = true
is_flag _ b = false

abbrev without : Tree → String → Tree
without (field name value rest) key =
    if text_eq name key then rest else field name value (without rest key)
without t key = t

abbrev json : Json Tree
json = record {
  is_object = object;
  index = λ value name. or_null (found value name);
  get = found;
  as_text = word_of;
  as_u64 = count_of;
  is_text = is_word;
  is_number = is_count;
  is_bool = is_flag;
  show = λ value. "";
  remove = λ value name. (found value name, without value name);
  insert = λ value name t. field name (word t) (without value name);
  saved_record = λ path snapshot. field "path" (word path) nothing;
}

abbrev fresh_state : DriverState Tree
fresh_state = record {
  shard = "Master";
  pid = 100;
  process_id = "p";
  nonce = "n";
  generation = none;
  generation_changes = 0;
  native_ready = false;
  ready = false;
  running = true;
  stopping = false;
  returncode = none;
  forced = false;
  output_drained = false;
  load_failure = none;
  session_id = none;
  health = none;
  runtime = none;
  last_native_save = none;
  last_control = none;
  control_records = [];
  failure = none;
  telemetry_sequence = 0;
  telemetry_gaps = 0;
  invalid_telemetry = 0;
  stale_telemetry = 0;
  unmatched_replies = 0;
  recent_request = none;
}

abbrev start : Shared Tree
start = record {
  state = fresh_state;
  stop_requested = false;
  observation = none;
  active = none;
  receiver = waiting;
}

abbrev health_of : ℕ → Tree
health_of generation = field "generation" (count generation) (
    field "protocol" (count 3) (
      field "telemetry_status" (word "active")
        (field "capabilities" (field "players" (word "active") nothing) nothing)))

abbrev boots : ℕ → Tree
boots generation = field "nonce" (word "n") (field "health" (health_of generation) nothing)

abbrev request : RequestRecord Tree
request = record {
  id = "r1";
  method = "save";
  generation = 7;
  written = false;
  accepted = false;
  completed = false;
  result = none;
  error = none;
}

abbrev result_frame : Tree
result_frame = field "nonce" (word "n") (
    field "v" (count 1) (
      field "generation" (count 7) (
        field "id" (word "r1")
          (field "result" (field "ok" (flag true) (field "data" (count 5) nothing)) nothing))))

-- Until the request is written.
abbrev opening : List (Event Tree)
opening = bootstraps (some (boots 7)) ∷ lives master_ready ∷ dispatches request ∷ writes ∷ []

abbrev history : List (Event Tree)
history =
    bootstraps (some (boots 7))
    ∷ lives master_ready
    ∷ dispatches request
    ∷ writes
    ∷ replies (some result_frame) "u"
    ∷ ends_command false
    ∷ bootstraps (some (boots 9))
    ∷ stops
    ∷ []

abbrev events : List (Option Telemetry)
events =
    some (record { nonce = "n"; generation = 7; sequence = 2 })
    ∷ none
    ∷ some (record { nonce = "n"; generation = 7; sequence = 2 })
    ∷ some (record { nonce = "n"; generation = 7; sequence = 5 })
    ∷ []

-- The shard is ready, and the request waits.
opens_ready : (run json start opening).state.ready ≡ true
unfolding run step mark_written dispatch lifecycle recompute_ready can_serve bootstrap
    mandatory_record boot safe_integer start_world advance_generation drop_request healthy
opens_ready = refl

request-Waits : Waits "r1" (run json start opening).active
unfolding run step mark_written dispatch lifecycle recompute_ready can_serve bootstrap
    mandatory_record boot safe_integer start_world advance_generation drop_request healthy
request-Waits = (refl, (refl, refl))

-- The request is answered, and the second world is counted.
history_changes : (run json start history).state.generation_changes ≡ 1
unfolding run step mark_written dispatch lifecycle recompute_ready can_serve bootstrap
    mandatory_record boot safe_integer start_world advance_generation drop_request healthy rpc
    reply_to reply take_result take_value learn_result native_barrier request_stop deliver
history_changes = refl

run-Honest_example : Honest json (run json start history).state
run-Honest_example = run-Honest json start history (inl refl)

run-Follows_example :
    Follows start.state (run json start history).state
    × (length (run json start history).state.control_records ≤ 128)
run-Follows_example = run-Follows json start history (omega arith)

receive-counted_example :
    (receive (run json start opening) events).0.state.telemetry_sequence
      + (run json start opening).state.telemetry_gaps
    ≡ (run json start opening).state.telemetry_sequence
      + (receive (run json start opening) events).0.state.telemetry_gaps
      + (receive (run json start opening) events).1
receive-counted_example = receive-counted (run json start opening) events

step-Kept_example : Kept "r1" (step json (run json start opening) (bootstraps (some (boots 9))))
step-Kept_example =
    step-Kept json "r1" (run json start opening) (bootstraps (some (boots 9))) request-Waits

abbrev crash : ExitReport
crash = record {
  returncode = some (true, 9);
  forced = true;
  output_drained = true;
  protocol_error = none;
}

exit-Reports_example :
    Reports json "r1"
      (run json start opening)
      (replies (some result_frame) "u" ∷ exits (ok crash) ∷ [])
exit-Reports_example =
    exit-Reports json "r1" (run json start opening) (replies (some result_frame) "u" ∷ [])
      (ok crash) request-Waits

-- The state once the game has answered the request, and before its command ends.
abbrev answering : Shared Tree
answering = step json (run json start opening) (replies (some result_frame) "u")

answering-IsHeld : IsHeld "r1" answering (ok (count 5))
unfolding run step mark_written dispatch lifecycle recompute_ready can_serve bootstrap
    mandatory_record boot safe_integer start_world advance_generation drop_request healthy rpc
    reply_to reply take_result take_value learn_result
answering-IsHeld = record {
  pending = record {
    record_of = record request { written = true; accepted = true };
    result = some (ok (count 5));
    response = waiting;
    synchronized = true;
  };
  active_is = refl;
  id_is = refl;
  unanswered = refl;
  held = refl;
  framed = refl;
}

step-held_example : (step json answering (exits (ok crash))).receiver ≡ answered (ok (count 5))
step-held_example =
    step-held json "r1" answering (exits (ok crash)) (ok (count 5)) answering-IsHeld
      (gone (ok crash))

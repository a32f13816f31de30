-- ===== src/Driver/State.antt =====
-- The state of crates/dst-server/src/driver.rs: what the driver knows of a shard's game process, and
-- the request that waits for an answer.
use Prim.Native.Char.{code}
use Prim.Native.String.{len}
use dst_server.Base.{
  ℕ, String, Bool, true, false, not, ◌&&◌, ◌||◌, Option, none, some, List, Result, ok, err,
  text_is_empty, leb, ◌==◌, if◌then◌else◌,
}

-- What the driver takes from serde_json: a parsed value, read by its kind and by the names of its
-- fields. `index` is `value[name]`, which is null where there is no such field; `is_text`,
-- `is_number` and `is_bool` are `==` with a literal; `remove` and `insert` act on an object.
pub record Json (V : Type 0) : Type 0 where
  pub is_object : V → Bool
  pub index : V → String → V
  pub get : V → String → Option V
  pub as_text : V → Option String
  pub as_u64 : V → Option ℕ
  pub is_text : V → String → Bool
  pub is_number : V → ℕ → Bool
  pub is_bool : V → Bool → Bool
  pub show : V → String
  pub remove : V → String → Option V × V
  pub insert : V → String → String → V
  pub saved_record : String → Option ℕ → V

pub data DriverErrorCode : Type 0 where
  invalid_request not_ready busy unsupported not_found stale_reference : DriverErrorCode
  lua unknown timeout transport protocol : DriverErrorCode

pub record DriverError : Type 0 where
  pub code : DriverErrorCode
  pub message : String
  pub request_id : Option String
  pub written : Bool
  pub accepted : Bool

abbrev pub DriverResult : Type 0 → Type 0
DriverResult A = Result DriverError A

-- `DriverError::new`.
abbrev pub plain_error : DriverErrorCode → String → DriverError
plain_error code text = record {
  code = code;
  message = text;
  request_id = none;
  written = false;
  accepted = false;
}

pub record RequestRecord (V : Type 0) : Type 0 where
  pub id : String
  pub method : String
  pub generation : ℕ
  pub written : Bool
  pub accepted : Bool
  pub completed : Bool
  pub result : Option V
  pub error : Option DriverError

-- The sender of a request's answer: it takes one answer, and what it took stays.
pub data Response (V : Type 0) : Type 0 where
  waiting : Response V
  answered : DriverResult V → Response V

pub record Pending (V : Type 0) : Type 0 where
  pub record_of : RequestRecord V
  pub result : Option (DriverResult V)
  pub response : Response V
  pub synchronized : Bool

pub record DriverState (V : Type 0) : Type 0 where
  pub shard : String
  pub pid : ℕ
  pub process_id : String
  pub nonce : String
  pub generation : Option ℕ
  pub generation_changes : ℕ
  pub native_ready : Bool
  pub ready : Bool
  pub running : Bool
  pub stopping : Bool
  pub returncode : Option (Bool × ℕ)
  pub forced : Bool
  pub output_drained : Bool
  pub load_failure : Option V
  pub session_id : Option String
  pub health : Option V
  pub runtime : Option V
  pub last_native_save : Option V
  pub last_control : Option V
  pub control_records : List V
  pub failure : Option String
  pub telemetry_sequence : ℕ
  pub telemetry_gaps : ℕ
  pub invalid_telemetry : ℕ
  pub stale_telemetry : ℕ
  pub unmatched_replies : ℕ
  pub recent_request : Option (RequestRecord V)

pub record Shared (V : Type 0) : Type 0 where
  pub state : DriverState V
  pub stop_requested : Bool
  pub observation : Option (ℕ × String)
  pub active : Option (Pending V)
  -- The other end of the last request's `oneshot` channel, where `execute` waits: what has been
  -- sent stays there when the pending request is dropped.
  pub receiver : Response V

-- `MAX_SAFE_INTEGER` and `CONTROL_HISTORY`.
abbrev pub safe_limit : ℕ
safe_limit = 9007199254740991

abbrev pub control_history : ℕ
control_history = 128

abbrev pub is_none_of {ℓ} : {A : Type ℓ} → Option A → Bool
is_none_of none = true
is_none_of (some a) = false

-- `==` on optional numbers.
abbrev pub same_generation : Option ℕ → Option ℕ → Bool
same_generation none none = true
same_generation (some a) (some b) = a == b
same_generation _ _ = false

-- The bytes of a method's name: lower case letters, `_`, and digits behind the first byte.
abbrev method_byte : ℕ → Bool → Bool
method_byte b first = (leb 97 b && leb b 122) || (b == 95 || (not first && (leb 48 b && leb b 57)))

method_bytes : String → Bool → Bool
method_bytes String.[] first = true
method_bytes (String.◌∷◌ c s) first = method_byte (code c) first && method_bytes s false

unfoldable pub valid_method : String → Bool
unfolding method_bytes
valid_method method =
    not (text_is_empty method) && (leb (len method) 128 && method_bytes method true)

module _ {V : Type 0} where
  -- `Pending::error`.
  abbrev pub pending_error : Pending V → DriverErrorCode → String → DriverError
  pending_error p code text = record {
    code = code;
    message = text;
    request_id = some p.record_of.id;
    written = p.record_of.written;
    accepted = p.record_of.accepted;
  }

  abbrev pub complete_record : RequestRecord V → DriverResult V → RequestRecord V
  complete_record r (ok value) = record r { completed = true; result = some value; error = none }
  complete_record r (err e) = record r { completed = true; error = some e }

  -- `if let Some(response) = self.response.take() { response.send(result) }`.
  abbrev pub send : Response V → DriverResult V → Response V
  send waiting result = answered result
  send (answered first) result = answered first

  unfoldable pub deliver : Pending V → DriverResult V → Pending V
  deliver p result = record p {
    record_of = complete_record p.record_of result;
    response = send p.response result;
  }

module _ {V : Type 0} (J : Json V) where
  unfoldable pub safe_integer : V → Option ℕ
  safe_integer v = elim (J.as_u64 v) [
    | none ↦ none
    | some n ↦ if leb n safe_limit then some n else none
  ]

  -- What `recompute_ready` asks of the health record.
  unfoldable pub healthy : Option V → Option ℕ → Bool
  healthy none generation = false
  healthy (some health) generation =
      same_generation (safe_integer (J.index health "generation")) generation
      && (J.is_number (J.index health "protocol") 3
          && J.is_text (J.index (J.index health "capabilities") "players") "active")

  unfoldable pub can_serve : DriverState V → Bool
  can_serve s =
      s.running
      && (not s.stopping
          && (is_none_of s.failure && (s.native_ready && healthy s.health s.generation)))

  unfoldable pub recompute_ready : DriverState V → DriverState V
  recompute_ready s = record s { ready = can_serve s }

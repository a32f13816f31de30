-- ===== src/Model/Validation.antt =====
-- What crates/dst-server/src/model.rs requires of a request, with `validate_shard_name` of
-- crates/dst-server/src/configuration.rs.
use Prim.Native.Char.{Char, code}
use Prim.Native.String.{◌++◌}
use dst_server.Base.{
  ℕ, ◌+◌, ◌-◌, ◌^◌, String, Bool, true, false, not, ◌&&◌, ◌||◌, List, [], ◌∷◌, none, some, ok, err,
  ◌>>=◌, ◌>>◌, any_control, decimal, mem_text, text_is_empty, leb, ltb, ◌==◌, if◌then◌else◌,
}
use dst_server.Base.Float.{F64, is_finite, le_f64, lt_f64, zero_f64, try_from_secs_f64}
use dst_server.Model.Json.{Value, text, object, no_entries, entry, text_bytes}
use dst_server.Model.Requests.{invalid, Error, Answer, Target}

-- What is taken from the tables of Unicode, by `char` and `str`, and from the clock: whether an
-- instant can be told that lies so many nanoseconds ahead.
pub record Host : Type 0 where
  pub is_alphabetic : Char → Bool
  pub is_alphanumeric : Char → Bool
  pub is_whitespace : Char → Bool
  pub to_lowercase : String → String
  pub in_reach : ℕ → Bool

abbrev pub max_source_bytes : ℕ
max_source_bytes = 3072

abbrev pub safe_integer_bound : ℕ
safe_integer_bound = 2 ^ 53 - 1

unfoldable pub any_char : (Char → Bool) → String → Bool
any_char p String.[] = false
any_char p (String.◌∷◌ c s) = p c || any_char p s

abbrev pub has_code : ℕ → String → Bool
has_code n String.[] = false
has_code n (String.◌∷◌ c s) = code c == n || has_code n s

-- `value.chars().count()`.
unfoldable pub char_count : String → ℕ
char_count String.[] = 0
char_count (String.◌∷◌ c s) = 1 + char_count s

module _ {N : Type 0} where
  -- `Error::invalid`.
  abbrev pub invalid_field : String → String → Error N
  invalid_field field message = record {
    code = invalid;
    message = message;
    details = object (entry "field" (text field) no_entries);
  }

  abbrev pub require : Bool → String → String → Answer N (Unit {0})
  require true field message = ok tt
  require false field message = err (invalid_field field message)

  unfoldable pub finite_field : String → F64 → Answer N (Unit {0})
  finite_field field x = require (is_finite x) field "number must be finite"

  unfoldable pub integer : String → ℕ → ℕ → ℕ → Answer N (Unit {0})
  integer field x minimum maximum =
      require (leb minimum x && leb x maximum) field
        ("integer must be between " ++ decimal minimum ++ " and " ++ decimal maximum)

  unfoldable pub text_field : String → String → ℕ → Answer N (Unit {0})
  text_field field s maximum_bytes =
      require (not (text_is_empty s || (ltb maximum_bytes (text_bytes s) || has_code 0 s))) field
        "text is empty, contains NUL, or exceeds the byte limit"

  unfoldable pub identifier : String → String → Answer N (Unit {0})
  unfolding char_count
  identifier field s =
      require (not (text_is_empty s || (ltb 128 (char_count s) || any_control s))) field
        "identifier must contain 1 to 128 characters without control characters"

  -- `configuration.is_object()`.
  abbrev pub is_object : Value N → Bool
  is_object (object es) = true
  is_object _ = false

module _ (host : Host) where
  abbrev pub reserved_names : List String
  reserved_names =
      "console" ∷ "mods" ∷ "cluster.ini" ∷ "cluster_token.txt" ∷ "adminlist.txt" ∷ "whitelist.txt"
      ∷ "blocklist.txt" ∷ []

  abbrev pub starts_dot : String → Bool
  starts_dot String.[] = false
  starts_dot (String.◌∷◌ c s) = code c == 46

  -- NUL, `/`, a backslash and the newlines.
  abbrev pub is_path_code : Char → Bool
  is_path_code c = code c == 0 || (code c == 47 || (code c == 92 || (code c == 13 || code c == 10)))

  unfoldable pub shard_name_ok : String → Bool
  unfolding any_char
  shard_name_ok name =
      any_char (λ c. not (Host.is_whitespace host c)) name
      && (leb (text_bytes name) 255
          && (not (starts_dot name)
              && (not (any_char is_path_code name)
                  && not (mem_text (Host.to_lowercase host name) reserved_names))))

  unfoldable pub identifier_name : String → Bool
  unfolding any_char
  identifier_name String.[] = false
  identifier_name (String.◌∷◌ c s) =
      (code c == 95 || Host.is_alphabetic host c)
      && not (any_char (λ d. not (code d == 95 || Host.is_alphanumeric host d)) s)

  module _ {N : Type 0} where
    unfoldable pub check_target : Target → Answer N (Unit {0})
    check_target Target.room = ok tt
    check_target (Target.shard name) =
        require (shard_name_ok name) "target.shard" "unsafe shard directory name"

    unfoldable pub checked_duration : String → F64 → Answer N ℕ
    checked_duration field x = elim (try_from_secs_f64 x) [
      | none ↦ err (invalid_field field "duration is out of range")
      | some d ↦
          if Host.in_reach host d
          then ok d
          else err (invalid_field field "duration is out of range")
    ]

    unfoldable pub positive_duration : String → F64 → Answer N ℕ
    unfolding checked_duration
    positive_duration field x = do
      require (is_finite x && not (le_f64 x zero_f64)) field "duration must be positive and finite"
      d ← checked_duration field x
      require (not (d == 0)) field "duration must be at least one nanosecond"
      ok d

    unfoldable pub nonnegative : String → F64 → Answer N (Unit {0})
    unfolding finite_field checked_duration
    nonnegative field x = do
      finite_field field x
      require (not (lt_f64 x zero_f64)) field "number cannot be negative"
      d ← checked_duration field x
      ok tt

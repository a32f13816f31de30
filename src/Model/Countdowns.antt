-- ===== src/Model/Countdowns.antt =====
-- What crates/dst-server/src/model.rs requires of a countdown: its times, its parameters, and that
-- the template names only what there is.
use Prim.Native.Char.{code}
use Prim.Native.String.{◌++◌}
use dst_server.Base.{
  String, Bool, true, false, not, ◌&&◌, ◌||◌, List, [], ◌∷◌, ok, err, ◌>>=◌, ◌>>◌, mem_text,
  is_some_and, ◌==◌, if◌then◌else◌,
}
use dst_server.Base.Float.{is_finite}
use dst_server.Model.Json.{Value, number, text, Entries, no_entries, entry, Numbers, contains_key}
use dst_server.Model.Requests.{Answer, Countdown}
use dst_server.Model.Validation.{
  Host, max_source_bytes, require, invalid_field, text_field, nonnegative, positive_duration,
  identifier_name,
}

abbrev pub countdown_names : List String
countdown_names = "remaining" ∷ "minutes" ∷ "when" ∷ []

-- Where the scan of a template is: outside a placeholder, after its brace, after a closing brace
-- that is outside, or within the name, as far as it is read.
pub data Place : Type 0 where
  outside opened closed : Place
  within : String → Place

module _ {N : Type 0} where
  abbrev pub as_text_or_number : Numbers N → Value N → Bool
  as_text_or_number J (text s) = true
  as_text_or_number J (number n) = is_some_and (Numbers.as_f64 J n) is_finite
  as_text_or_number J v = false

  unfoldable pub validate_parameters : Numbers N → Entries N → Answer N (Unit {0})
  validate_parameters J no_entries = ok tt
  validate_parameters J (entry k v es) =
      let rest = validate_parameters J es in
      do
        require (not (mem_text k countdown_names)) "notice.parameters"
            "reserved countdown parameter"
        require (as_text_or_number J v) "notice.parameters"
            "countdown parameters must be text or finite numbers"
        rest

module _ (host : Host) {N : Type 0} where
  -- A name that is complete.
  abbrev pub placeholder : Entries N → String → Answer N (Unit {0})
  placeholder es name =
      require (identifier_name host name && (mem_text name countdown_names || contains_key name es))
        "notice.template" "unknown or invalid countdown placeholder"

  unfoldable pub scan_template : Entries N → Place → String → Answer N (Unit {0})
  scan_template es outside String.[] = ok tt
  scan_template es closed String.[] =
      err (invalid_field "notice.template" "unmatched closing brace")
  scan_template es opened String.[] =
      err (invalid_field "notice.template" "unclosed countdown placeholder")
  scan_template es (within name) String.[] =
      err (invalid_field "notice.template" "unclosed countdown placeholder")
  scan_template es outside (String.◌∷◌ c s) =
      scan_template es (if code c == 123 then opened else if code c == 125 then closed else outside)
        s
  scan_template es opened (String.◌∷◌ c s) =
      let inside =
        scan_template es (if code c == 123 then outside else within (String.◌∷◌ c "")) s in
      let next = scan_template es outside s in
      if code c == 125 then placeholder es "" >> next else inside
  scan_template es closed (String.◌∷◌ c s) =
      let next = scan_template es outside s in
      if code c == 125
      then next
      else err (invalid_field "notice.template" "unmatched closing brace")
  scan_template es (within name) (String.◌∷◌ c s) =
      let inside = scan_template es (within (name ++ String.◌∷◌ c "")) s in
      let next = scan_template es outside s in
      if code c == 125 then placeholder es name >> next else inside

  unfoldable pub validate_countdown : Numbers N → Countdown N → Answer N (Unit {0})
  unfolding text_field nonnegative positive_duration validate_parameters scan_template
  validate_countdown J c = do
    text_field "notice.template" c.template max_source_bytes
    nonnegative host "notice.delay" c.delay
    d ← positive_duration host "notice.interval" c.interval
    validate_parameters J c.parameters
    scan_template c.parameters outside c.template

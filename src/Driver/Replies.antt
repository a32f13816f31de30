-- ===== src/Driver/Replies.antt =====
-- The answers of the game in crates/dst-server/src/driver.rs: the frames that carry a result, and the
-- markers that end a native command.
use dst_server.Base.{
  ℕ, ◌+◌, String, Bool, true, false, not, ◌&&◌, ◌||◌, Option, none, some, [], ◌∷◌, Result, ok, err,
  any, text_eq, if◌then◌else◌, ◌==◌,
}
use dst_server.Driver.State.{
  Json, DriverErrorCode, DriverResult, Pending, DriverState, Shared, pending_error, deliver,
  safe_integer, recompute_ready, is_none_of, same_generation, lua, busy, not_ready, unsupported,
  not_found, stale_reference, unknown, invalid_request,
}
use dst_server.Driver.Handlers.{Handled, in_state, answer_active, mandatory_record}

module _ {V : Type 0} where
  abbrev pub unmatched : Shared V → Shared V
  unmatched s = in_state s (record (s.state) { unmatched_replies = s.state.unmatched_replies + 1 })

  abbrev pub with_active : Shared V → Pending V → Shared V
  with_active s p = record s { active = some p }

  abbrev pub accept : Pending V → Pending V
  accept p = record p { record_of = record (p.record_of) { accepted = true } }

  abbrev pub matched : Pending V → Pending V
  matched p = record p { record_of = record (p.record_of) { written = true }; synchronized = true }

  abbrev pub hold : Pending V → DriverResult V → Pending V
  hold p result = record p { result = some result }

  -- The last command ends: the pending request takes the answer and leaves.
  abbrev pub finish_active : Shared V → Pending V → DriverResult V → Shared V
  finish_active s p result = record s {
    state = record (s.state) { recent_request = some (deliver p result).record_of };
    active = none;
    receiver = (deliver p result).response;
  }

  abbrev pub held_or : Pending V → DriverErrorCode → String → DriverResult V
  held_or p code text = elim p.result [
    | some result ↦ result
    | none ↦ err (pending_error p code text)
  ]

  -- `native_barrier`; the flag is whether the line is `DST_LuaBusy`.
  unfoldable pub native_barrier : Shared V → Bool → Shared V
  native_barrier s is_busy = elim s.active [
    | none ↦ unmatched s
    | some p ↦
        if not p.synchronized
        then unmatched s
        else if is_busy
        then (if p.record_of.accepted || not (is_none_of p.result)
            then unmatched s
            else finish_active s p
                (err (pending_error p busy "native Lua rejected the request before acceptance")))
        else finish_active s p
            (held_or p unknown "native command completed without a structured result")
  ]

unfoldable pub error_code : String → Option DriverErrorCode
error_code e =
    if text_eq e "invalid_request" || text_eq e "rejected"
    then some invalid_request
    else if text_eq e "not_ready" || text_eq e "stale_generation"
    then some not_ready
    else if text_eq e "unsupported"
    then some unsupported
    else if text_eq e "not_found"
    then some not_found
    else if text_eq e "stale_reference"
    then some stale_reference
    else if text_eq e "indeterminate"
    then some unknown
    else if text_eq e "lua_error"
        || (text_eq e "invalid_json_value"
            || (text_eq e "invalid_utf8" || text_eq e "response_too_large"))
    then some lua
    else none

module _ {V : Type 0} (J : Json V) where
  -- A presence result: its epoch gives way to an identity, `ulid` if the epoch is new.
  abbrev pub identity_of : Option (ℕ × String) → ℕ → String → String
  identity_of none epoch ulid = ulid
  identity_of (some (previous, identity)) epoch ulid = if previous == epoch then identity else ulid

  unfoldable pub observe_presence : Shared V → V → String → Result String (Shared V × V)
  observe_presence s value ulid =
      if not (J.is_object value)
      then err "invalid presence result"
      else let (epoch, rest) = J.remove value "observation_epoch" in
        elim epoch [
          | none ↦ err "invalid presence observation epoch"
          | some number ↦ elim (safe_integer J number) [
            | none ↦ err "invalid presence observation epoch"
            | some n ↦
                let identity = identity_of s.observation n ulid in
                ok (
                  record s { observation = some (n, identity) },
                  J.insert rest "observation" identity,
                )
          ]
        ]

  -- What a result of a method tells of the world.
  abbrev pub learn : DriverState V → String → V → DriverState V
  learn s method value =
      if text_eq method "runtime"
      then record s { runtime = some value; session_id = J.as_text (J.index value "session_id") }
      else if text_eq method "health"
      then recompute_ready J (record s { health = some value })
      else s

  -- A result of the method, for a request to the current world.
  unfoldable pub learn_result : Shared V → Pending V → V → String → Result String (Shared V × V)
  learn_result s p value ulid =
      if not (same_generation s.state.generation (some p.record_of.generation))
      then ok (s, value)
      else if text_eq p.record_of.method "presence"
      then observe_presence s value ulid
      else ok (in_state s (learn s.state p.record_of.method value), value)

  -- A result that succeeds; `p` is the pending request, marked as accepted.
  unfoldable pub take_value : Shared V → Pending V → V → String → Handled V
  take_value s p value ulid = elim (learn_result s p value ulid) [
    | err e ↦ (with_active s p, err e)
    | ok (t, shown) ↦ (answer_active t (hold p (ok shown)), ok tt)
  ]

  -- A result that fails.
  unfoldable pub take_error : Shared V → Pending V → V → Bool → Handled V
  take_error s p result rejected = elim (J.as_text (J.index result "error")) [
    | none ↦ (with_active s p, err "invalid RPC error")
    | some e ↦
        let q = if rejected then p else accept p in
        elim (error_code e) [
          | none ↦ (with_active s q, err "unknown RPC error code")
          | some code ↦ (answer_active s (hold q (err (pending_error q code e))), ok tt)
        ]
  ]

  unfoldable pub take_result : Shared V → Pending V → V → Bool → String → Handled V
  take_result s p result rejected ulid =
      if not (is_none_of p.result)
      then (with_active s p, err "duplicate RPC result")
      else if J.is_bool (J.index result "ok") true && not (is_none_of (J.get result "data"))
      then elim (J.get result "data") [
        | none ↦ (with_active s p, err "invalid RPC result")
        | some value ↦ take_value s (accept p) value ulid
      ]
      else if J.is_bool (J.index result "ok") false
      then take_error s p result rejected
      else (with_active s p, err "invalid RPC result")

  abbrev pub rejects : V → Pending V → Bool
  rejects response p =
      J.is_bool (J.index (J.index response "result") "ok") false
      && (not p.record_of.accepted
          && any (λ e. J.is_text (J.index (J.index response "result") "error") e)
              ("invalid_request" ∷ "not_ready" ∷ "stale_generation" ∷ []))

  unfoldable pub reply : Shared V → Pending V → V → String → Handled V
  reply s p response ulid =
      if not (
          same_generation (safe_integer J (J.index response "generation"))
            (some p.record_of.generation))
        && not (rejects response p)
      then (s, err "RPC response generation does not match its request")
      else elim (J.get response "result") [
        | none ↦
            if J.is_bool (J.index response "accepted") true
            then (answer_active s (accept (matched p)), ok tt)
            else (with_active s (matched p), err "RPC response lacks an acceptance or result")
        | some result ↦ take_result s (matched p) result (rejects response p) ulid
      ]

  unfoldable pub reply_to : Shared V → Option (Pending V) → V → String → Handled V
  reply_to s none response ulid = (unmatched s, ok tt)
  reply_to s (some p) response ulid =
      if J.is_text (J.index response "id") p.record_of.id
      then reply s p response ulid
      else (unmatched s, ok tt)

  -- `ulid` is the identity that is made if the response needs one.
  unfoldable pub rpc : Shared V → Option V → String → Handled V
  rpc s payload ulid = elim (mandatory_record J s.state.nonce payload) [
    | err e ↦ (s, err e)
    | ok response ↦
        if not (J.is_number (J.index response "v") 1)
          || (is_none_of (safe_integer J (J.index response "generation"))
              || is_none_of (J.as_text (J.index response "id")))
        then (s, err "invalid RPC response header")
        else reply_to s s.active response ulid
  ]

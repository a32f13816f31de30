-- ===== src/Rpc/Examples.antt =====
-- Numbers that are small, or known by their text, and requests that carry them.
use Prim.Native.Char.{Char, code}
use Prim.Native.String.{◌∷◌}
use dst_server.Base.{
  ℕ, zero, suc, ◌+◌, ◌≤◌, ◌-◌, ◌*◌, ◌≡◌, refl, String, Bool, true, false, Option, none, some,
  Result, ok, err, text_eq, text_eq_iff, leb, ◌&&◌, arith, ◌==◌, if◌then◌else◌, Holds,
}
use dst_server.Base.Int.{ℤ, pos, negsuc}
use dst_server.Base.Float.{try_from_secs_f64}
use dst_server.Model.Json.{
  Numbers, Value, null, number, text, array, object, no_values, value, entries_length, text_bytes,
  no_entries, entry, before,
}
use dst_server.Model.Requests.{Request, configure, Target, Envelope, ErrorCode, Answer}
use dst_server.Rpc.Values.{
  Wire, write_value, read_value_with_budget, list_value, wire, no_wires, signed_value,
}
use dst_server.Rpc.Values.RoundTrip.{NumberLaws, IsExact, read_value-write_value}
use dst_server.Rpc.Values.Bounds.{nodes, nesting, read_value-bounded}
use dst_server.Rpc.Values.Cost.{cost, write_value-total}
use dst_server.Rpc.Envelopes.{Sizes, encode_outcome, read_outcome, encode_envelope, read_envelope}
use dst_server.Rpc.Envelopes.RoundTrip.{read_outcome-encode_outcome, read_envelope-encode_envelope}
use dst_server.Model.Validation.{Host}
use dst_server.Model.Envelopes.{validate_envelope}
use dst_server.Rpc.Requests.{write_request, read_request}
use dst_server.Rpc.Requests.RoundTrip.{read_request-write_request}

data Num : Type 0 where
  small : ℕ → Num
  long : String → Num

-- A small number is written as that many strokes.
strokes : ℕ → String
strokes zero = ""
strokes (suc n) = "I" ∷ strokes n

one_more : Result String Num → Result String Num
one_more (ok (small n)) = ok (small (suc n))
one_more m = m

read_num : String → Result String Num
unfolding one_more
read_num String.[] = ok (small 0)
read_num (String.◌∷◌ c s) =
    let rest = read_num s in if code c == 73 then one_more rest else ok (long s)

show_num : Num → String
unfolding strokes
show_num (small n) = strokes n
show_num (long s) = "x" ∷ s

small_of : ℤ → Num
small_of (pos n) = small n
small_of (negsuc n) = long "-"

integer_of : Num → Option ℤ
integer_of (small n) = some (pos n)
integer_of (long s) = none

same_num : Num → Num → Bool
same_num (small m) (small n) = m == n
same_num (long s) (long t) = text_eq s t
same_num _ _ = false

abbrev nums : Numbers Num
nums = record {
  as_i64 = integer_of;
  as_u64 = λ n. none;
  as_f64 = λ n. none;
  of_i64 = small_of;
  of_u64 = small;
  from_f64 = λ x. none;
  same_number = same_num;
  to_string = show_num;
  parse = read_num;
}

read-strokes : (n : ℕ) → read_num (strokes n) ≡ ok (small n)
unfolding read_num strokes one_more
read-strokes zero = refl
read-strokes (suc n) = rw (read-strokes n)

read-show : (n : Num) → read_num (show_num n) ≡ ok n
unfolding show_num read_num
read-show (small n) = read-strokes n
read-show (long s) = refl

same_num-path : (m n : Num) → same_num m n ≡ true → m ≡ n
unfolding same_num
same_num-path (small m) (small n) e = ground arith
same_num-path (long s) (long t) e = ground (arith, text_eq_iff s t)
same_num-path (small m) (long t) e = ground arith
same_num-path (long s) (small n) e = ground arith

nums-laws : NumberLaws nums
nums-laws = record { parse-to_string = read-show; same_number-path = same_num-path }

-- `[2, "a"]` and `{"a": [2, "a"], "b": null}`.
abbrev pair : Value Num
pair = array (value (number (small 2)) (value (text "a") no_values))

abbrev document : Value Num
document = object (entry "a" pair (entry "b" null no_entries))

canonical_small : (i : ℤ) → integer_of (small 2) ≡ some i → small_of i ≡ small 2
unfolding integer_of small_of
canonical_small (pos n) e = ground arith
canonical_small (negsuc n) e = ground arith

no_unsigned : (m : ℕ) → Numbers.as_u64 nums (small 2) ≡ some m → small m ≡ small 2
no_unsigned m e = ground arith

document-IsExact : IsExact nums document
unfolding before
document-IsExact = ((refl, tt), (((canonical_small, no_unsigned), (tt, tt)), (tt, (tt, tt))))

read_value-write_value_example :
    Holds
      (λ r. read_value_with_budget nums (1000 + 24) 0 r.1 ≡ ok (r.0 + 24, document))
      (write_value nums 1000 0 document)
read_value-write_value_example =
    read_value-write_value nums nums-laws 24 1000 0 document document-IsExact

written_eq : cost nums document ≡ 192
unfolding integer_of entries_length text_bytes
written_eq = refl

enough : cost nums document ≤ 1000
unfolding integer_of entries_length text_bytes
enough = omega arith

shallow : 0 + nesting document ≤ 64
shallow = omega arith

write_value-total_example :
    (w : Wire) × (write_value nums 1000 0 document ≡ ok (1000 - cost nums document, w))
write_value-total_example = write_value-total nums 1000 0 document enough shallow

abbrev wires : Wire
wires = list_value (wire (signed_value (pos 2)) (wire (signed_value (negsuc 0)) no_wires))

read_value-bounded_example :
    Holds
      (λ r. (r.0 + 24 * nodes r.1 ≤ 100) × (0 + nesting r.1 ≤ 64))
      (read_value_with_budget nums 100 0 wires)
read_value-bounded_example = read_value-bounded nums wires 100 0

abbrev configuring : Request Num
configuring = configure document true

read_request-write_request_example :
    Holds (λ w. read_request nums w ≡ ok configuring) (write_request nums configuring)
read_request-write_request_example =
    read_request-write_request nums nums-laws configuring document-IsExact

abbrev sizes : Sizes
sizes = record {
  of_value = λ w. ok (30, 0);
  of_outcome = λ w. ok (40, 0);
  of_envelope = λ w. ok (50, 0);
}

abbrev failure : Answer Num (Value Num)
failure = err (record { code = ErrorCode.lua; message = "failed"; details = document })

read_outcome-encode_outcome_example :
    Holds (λ w. read_outcome sizes nums w ≡ failure) (encode_outcome sizes nums failure)
read_outcome-encode_outcome_example =
    read_outcome-encode_outcome sizes nums nums-laws failure document-IsExact

-- Letters are those of ASCII.
abbrev is_letter : Char → Bool
is_letter c = leb 97 (code c) && leb (code c) 122

abbrev host : Host
host = record {
  is_alphabetic = is_letter;
  is_alphanumeric = is_letter;
  is_whitespace = λ c. code c == 32;
  to_lowercase = λ s. s;
  in_reach = λ d. true;
}

abbrev envelope : Envelope Num
envelope = record { target = Target.room; request = configuring; timeout = none }

envelope-valid : validate_envelope host nums envelope ≡ ok tt
unfolding validate_envelope try_from_secs_f64
envelope-valid = refl

read_envelope-encode_envelope_example :
    Holds
      (λ w. read_envelope sizes nums host w ≡ ok envelope)
      (encode_envelope sizes nums host envelope)
read_envelope-encode_envelope_example =
    read_envelope-encode_envelope sizes nums nums-laws host envelope document-IsExact

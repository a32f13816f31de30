-- ===== src/Lua/Strings/RoundTrip.antt =====
-- A rendered text is a literal that is decoded to the text, and that no newline of Lua cuts.
use dst_server.Base.{
  ℕ, ◌-◌, ◌<◌, ◌≡◌, refl, sym, true, false, some, [], ◌∷◌, ◌++◌, ok, err, Fallible, ◌>>=◌, ensure,
  Bytes, is_control_code, is_scalar, encode_char, encode_utf8, from_utf8-encode_utf8, length, leb,
  ◌==◌, ==_iff, All, Bool-cases, inl, inr, arith, Holds, Holds-then, Holds-map, Holds-bind, All-++,
  append_assoc, append-nil, ◌∙◌,
}
use dst_server.Lua.Strings.Closing.{
  literal_of, behind_literal, behind-literal_of, encode_char-bytes,
}
use dst_server.Lua.Strings.{
  Chars, max_source_length, double, string_literal, push_byte, decode, string, decimal_escape,
  decimal_escapes, render_char, render_chars, render_string, normalize_line_endings,
}

decode-plain : (b : ℕ) (r : Bytes) → (b == 92) ≡ false → decode (b ∷ r) ≡ push_byte b (decode r)
unfolding decode
decode-plain b [] e = rw e
decode-plain b (x ∷ []) e = rw e
decode-plain b (x ∷ y ∷ []) e = rw e
decode-plain b (x ∷ y ∷ z ∷ r) e = rw e

decode-quote : (r : Bytes) → decode (92 ∷ 34 ∷ r) ≡ push_byte 34 (decode r)
unfolding decode
decode-quote [] = refl
decode-quote (x ∷ []) = refl
decode-quote (x ∷ y ∷ r) = refl

decode-backslash : (r : Bytes) → decode (92 ∷ 92 ∷ r) ≡ push_byte 92 (decode r)
unfolding decode
decode-backslash [] = refl
decode-backslash (x ∷ []) = refl
decode-backslash (x ∷ y ∷ r) = refl

decode-decimal :
    (b : ℕ) (r : Bytes) → b < 256 → decode (decimal_escape b ++ r) ≡ push_byte b (decode r)
unfolding decode
decode-decimal b r l = ground arith

abbrev append_bytes : Bytes → Fallible Bytes → Fallible Bytes
append_bytes bs rest = do cs ← rest; ok (bs ++ cs)

push_append :
    (b : ℕ) (bs : Bytes) (m : Fallible Bytes)
    → push_byte b (append_bytes bs m) ≡ append_bytes (b ∷ bs) m
push_append b bs (ok cs) = refl
push_append b bs (err f) = refl

append_none : (m : Fallible Bytes) → append_bytes [] m ≡ m
append_none (ok cs) = refl
append_none (err f) = refl

decode-plains :
    (bs r : Bytes) → All (λ b. (b == 92) ≡ false) bs → decode (bs ++ r) ≡ append_bytes bs (decode r)
decode-plains [] r a = sym (append_none (decode r))
decode-plains (b ∷ bs) r (e, a) =
    rw (decode-plain b (bs ++ r) e, decode-plains bs r a, push_append b bs (decode r))

decode-decimals :
    (bs r : Bytes)
    → All (λ b. b < 256) bs
    → decode (decimal_escapes bs ++ r) ≡ append_bytes bs (decode r)
unfolding decimal_escapes
decode-decimals [] r a = sym (append_none (decode r))
decode-decimals (b ∷ bs) r (l, a) = rw (
  decode-decimal b (decimal_escapes bs ++ r) l,
  decode-decimals bs r a,
  push_append b bs (decode r),
)

encode_char-plain :
    (c : ℕ) → is_scalar c ≡ true → (c == 92) ≡ false → All (λ b. (b == 92) ≡ false) (encode_char c)
unfolding encode_char
encode_char-plain c s e = ground arith

decode-render_char :
    (c : ℕ) (r : Bytes)
    → is_scalar c ≡ true
    → decode (render_char c ++ r) ≡ append_bytes (encode_char c) (decode r)
unfolding render_char
decode-render_char c r s = elim (Bool-cases (c == 34)) [
  | inl q ↦ rw ((==_iff c 34).0 q) (decode-quote r)
  | inr q ↦ elim (Bool-cases (c == 92)) [
    | inl b ↦ rw ((==_iff c 92).0 b) (decode-backslash r)
    | inr b ↦ elim (Bool-cases (is_control_code c)) [
      | inl k ↦ rw (q, b, k) (decode-decimals (encode_char c) r (encode_char-bytes c s))
      | inr k ↦ rw (q, b, k) (decode-plains (encode_char c) r (encode_char-plain c s b))
    ]
  ]
]

decode-literal_of :
    (s : Chars) → All (λ c. is_scalar c ≡ true) s → decode (literal_of s) ≡ ok (encode_utf8 s)
unfolding decode literal_of encode_utf8
decode-literal_of [] a = refl
decode-literal_of (c ∷ cs) (h, a) =
    rw (decode-render_char c (literal_of cs) h, decode-literal_of cs a)

string-literal_of :
    (s : Chars)
    → All (λ c. is_scalar c ≡ true) s
    → string (string_literal double (literal_of s)) ≡ ok s
unfolding string
string-literal_of s a = rw (decode-literal_of s a, from_utf8-encode_utf8 s a)

-- No byte is a control character of ASCII.
decimal_escapes-visible :
    (bs : Bytes) → All (λ b. b < 256) bs → All (λ b. 31 < b) (decimal_escapes bs)
unfolding decimal_escapes
decimal_escapes-visible [] a = tt
decimal_escapes-visible (b ∷ bs) (l, a) =
    (omega arith, (omega arith, (omega arith, (omega arith, decimal_escapes-visible bs a))))

encode_char-visible : (c : ℕ) → is_control_code c ≡ false → All (λ b. 31 < b) (encode_char c)
unfolding encode_char
encode_char-visible c k = ground arith

render_char-visible : (c : ℕ) → is_scalar c ≡ true → All (λ b. 31 < b) (render_char c)
unfolding render_char
render_char-visible c s = elim (Bool-cases (c == 34)) [
  | inl q ↦ rw q (omega arith, (omega arith, tt))
  | inr q ↦ elim (Bool-cases (c == 92)) [
    | inl b ↦ rw (q, b) (omega arith, (omega arith, tt))
    | inr b ↦ elim (Bool-cases (is_control_code c)) [
      | inl k ↦ rw (q, b, k) (decimal_escapes-visible (encode_char c) (encode_char-bytes c s))
      | inr k ↦ rw (q, b, k) (encode_char-visible c k)
    ]
  ]
]

literal_of-visible :
    (s : Chars) → All (λ c. is_scalar c ≡ true) s → All (λ b. 31 < b) (literal_of s)
unfolding literal_of
literal_of-visible [] a = tt
literal_of-visible (c ∷ cs) (h, a) =
    All-++ (λ b. 31 < b) (render_char c) (literal_of cs) (render_char-visible c h)
      (literal_of-visible cs a)

normalize-visible : (bs : Bytes) → All (λ b. 31 < b) bs → normalize_line_endings bs ≡ bs
unfolding normalize_line_endings
normalize-visible [] a = refl
normalize-visible (b ∷ []) (l, a) = ground arith
normalize-visible (b ∷ c ∷ bs) (l, a) = ground (arith, normalize-visible (c ∷ bs) a)

render_chars-output :
    (s : Chars) (output : Bytes)
    → Holds (λ out. out ≡ output ++ literal_of s) (render_chars s output)
unfolding render_chars literal_of
render_chars-output [] output = sym (append-nil output)
render_chars-output (c ∷ cs) output =
    Holds-then _
      (ensure (leb (length (output ++ render_char c)) (max_source_length - 7))
        "Lua output exceeds the byte limit")
      _
      (λ _ _.
        Holds-map _ _ (render_chars cs (output ++ render_char c))
          (λ out _ h. h ∙ append_assoc output (render_char c) (literal_of cs))
          (render_chars-output cs (output ++ render_char c)))

-- A rendered text is put after the output, in quotes, as a literal that is decoded to the text
-- and that the normalization of newlines leaves alone. The closing quote is the first one that no
-- backslash escapes, so that the literal ends there, whatever text follows it.
pub string-render_string :
    (s : Chars) (output : Bytes)
    → All (λ c. is_scalar c ≡ true) s
    → Holds
        (λ out.
          (literal : Bytes) × ((out ≡ output ++ (34 ∷ (literal ++ (34 ∷ []))))
            × ((string (string_literal double literal) ≡ ok s)
                × ((normalize_line_endings literal ≡ literal)
                    × ((rest : Bytes) → behind_literal (literal ++ (34 ∷ rest)) ≡ some rest)))))
        (render_string s output)
unfolding render_string
string-render_string s output a =
    Holds-then _
      (ensure (leb (length (encode_utf8 s)) max_source_length) "Lua string exceeds the byte limit")
      _
      (λ _ _.
        Holds-bind _ _ (render_chars s (output ++ (34 ∷ []))) _
          (λ out _ h. (
            literal_of s,
            (
              rw (
                h,
                append_assoc output (34 ∷ []) (literal_of s),
                append_assoc output (34 ∷ literal_of s) (34 ∷ []),
              ),
              (
                string-literal_of s a,
                (
                  normalize-visible (literal_of s) (literal_of-visible s a),
                  λ rest. behind-literal_of s rest a,
                ),
              ),
            ),
          ))
          (render_chars-output s (output ++ (34 ∷ []))))

-- ===== src/Lua/Strings/Closing.antt =====
-- Where a rendered literal of Lua ends.
use dst_server.Base.{
  ℕ, ◌<◌, ◌≡◌, refl, ◌∙◌, true, false, [], ◌∷◌, ◌++◌, Option, none, some, Bytes, is_control_code,
  is_scalar, encode_char, ◌==◌, All, Bool-cases, inl, inr, arith, if◌then◌else◌, append_assoc, ap,
  ◌+◌, ◌/◌, ◌%◌,
}
use dst_server.Lua.Strings.{Chars, decimal_escape, decimal_escapes, render_char}

-- The text between the quotes.
unfoldable pub literal_of : Chars → Bytes
literal_of [] = []
literal_of (c ∷ cs) = render_char c ++ literal_of cs

pub encode_char-bytes : (c : ℕ) → is_scalar c ≡ true → All (λ b. b < 256) (encode_char c)
unfolding encode_char
encode_char-bytes c s = ground arith

-- What follows the closing quote of a text that begins behind an opening one: the closing quote is
-- the first that no backslash stands before, where a backslash takes the byte behind it with it.
-- There is none if the text ends before it.
unfoldable pub behind_literal : Bytes → Option Bytes
behind_literal [] = none
behind_literal (b ∷ []) = if b == 34 then some [] else none
behind_literal (b ∷ e ∷ rest) =
    let one = behind_literal (e ∷ rest) in
    let two = behind_literal rest in
    if b == 34 then some (e ∷ rest) else if b == 92 then two else one

behind-plain :
    (b : ℕ) (r : Bytes)
    → (b == 34) ≡ false
    → (b == 92) ≡ false
    → behind_literal (b ∷ r) ≡ behind_literal r
unfolding behind_literal
behind-plain b [] q e = rw q refl
behind-plain b (x ∷ r) q e = rw (q, e) refl

behind-escaped : (e : ℕ) (r : Bytes) → behind_literal (92 ∷ e ∷ r) ≡ behind_literal r
unfolding behind_literal
behind-escaped e r = refl

behind-quote : (r : Bytes) → behind_literal (34 ∷ r) ≡ some r
unfolding behind_literal
behind-quote [] = refl
behind-quote (x ∷ r) = refl

abbrev IsPlain : ℕ → Type 0
IsPlain b = ((b == 34) ≡ false) × ((b == 92) ≡ false)

behind-plains : (bs r : Bytes) → All IsPlain bs → behind_literal (bs ++ r) ≡ behind_literal r
behind-plains [] r a = refl
behind-plains (b ∷ bs) r ((q, e), a) = behind-plain b (bs ++ r) q e ∙ behind-plains bs r a

digit-IsPlain : (n : ℕ) → n < 10 → IsPlain (48 + n)
digit-IsPlain n l = ground arith

behind-decimal :
    (b : ℕ) (r : Bytes) → b < 256 → behind_literal (decimal_escape b ++ r) ≡ behind_literal r
behind-decimal b r l =
    behind-escaped (48 + b / 100) ((48 + b / 10 % 10) ∷ (48 + b % 10) ∷ r)
    ∙ behind-plains ((48 + b / 10 % 10) ∷ (48 + b % 10) ∷ []) r
        (digit-IsPlain (b / 10 % 10) (omega arith), (digit-IsPlain (b % 10) (omega arith), tt))

behind-decimals :
    (bs r : Bytes)
    → All (λ b. b < 256) bs
    → behind_literal (decimal_escapes bs ++ r) ≡ behind_literal r
unfolding decimal_escapes
behind-decimals [] r a = refl
behind-decimals (b ∷ bs) r (l, a) =
    behind-decimal b (decimal_escapes bs ++ r) l ∙ behind-decimals bs r a

encode_char-IsPlain :
    (c : ℕ)
    → is_scalar c ≡ true
    → (c == 34) ≡ false
    → (c == 92) ≡ false
    → All IsPlain (encode_char c)
unfolding encode_char
encode_char-IsPlain c s q e = ground arith

behind-render_char :
    (c : ℕ) (r : Bytes)
    → is_scalar c ≡ true
    → behind_literal (render_char c ++ r) ≡ behind_literal r
unfolding render_char
behind-render_char c r s = elim (Bool-cases (c == 34)) [
  | inl q ↦ rw q (behind-escaped 34 r)
  | inr q ↦ elim (Bool-cases (c == 92)) [
    | inl b ↦ rw (q, b) (behind-escaped 92 r)
    | inr b ↦ elim (Bool-cases (is_control_code c)) [
      | inl k ↦ rw (q, b, k) (behind-decimals (encode_char c) r (encode_char-bytes c s))
      | inr k ↦ rw (q, b, k) (behind-plains (encode_char c) r (encode_char-IsPlain c s q b))
    ]
  ]
]

-- The literal of a text ends at the quote that is put behind it, whatever follows.
pub behind-literal_of :
    (s : Chars) (r : Bytes)
    → All (λ c. is_scalar c ≡ true) s
    → behind_literal (literal_of s ++ (34 ∷ r)) ≡ some r
unfolding literal_of
behind-literal_of [] r a = behind-quote r
behind-literal_of (c ∷ cs) r (h, a) =
    ap behind_literal (append_assoc (render_char c) (literal_of cs) (34 ∷ r))
    ∙ (behind-render_char c (literal_of cs ++ (34 ∷ r)) h ∙ behind-literal_of cs r a)

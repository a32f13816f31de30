-- ===== src/Deployment/Quoting/RoundTrip.antt =====
-- Values are written to a unit file and read back.
use dst_server.Base.{
  ℕ, ◌≡◌, refl, ◌↔◌, Bool, true, false, ◌||◌, [], ◌∷◌, ◌++◌, some, ok, err, Fallible, Holds,
  Holds-ok, inl, inr, Bool-cases, arith, ◌==◌, any, Holds-bind, ◌>>◌, ==_iff,
}
use dst_server.Deployment.Quoting.{
  Chars, is_line_code, literal, double, escape_quotes, escape, volume_escape, quote, push_char,
  undouble, volume_unescape, unescape, strip_last, strip_quotes, unquote,
}

-- A value with neither NUL nor a newline.
abbrev pub IsLine : Chars → Type 0
IsLine value = any is_line_code value ≡ false

abbrev is_special : ℕ → Bool
is_special c = c == 92 || (c == 36 || (c == 37 || c == 34))

undouble-plain :
    (c : ℕ) (rest : Chars)
    → (c == 36 || c == 37) ≡ false
    → undouble (c ∷ rest) ≡ push_char c (undouble rest)
unfolding undouble
undouble-plain c [] e = rw e
undouble-plain c (d ∷ rest) e = rw e

undouble-pair :
    (c : ℕ) (rest : Chars)
    → (c == 36 || c == 37) ≡ true
    → undouble (c ∷ c ∷ rest) ≡ push_char c (undouble rest)
unfolding undouble
undouble-pair c rest e = ground arith

volume_escape-plain :
    (c : ℕ) (cs : Chars)
    → (c == 36 || c == 37) ≡ false
    → volume_escape (c ∷ cs) ≡ c ∷ volume_escape cs
unfolding volume_escape double
volume_escape-plain c cs e = ground arith

volume_escape-pair :
    (c : ℕ) (cs : Chars)
    → (c == 36 || c == 37) ≡ true
    → volume_escape (c ∷ cs) ≡ c ∷ c ∷ volume_escape cs
unfolding volume_escape double
volume_escape-pair c cs e = ground arith

undouble-volume_escape : (v : Chars) → undouble (volume_escape v) ≡ ok v
unfolding undouble volume_escape double
undouble-volume_escape [] = refl
undouble-volume_escape (c ∷ cs) = elim (Bool-cases (c == 36 || c == 37)) [
  | inl e ↦
      rw
        (volume_escape-pair c cs e, undouble-pair c (volume_escape cs) e, undouble-volume_escape cs)
  | inr e ↦
      rw (
        volume_escape-plain c cs e,
        undouble-plain c (volume_escape cs) e,
        undouble-volume_escape cs,
      )
]

unescape-plain :
    (c : ℕ) (rest : Chars)
    → is_special c ≡ false
    → unescape (c ∷ rest) ≡ push_char c (unescape rest)
unfolding unescape
unescape-plain c [] e = ground arith
unescape-plain c (d ∷ rest) e = ground arith

unescape-pair :
    (c : ℕ) (rest : Chars)
    → (c == 92 || (c == 36 || c == 37)) ≡ true
    → unescape (c ∷ c ∷ rest) ≡ push_char c (unescape rest)
unfolding unescape
unescape-pair c rest e = ground arith

unescape-quote : (rest : Chars) → unescape (92 ∷ 34 ∷ rest) ≡ push_char 34 (unescape rest)
unfolding unescape
unescape-quote rest = refl

quoted-plain :
    (c : ℕ) (cs : Chars)
    → is_special c ≡ false
    → escape_quotes (escape (c ∷ cs)) ≡ c ∷ escape_quotes (escape cs)
unfolding escape escape_quotes double
quoted-plain c cs e = ground arith

quoted-pair :
    (c : ℕ) (cs : Chars)
    → (c == 92 || (c == 36 || c == 37)) ≡ true
    → escape_quotes (escape (c ∷ cs)) ≡ c ∷ c ∷ escape_quotes (escape cs)
unfolding escape escape_quotes double
quoted-pair c cs e = ground arith

quoted-quote :
    (c : ℕ) (cs : Chars)
    → (c == 34) ≡ true
    → escape_quotes (escape (c ∷ cs)) ≡ 92 ∷ 34 ∷ escape_quotes (escape cs)
unfolding escape escape_quotes double
quoted-quote c cs e = ground arith

unescape-escape : (v : Chars) → unescape (escape_quotes (escape v)) ≡ ok v
unfolding unescape escape escape_quotes double
unescape-escape [] = refl
unescape-escape (c ∷ cs) = elim (Bool-cases (is_special c)) [
  | inl e ↦ elim (Bool-cases (c == 34)) [
    | inl q ↦ rw (
      quoted-quote c cs q,
      unescape-quote (escape_quotes (escape cs)),
      unescape-escape cs,
      (==_iff c 34).0 q,
    )
    | inr q ↦
        (let two : (c == 92 || (c == 36 || c == 37)) ≡ true = ground arith in
          rw (
            quoted-pair c cs two,
            unescape-pair c (escape_quotes (escape cs)) two,
            unescape-escape cs,
          ))
  ]
  | inr e ↦
      rw (quoted-plain c cs e, unescape-plain c (escape_quotes (escape cs)) e, unescape-escape cs)
]

strip_last-append : (v : Chars) → strip_last (v ++ (34 ∷ [])) ≡ some v
unfolding strip_last
strip_last-append [] = refl
strip_last-append (c ∷ []) = refl
strip_last-append (c ∷ d ∷ rest) = rw (strip_last-append (d ∷ rest))

literal-line : (v : Chars) → IsLine v → literal v ≡ ok tt
unfolding literal
literal-line v l = rw l

-- A volume's path that is one line is read back from its escaped form.
pub volume_unescape-volume_escape :
    (v : Chars) → IsLine v → volume_unescape (volume_escape v) ≡ ok v
unfolding volume_unescape
volume_unescape-volume_escape v l = rw (undouble-volume_escape v, literal-line v l)

strip_quotes-quote : (v : Chars) → strip_quotes (quote v) ≡ some (escape_quotes (escape v))
unfolding strip_quotes quote
strip_quotes-quote v = strip_last-append (escape_quotes (escape v))

-- A value of a unit file that is one line is read back from its quoted form.
pub unquote-quote : (v : Chars) → IsLine v → unquote (quote v) ≡ ok v
unfolding unquote
unquote-quote v l = rw (strip_quotes-quote v, unescape-escape v, literal-line v l)

-- A decoded value `v` whose escaped form is `q`.
abbrev Escapes : Chars → Fallible Chars → Type 0
Escapes q m = Holds (λ v. volume_escape v ≡ q) m

Escapes-plain :
    (c : ℕ) (q : Chars) (m : Fallible Chars)
    → (c == 36 || c == 37) ≡ false
    → Escapes q m
    → Escapes (c ∷ q) (push_char c m)
Escapes-plain c q (ok v) e h = rw (volume_escape-plain c v e, h)
Escapes-plain c q (err f) e h = tt

Escapes-pair :
    (c : ℕ) (q : Chars) (m : Fallible Chars)
    → (c == 36 || c == 37) ≡ true
    → Escapes q m
    → Escapes (c ∷ c ∷ q) (push_char c m)
Escapes-pair c q (ok v) e h = rw (volume_escape-pair c v e, h)
Escapes-pair c q (err f) e h = tt

Escapes-same :
    (c d : ℕ) (q : Chars)
    → (c == 36 || c == 37) ≡ true
    → d ≡ c
    → Escapes q (undouble q)
    → Escapes (c ∷ d ∷ q) (undouble (c ∷ d ∷ q))
Escapes-same c d q e same h = rw (same, undouble-pair c q e) (Escapes-pair c q (undouble q) e h)

-- What is read is written the same way.
undouble-Escapes : (q : Chars) → Escapes q (undouble q)
unfolding undouble volume_escape double
undouble-Escapes [] = refl
undouble-Escapes (c ∷ []) = elim (Bool-cases (c == 36 || c == 37)) [
  | inl e ↦ rw e tt
  | inr e ↦ rw (undouble-plain c [] e) (Escapes-plain c [] (ok []) e refl)
]
undouble-Escapes (c ∷ d ∷ rest) = elim (Bool-cases (c == 36 || c == 37)) [
  | inl e ↦ elim (Bool-cases (d == c)) [
    | inl q ↦ Escapes-same c d rest e ((==_iff d c).0 q) (undouble-Escapes rest)
    | inr q ↦ rw (e, q) tt
  ]
  | inr e ↦
      rw (undouble-plain c (d ∷ rest) e)
        (Escapes-plain c (d ∷ rest) (undouble (d ∷ rest)) e (undouble-Escapes (d ∷ rest)))
]

literal-IsLine : (v : Chars) → Holds (λ _. IsLine v) (literal v)
unfolding literal
literal-IsLine v = elim (Bool-cases (any is_line_code v)) [ inl e ↦ rw e tt | inr e ↦ rw e ]

-- `volume_unescape` once its loop has ended.
volume_unescape-Escapes :
    (q : Chars) → Holds (λ v. (volume_escape v ≡ q) × IsLine v) (volume_unescape q)
unfolding volume_unescape
volume_unescape-Escapes q =
    Holds-bind (λ v. volume_escape v ≡ q) (λ v. (volume_escape v ≡ q) × IsLine v) (undouble q)
      (λ v. literal v >> ok v)
      (λ v e h.
        Holds-bind (λ _. IsLine v) (λ v. (volume_escape v ≡ q) × IsLine v) (literal v) (λ _. ok v)
          (λ _ _ l. (h, l)) (literal-IsLine v))
      (undouble-Escapes q)

-- A text is read as the path of a volume exactly when it is the escaped form of that path, and the
-- path is one line.
pub volume_unescape_iff :
    (q v : Chars) → (volume_unescape q ≡ ok v) ↔ ((volume_escape v ≡ q) × IsLine v)
volume_unescape_iff q v = (
  λ e. Holds-ok (λ v. (volume_escape v ≡ q) × IsLine v) (volume_unescape-Escapes q) e,
  λ h. rw (← h.0) (volume_unescape-volume_escape v h.1),
)

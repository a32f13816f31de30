-- ===== src/Lua/Depth/Balanced.antt =====
-- A script that passes the check of its depth has its brackets and blocks closed in order, and no
-- more than 64 of them open at once.
use dst_server.Base.{
  ℕ, suc, ◌+◌, ◌≡◌, refl, Bool, true, false, ◌&&◌, List, [], ◌∷◌, Option, none, some, Fallible,
  ensure, length, leb, if◌then◌else◌, Holds, Holds-then, Holds-bind, Bool-cases, ap, ◌∙◌, inl, inr,
  arith,
}
use dst_server.Lua.Depth.{
  Symbol, Lexed, identifier, number, string_literal, other_token, bad_token, symbol, ScriptScope,
  Scopes, Role, opens, closes, ends, counts, nothing, role, pairs, ends_before, ends_after,
  starts_statement, ends_expression, before_token, finish_expression, new_scope, nested_in,
  open_scope, close_in, act_on, check_tokens, check_script_depth, max_nesting, max_tokens,
}

-- What a symbol does to the open ones, where it may stand.
abbrev pub stack_after : Role → Symbol → List Symbol → Option (List Symbol)
stack_after opens sym stack = if leb (1 + length stack) 64 then some (sym ∷ stack) else none
stack_after closes sym [] = none
stack_after closes sym (o ∷ os) = if pairs (some o) sym then some os else none
stack_after ends sym stack = some stack
stack_after counts sym stack = some stack
stack_after nothing sym stack = some stack

-- The scopes are those of the open symbols, in one of the whole script.
IsStack : List Symbol → ScriptScope → List ScriptScope → Type 0
IsStack [] top [] = top.opening ≡ none
IsStack (o ∷ os) top (parent ∷ rest) = (top.opening ≡ some o) × IsStack os parent rest
IsStack [] top (parent ∷ rest) = ⊥
IsStack (o ∷ os) top [] = ⊥

IsStack-length :
    (stack : List Symbol) (top : ScriptScope) (rest : List ScriptScope)
    → IsStack stack top rest
    → length stack ≡ length rest
unfolding IsStack
IsStack-length [] top [] h = refl
IsStack-length (o ∷ os) top (p ∷ rest) (e, h) = ap (λ n. suc n) (IsStack-length os p rest h)
IsStack-length [] top (p ∷ rest) h = elim h [ ]
IsStack-length (o ∷ os) top [] h = elim h [ ]

-- A change of the innermost scope that keeps its opening.
IsStack-top :
    (stack : List Symbol) (top other : ScriptScope) (rest : List ScriptScope)
    → other.opening ≡ top.opening
    → IsStack stack top rest
    → IsStack stack other rest
unfolding IsStack
IsStack-top [] top other [] e h = e ∙ h
IsStack-top (o ∷ os) top other (p ∷ rest) e (f, h) = (e ∙ f, h)
IsStack-top [] top other (p ∷ rest) e h = elim h [ ]
IsStack-top (o ∷ os) top other [] e h = elim h [ ]

-- The scopes after a symbol are those of the symbols that are open then.
Follows : Option (List Symbol) → Scopes → Type 0
unfolding IsStack
Follows none s = ⊥
Follows (some stack) s = IsStack stack s.top s.rest

-- The scope that a symbol opens another one in.
abbrev outer_of : Scopes → Symbol → ScriptScope
outer_of s sym = if ends_before sym then finish_expression s.top else s.top

outer-opening : (s : Scopes) (sym : Symbol) → (outer_of s sym).opening ≡ s.top.opening
outer-opening s sym = elim (Bool-cases (ends_before sym)) [ inl e ↦ rw e | inr e ↦ rw e ]

open-Follows :
    (stack : List Symbol) (s : Scopes) (sym : Symbol) (can : Bool)
    → IsStack stack s.top s.rest
    → Holds (Follows (stack_after opens sym stack)) (open_scope s sym can)
unfolding Follows
open-Follows stack s sym can h =
    let same = IsStack-length stack s.top s.rest h in
    elim (Bool-cases (leb (1 + length stack) 64)) [
      | inl e ↦ rw e (
          Holds-then _
            (ensure (leb (1 + (1 + length s.rest)) (max_nesting + 1))
              "Lua nesting exceeds the limit")
            _
            (λ _ _.
              (refl, IsStack-top stack s.top (outer_of s sym) s.rest (outer-opening s sym) h)))
      | inr e ↦
          (let deep : leb (1 + (1 + length s.rest)) 65 ≡ false = ground (arith, same) in rw deep tt)
    ]

abbrev closed_of : ScriptScope → Symbol → ScriptScope
closed_of p sym = if ends_after sym then finish_expression p else p

closed-opening : (p : ScriptScope) (sym : Symbol) → (closed_of p sym).opening ≡ p.opening
closed-opening p sym = elim (Bool-cases (ends_after sym)) [ inl e ↦ rw e | inr e ↦ rw e ]

close-Follows :
    (stack : List Symbol) (top : ScriptScope) (rest : List ScriptScope) (sym : Symbol)
    → IsStack stack top rest
    → Holds (Follows (stack_after closes sym stack)) (close_in top rest sym)
unfolding Follows
close-Follows [] top [] sym h = tt
close-Follows (o ∷ os) top (p ∷ rest) sym (e, h) = elim (Bool-cases (pairs (some o) sym)) [
  | inl t ↦
      rw (e, t)
        (Holds-then _
          (ensure (leb ((nested_in top p).operators + (nested_in top p).nested_depth) max_nesting)
            "Lua expression exceeds the depth limit")
          _
          (λ _ _.
            IsStack-top os p (closed_of (nested_in top p) sym) rest
              (closed-opening (nested_in top p) sym) h))
  | inr t ↦ rw (e, t) tt
]
close-Follows [] top (p ∷ rest) sym h = elim h [ ]
close-Follows (o ∷ os) top [] sym h = elim h [ ]

act-Follows :
    (r : Role) (stack : List Symbol) (s : Scopes) (sym : Symbol) (can : Bool)
    → IsStack stack s.top s.rest
    → Holds (Follows (stack_after r sym stack)) (act_on r s sym can)
unfolding Follows
act-Follows opens stack s sym can h = open-Follows stack s sym can h
act-Follows closes stack s sym can h = close-Follows stack s.top s.rest sym h
act-Follows ends stack s sym can h = IsStack-top stack s.top (finish_expression s.top) s.rest refl h
act-Follows counts stack s sym can h =
    Holds-then _
      (ensure (leb (s.top.operators + 1 + s.top.nested_depth) max_nesting)
        "Lua expression exceeds the depth limit")
      _
      (λ _ _.
        IsStack-top stack s.top (record (s.top) { operators = s.top.operators + 1 }) s.rest refl h)
act-Follows nothing stack s sym can h = h

before-IsStack :
    (stack : List Symbol) (s : Scopes) (can : Bool) (t : Lexed)
    → IsStack stack s.top s.rest
    → IsStack stack ((before_token s can t).top) ((before_token s can t).rest)
before-IsStack stack s can t h = elim (Bool-cases (can && starts_statement t)) [
  | inl e ↦ rw e (IsStack-top stack s.top (finish_expression s.top) s.rest refl h)
  | inr e ↦ rw e h
]

module _ (has_precedence : Symbol → Bool) where
  -- Whether the rest of a script closes what is open, in order, with at most 64 open at once.
  abbrev pub opened_by : Lexed → List Symbol → Option (List Symbol)
  opened_by (symbol sym) stack = stack_after (role has_precedence sym) sym stack
  opened_by bad_token stack = none
  opened_by t stack = some stack

  -- The symbols that are open at the end of a script.
  unfoldable pub open_at_end : List Symbol → List Lexed → Option (List Symbol)
  open_at_end stack [] = some stack
  open_at_end stack (t ∷ ts) = elim (opened_by t stack) [
    | none ↦ none
    | some next ↦ open_at_end next ts
  ]

  abbrev counted : ℕ → Fallible (Unit {0})
  counted read = ensure (leb (read + 1) max_tokens) "Lua source exceeds the token limit"

  -- The rest of a script, from what is open after its first symbol.
  continue :
      (ts : List Lexed) (o : Option (List Symbol)) (next : Scopes) (can : Bool) (read : ℕ)
      → ((stack : List Symbol)
          → IsStack stack next.top next.rest
          → Holds (Follows (open_at_end stack ts)) (check_tokens has_precedence next can read ts))
      → Follows o next
      → Holds
          (Follows (elim o [ none ↦ none | some stack ↦ open_at_end stack ts ]))
          (check_tokens has_precedence next can read ts)
  unfolding Follows
  continue ts none next can read rec f = elim f [ ]
  continue ts (some stack) next can read rec f = rec stack f

  check-balanced :
      (stack : List Symbol) (ts : List Lexed) (s : Scopes) (can : Bool) (read : ℕ)
      → IsStack stack s.top s.rest
      → Holds (Follows (open_at_end stack ts)) (check_tokens has_precedence s can read ts)
  unfolding check_tokens open_at_end Follows
  check-balanced stack [] s can read h = h
  check-balanced stack (bad_token ∷ ts) s can read h = tt
  check-balanced stack (identifier ∷ ts) s can read h = Holds-then _ (counted read) _ (λ _ _.
      check-balanced stack ts (before_token s can identifier) true (read + 1)
        (before-IsStack stack s can identifier h))
  check-balanced stack (number ∷ ts) s can read h = Holds-then _ (counted read) _ (λ _ _.
      check-balanced stack ts (before_token s can number) true (read + 1)
        (before-IsStack stack s can number h))
  check-balanced stack (string_literal ∷ ts) s can read h = Holds-then _ (counted read) _ (λ _ _.
      check-balanced stack ts (before_token s can string_literal) true (read + 1)
        (before-IsStack stack s can string_literal h))
  check-balanced stack (other_token ∷ ts) s can read h = Holds-then _ (counted read) _ (λ _ _.
      check-balanced stack ts (before_token s can other_token) false (read + 1)
        (before-IsStack stack s can other_token h))
  check-balanced stack (symbol sym ∷ ts) s can read h = Holds-then _ (counted read) _ (λ _ _.
      Holds-bind _ _ (act_on (role has_precedence sym) (before_token s can (symbol sym)) sym can) _
        (λ next _ f.
          continue ts (stack_after (role has_precedence sym) sym stack) next
            (ends_expression (symbol sym)) (read + 1)
            (λ o g. check-balanced o ts next (ends_expression (symbol sym)) (read + 1) g) f)
        (act-Follows (role has_precedence sym) stack (before_token s can (symbol sym)) sym can
          (before-IsStack stack s can (symbol sym) h)))

  closed-Follows :
      (o : Option (List Symbol)) (top : ScriptScope) (rest : List ScriptScope)
      → Follows o (record { top = top; rest = rest })
      → leb (1 + length rest) 1 ≡ true
      → o ≡ some []
  unfolding Follows IsStack
  closed-Follows none top rest f e = elim f [ ]
  closed-Follows (some []) top rest f e = refl
  closed-Follows (some (o ∷ os)) top [] f e = elim f [ ]
  closed-Follows (some (o ∷ os)) top (p ∷ rest) f e = ground arith

  -- A script that passes the check closes everything that it opens, in order, and has at most 64
  -- brackets and blocks open at once.
  pub check_script_depth-balanced :
      (ts : List Lexed)
      → Holds (λ _. open_at_end [] ts ≡ some []) (check_script_depth has_precedence ts)
  unfolding check_script_depth IsStack
  check_script_depth-balanced ts =
      let start : Scopes = record { top = new_scope none false; rest = [] } in
      Holds-bind (Follows (open_at_end [] ts)) _ (check_tokens has_precedence start false 0 ts) _
        (λ f _ g. elim (Bool-cases (leb (1 + length f.rest) 1)) [
          | inl e ↦ rw e (closed-Follows (open_at_end [] ts) f.top f.rest g e)
          | inr e ↦ rw e tt
        ])
        (check-balanced [] ts start false 0 refl)

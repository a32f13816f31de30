-- ===== src/Files/Permissions/Users.antt =====
-- What an edit of a permission list does to its users.
use dst_server.Base.{
  ◌≡◌, refl, ap, inl, inr, Bool, true, false, not, ◌&&◌, ◌||◌, List, [], ◌∷◌, ◌++◌, some, Bytes,
  from_utf8, same_bytes, same_bytes_iff, is_empty, arith, Bool-cases, Option-cases, if◌then◌else◌,
  fun_ext,
}
use dst_server.Files.Permissions.{
  split, is_separator, split_inclusive, permission_userid, users_in, permission_users, is_of,
  edit_records, ends_line, edit_permission, first_part,
}
use dst_server.Files.Permissions.Lines.{
  flatten, Ended, Lines, split_inclusive-flatten, flatten-split_inclusive, split_inclusive-Lines,
  permission_users-split_inclusive, permission_users-join,
}

abbrev pub mem : Bytes → List Bytes → Bool
mem v [] = false
mem v (u ∷ us) = same_bytes u v || mem v us

-- A permission list as the set of its users.
abbrev pub Users : Type 0
Users = Bytes → Bool

abbrev pub users_of : Bytes → Users
users_of source = λ v. mem v (permission_users source)

abbrev pub with_user : Bytes → Users → Users
with_user u users = λ v. users v || same_bytes u v

abbrev pub without_user : Bytes → Users → Users
without_user u users = λ v. users v && not (same_bytes u v)

-- An identity: a record that begins with it is of that user.
abbrev pub IsUser : Bytes → Type 0
IsUser u = permission_userid u ≡ some u

abbrev others : Bytes → List Bytes → List Bytes
others u [] = []
others u (r ∷ rs) = if is_of u r then others u rs else r ∷ others u rs

removed-flatten : (rs : List Bytes) (u : Bytes) → (edit_records rs u true).0 ≡ flatten (others u rs)
unfolding edit_records flatten
removed-flatten [] u = refl
removed-flatten (r ∷ rs) u = ground (arith, removed-flatten rs u)

kept-flatten : (rs : List Bytes) (u : Bytes) → (edit_records rs u false).0 ≡ flatten rs
unfolding edit_records flatten
kept-flatten [] u = refl
kept-flatten (r ∷ rs) u = ground (arith, kept-flatten rs u)

Lines-tail : (l : Bytes) (ls : List Bytes) → Lines (l ∷ ls) → Lines ls
Lines-tail l [] h = tt
Lines-tail l (k ∷ ls) h = h.1

Lines-cons : (l : Bytes) (ls : List Bytes) → Ended l → Lines ls → Lines (l ∷ ls)
Lines-cons l [] e h = inl e
Lines-cons l (k ∷ ls) e h = (e, h)

others-Lines : (u : Bytes) (ls : List Bytes) → Lines ls → Lines (others u ls)
others-Lines u [] h = tt
others-Lines u (l ∷ ls) h = elim (Bool-cases (is_of u l)) [
  | inl e ↦ rw e (others-Lines u ls (Lines-tail l ls h))
  | inr e ↦ rw e (kept-Lines l ls (others-Lines u ls (Lines-tail l ls h)) h)
]
  where
    kept-Lines :
        (l : Bytes) (ls : List Bytes)
        → Lines (others u ls)
        → Lines (l ∷ ls)
        → Lines (l ∷ others u ls)
    kept-Lines l [] i h = h
    kept-Lines l (k ∷ ks) i h = Lines-cons l (others u (k ∷ ks)) h.0 i

others-mem :
    (u v : Bytes) (ls : List Bytes)
    → mem v (users_in (others u ls)) ≡ (mem v (users_in ls) && not (same_bytes u v))
unfolding users_in
others-mem u v [] = refl
others-mem u v (l ∷ ls) = elim (Option-cases (permission_userid l)) [
  | inl e ↦ ground (arith, e, others-mem u v ls)
  | inr (w, e) ↦ elim (Bool-cases (same_bytes w u)) [
    | inl f ↦
        let g : w ≡ u = (same_bytes_iff w u).0 f in
        ground (arith, e, f, ap (λ x. same_bytes x v) g, others-mem u v ls)
    | inr f ↦ elim (Bool-cases (same_bytes u v)) [
      | inl g ↦
          let k : u ≡ v = (same_bytes_iff u v).0 g in
          ground (arith, e, f, g, ap (same_bytes w) k, others-mem u v ls)
      | inr g ↦ ground (arith, e, f, g, others-mem u v ls)
    ]
  ]
]

found-mem :
    (u : Bytes) (rs : List Bytes) → (edit_records rs u false).1 ≡ true → mem u (users_in rs) ≡ true
unfolding edit_records users_in
found-mem u [] h = ground arith
found-mem u (r ∷ rs) h = elim (Option-cases (permission_userid r)) [
  | inl e ↦ ground (arith, e, h, found-mem u rs)
  | inr (w, e) ↦ ground (arith, e, h, found-mem u rs)
]

mem-append : (v : Bytes) (us ws : List Bytes) → mem v (us ++ ws) ≡ (mem v us || mem v ws)
mem-append v [] ws = refl
mem-append v (u ∷ us) ws = ground (arith, mem-append v us ws)

-- Removing a user removes it from the set of users, and no other.
pub edit_permission-removes :
    (source u : Bytes) → users_of (edit_permission source u true) ≡ without_user u (users_of source)
unfolding edit_permission
edit_permission-removes source u = fun_ext λ v.
    let rs = split_inclusive source in
    rw
      (
        removed-flatten rs u,
        permission_users-split_inclusive (flatten (others u rs)),
        split_inclusive-flatten (others u rs) (others-Lines u rs (split_inclusive-Lines source)),
        permission_users-split_inclusive source,
      )
      (others-mem u v rs)

-- A text that ends a line is one without that end, and the end.
last_line : (s : Bytes) → ends_line s ≡ true → (t : Bytes) × (s ≡ t ++ (10 ∷ []))
last_line [] h = ground arith
last_line (b ∷ []) h = ([], ground (arith, h))
last_line (b ∷ c ∷ bs) h = let (t, e) = last_line (c ∷ bs) h in (b ∷ t, ap (λ x. b ∷ x) e)

append_assoc : (a b c : Bytes) → (a ++ b) ++ c ≡ a ++ (b ++ c)
append_assoc [] b c = refl
append_assoc (x ∷ a) b c = ap (λ y. x ∷ y) (append_assoc a b c)

userid-part : (l : Bytes) {u : Bytes} → permission_userid l ≡ some u → first_part l ≡ u
unfolding permission_userid
userid-part l h = ground (arith, h)

split-part : (u : Bytes) → first_part u ≡ u → split u ≡ u ∷ []
unfolding first_part split
split-part [] h = refl
split-part (b ∷ bs) h = elim (Bool-cases (is_separator b)) [
  | inl e ↦ ground (arith, e, h)
  | inr e ↦ ground (arith, e, h, split-part bs)
]

users-single : (u : Bytes) → IsUser u → permission_users u ≡ u ∷ []
unfolding permission_users users_in
users-single u i = rw (split-part u (userid-part u i), i) refl

users-nil : permission_users [] ≡ []
unfolding permission_users users_in split permission_userid first_part from_utf8
users-nil = refl

users-line : (u : Bytes) → IsUser u → permission_users (u ++ (10 ∷ [])) ≡ u ∷ []
users-line u i = rw (permission_users-join u [], users-single u i, users-nil) refl

-- A line more after a text that ends a line, and after one that does not.
ended-mem :
    (t u v : Bytes)
    → IsUser u
    → mem v (permission_users ((t ++ (10 ∷ [])) ++ (u ++ (10 ∷ []))))
      ≡ (mem v (permission_users t) || same_bytes u v)
ended-mem t u v i =
    rw
      (
        append_assoc t (10 ∷ []) (u ++ (10 ∷ [])),
        permission_users-join t (u ++ (10 ∷ [])),
        users-line u i,
        mem-append v (permission_users t) (u ∷ []),
      )
      (ground arith)

line-mem :
    (s t u v : Bytes)
    → s ≡ t ++ (10 ∷ [])
    → IsUser u
    → mem v (permission_users (s ++ (u ++ (10 ∷ []))))
      ≡ (mem v (permission_users s) || same_bytes u v)
line-mem s t u v f i =
    let same : mem v (permission_users (t ++ (10 ∷ []))) ≡ mem v (permission_users t) =
      rw (permission_users-join t [], users-nil, mem-append v (permission_users t) [])
        (ground arith) in
    rw (f, same) (ended-mem t u v i)

added-mem :
    (s u v : Bytes)
    → IsUser u
    → mem v (
        permission_users (
          (if not (is_empty s) && not (ends_line s) then s ++ (10 ∷ []) else s)
          ++ (u ++ (10 ∷ []))))
      ≡ (mem v (permission_users s) || same_bytes u v)
added-mem [] u v i = rw (users-line u i, users-nil) (ground arith)
added-mem (b ∷ bs) u v i = elim (Bool-cases (ends_line (b ∷ bs))) [
  | inr e ↦ rw e (ended-mem (b ∷ bs) u v i)
  | inl e ↦ let (t, f) = last_line (b ∷ bs) e in rw e (line-mem (b ∷ bs) t u v f i)
]

-- Adding a user adds it to the set of users, and nothing else.
pub edit_permission-adds :
    (source u : Bytes)
    → IsUser u
    → users_of (edit_permission source u false) ≡ with_user u (users_of source)
unfolding edit_permission
edit_permission-adds source u i = fun_ext λ v.
    let rs = split_inclusive source in
    elim (Bool-cases ((edit_records rs u false).1)) [
      | inr e ↦ rw (kept-flatten rs u, flatten-split_inclusive source, e) (added-mem source u v i)
      | inl e ↦
          let has : mem u (permission_users source) ≡ true =
            rw (permission_users-split_inclusive source) (found-mem u rs e) in
          rw (kept-flatten rs u, flatten-split_inclusive source, e) (already source u v has)
    ]
  where
    already :
        (s u v : Bytes)
        → mem u (permission_users s) ≡ true
        → mem v (permission_users s) ≡ (mem v (permission_users s) || same_bytes u v)
    already s u v h = elim (Bool-cases (same_bytes u v)) [
      | inl e ↦ let k : u ≡ v = (same_bytes_iff u v).0 e in ground (arith, e, rw k at h)
      | inr e ↦ ground (arith, e)
    ]

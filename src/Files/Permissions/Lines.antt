-- ===== src/Files/Permissions/Lines.antt =====
-- The lines of a permission list: they make up the text, and it is cut into them again.
use dst_server.Base.{
  ℕ, ◌≡◌, ◌≢◌, refl, false, List, [], ◌∷◌, ◌++◌, Bytes, ◌⊎◌, inl, inr, sym, none, from_utf8,
  Bool-cases, arith, ◌==◌,
}
use dst_server.Files.Permissions.{
  split, split_inclusive, push_head, first_part, permission_userid, users_in, permission_users,
}

unfoldable pub flatten : List Bytes → Bytes
flatten [] = []
flatten (l ∷ ls) = l ++ flatten ls

-- A line that ends with a line feed, and has no other.
abbrev pub Ended : Bytes → Type 0
Ended [] = ⊥
Ended (b ∷ []) = b ≡ 10
Ended (b ∷ c ∷ bs) = ((b == 10) ≡ false) × Ended (c ∷ bs)

-- A line that has none.
abbrev pub Open : Bytes → Type 0
Open [] = Unit
Open (b ∷ bs) = ((b == 10) ≡ false) × Open bs

-- Lines of which only the last may be without its end.
abbrev pub Lines : List Bytes → Type 0
Lines [] = Unit
Lines (l ∷ []) = Ended l ⊎ (Open l × (l ≢ []))
Lines (l ∷ k ∷ ls) = Ended l × Lines (k ∷ ls)

split_inclusive-Ended :
    (l ys : Bytes) → Ended l → split_inclusive (l ++ ys) ≡ l ∷ split_inclusive ys
unfolding split_inclusive
split_inclusive-Ended [] ys h = absurd h
split_inclusive-Ended (b ∷ []) ys h = ground (arith, h)
split_inclusive-Ended (b ∷ c ∷ bs) ys h = ground (arith, h, split_inclusive-Ended (c ∷ bs) ys h.1)

split_inclusive-Open : (b : ℕ) (l : Bytes) → Open (b ∷ l) → split_inclusive (b ∷ l) ≡ (b ∷ l) ∷ []
unfolding split_inclusive
split_inclusive-Open b [] h = ground (arith, h)
split_inclusive-Open b (c ∷ l) h = ground (arith, h, split_inclusive-Open c l h.1)

append-nil : (l : Bytes) → l ++ [] ≡ l
append-nil [] = refl
append-nil (b ∷ l) = ground (arith, append-nil l)

split_inclusive-nil : split_inclusive [] ≡ []
unfolding split_inclusive
split_inclusive-nil = refl

pub split_inclusive-flatten : (ls : List Bytes) → Lines ls → split_inclusive (flatten ls) ≡ ls
unfolding flatten
split_inclusive-flatten [] h = split_inclusive-nil
split_inclusive-flatten (l ∷ []) (inl e) =
    rw (split_inclusive-Ended l [] e, split_inclusive-nil) refl
split_inclusive-flatten ([] ∷ []) (inr (o, n)) = absurd (n refl)
split_inclusive-flatten ((b ∷ l) ∷ []) (inr (o, n)) =
    rw (append-nil (b ∷ l)) (split_inclusive-Open b l o)
split_inclusive-flatten (l ∷ k ∷ ls) h =
    rw (split_inclusive-Ended l (flatten (k ∷ ls)) h.0, split_inclusive-flatten (k ∷ ls) h.1) refl

flatten-push_head : (b : ℕ) (ls : List Bytes) → flatten (push_head b ls) ≡ b ∷ flatten ls
unfolding flatten
flatten-push_head b [] = refl
flatten-push_head b (l ∷ ls) = refl

pub flatten-split_inclusive : (s : Bytes) → flatten (split_inclusive s) ≡ s
unfolding flatten split_inclusive
flatten-split_inclusive [] = refl
flatten-split_inclusive (b ∷ bs) =
    ground (arith, flatten-push_head b (split_inclusive bs), flatten-split_inclusive bs)

cons-Lines : (b : ℕ) (ls : List Bytes) → b ≡ 10 → Lines ls → Lines ((b ∷ []) ∷ ls)
cons-Lines b [] e h = inl e
cons-Lines b (l ∷ ls) e h = (e, h)

push_head-Lines : (b : ℕ) (ls : List Bytes) → (b == 10) ≡ false → Lines ls → Lines (push_head b ls)
push_head-Lines b [] e h = inr ((e, tt), cc)
push_head-Lines b ([] ∷ []) e (inl h) = absurd h
push_head-Lines b ([] ∷ []) e (inr h) = absurd (h.1 refl)
push_head-Lines b ((c ∷ l) ∷ []) e (inl h) = inl (e, h)
push_head-Lines b ((c ∷ l) ∷ []) e (inr h) = inr ((e, h.0), cc)
push_head-Lines b ([] ∷ k ∷ ls) e h = absurd h.0
push_head-Lines b ((c ∷ l) ∷ k ∷ ls) e h = ((e, h.0), h.1)

pub split_inclusive-Lines : (s : Bytes) → Lines (split_inclusive s)
unfolding split_inclusive
split_inclusive-Lines [] = tt
split_inclusive-Lines (b ∷ bs) = elim (Bool-cases (b == 10)) [
  | inl e ↦ rw e (cons-Lines b (split_inclusive bs) (ground arith) (split_inclusive-Lines bs))
  | inr e ↦ rw e (push_head-Lines b (split_inclusive bs) e (split_inclusive-Lines bs))
]

-- The records of the two ways to cut a text: the same up to the first separator, and an empty
-- record at the end.
abbrev Match : List Bytes → List Bytes → Type 0
Match [] [] = Unit
Match [] (k ∷ ks) = (k ≡ []) × (ks ≡ [])
Match (l ∷ ls) [] = ⊥
Match (l ∷ ls) (k ∷ ks) = (first_part l ≡ first_part k) × Match ls ks

push_head-Match :
    (b : ℕ) (ls ks : List Bytes) → Match ls ks → Match (push_head b ls) (push_head b ks)
unfolding first_part
push_head-Match b [] [] h = (refl, tt)
push_head-Match b [] (k ∷ ks) h = (rw h.0 refl, rw h.1 tt)
push_head-Match b (l ∷ ls) [] h = absurd h
push_head-Match b (l ∷ ls) (k ∷ ks) h = (rw h.0 refl, h.1)

split-Match : (s : Bytes) → Match (split_inclusive s) (split s)
unfolding split_inclusive split
split-Match [] = (refl, refl)
split-Match (b ∷ bs) = elim (Bool-cases (b == 10)) [
  | inl e ↦ rw e (unfold first_part in ground (arith, e), split-Match bs)
  | inr e ↦ rw e (push_head-Match b (split_inclusive bs) (split bs) (split-Match bs))
]

userid-first_part :
    (l k : Bytes) → first_part l ≡ first_part k → permission_userid l ≡ permission_userid k
unfolding permission_userid
userid-first_part l k h = rw h refl

userid-nil : permission_userid [] ≡ none
unfolding permission_userid first_part from_utf8
userid-nil = refl

Match-users : (ls ks : List Bytes) → Match ls ks → users_in ls ≡ users_in ks
unfolding users_in
Match-users [] [] h = refl
Match-users [] (k ∷ ks) h = rw (h.0, h.1, userid-nil) refl
Match-users (l ∷ ls) [] h = absurd h
Match-users (l ∷ ls) (k ∷ ks) h = rw (userid-first_part l k h.0, Match-users ls ks h.1) refl

-- The users of a text are those of its lines.
pub permission_users-split_inclusive :
    (s : Bytes) → permission_users s ≡ users_in (split_inclusive s)
unfolding permission_users
permission_users-split_inclusive s = sym (Match-users (split_inclusive s) (split s) (split-Match s))

users_in-append : (ls ks : List Bytes) → users_in (ls ++ ks) ≡ users_in ls ++ users_in ks
unfolding users_in
users_in-append [] ks = refl
users_in-append (l ∷ ls) ks = ground (arith, users_in-append ls ks)

split-push_head :
    (b : ℕ) (ls ks : List Bytes) → ls ≢ [] → push_head b (ls ++ ks) ≡ push_head b ls ++ ks
split-push_head b [] ks h = absurd (h refl)
split-push_head b (l ∷ ls) ks h = refl

push_head-some : (b : ℕ) (ls : List Bytes) → push_head b ls ≢ []
push_head-some b [] = λ h. cc
push_head-some b (l ∷ ls) = λ h. cc

split-some : (s : Bytes) → split s ≢ []
unfolding split
split-some [] = λ h. cc
split-some (c ∷ cs) = elim (Bool-cases (c == 10)) [
  | inl e ↦ λ h. let k : ([] ∷ split cs) ≡ [] = rw e at h in cc
  | inr e ↦ λ h. push_head-some c (split cs) (rw e at h)
]

split-join : (s t : Bytes) → split (s ++ (10 ∷ t)) ≡ split s ++ split t
unfolding split
split-join [] t = refl
split-join (b ∷ bs) t =
    let p = split-push_head b (split bs) (split t) (split-some bs) in
    ground (arith, split-join bs t, p)

pub permission_users-join :
    (s t : Bytes) → permission_users (s ++ (10 ∷ t)) ≡ permission_users s ++ permission_users t
unfolding permission_users
permission_users-join s t = rw (split-join s t) (users_in-append (split s) (split t))

-- ===== src/Ranges/Merge.antt =====
-- What the merging loop of crates/dst-server/src/policy.rs keeps: the numbers covered, and the
-- order and the gaps of its result.
use mathlib.Core.List.{append-nil, reverse, reverse-cons, append_assoc}
use dst_server.Base.{ℕ, ◌+◌, ◌≤◌, ◌<◌, ◌≡◌, refl, ◌∙◌, ap, ◌||◌, List, [], ◌∷◌, ◌++◌, arith, All}
use dst_server.Ranges.{Range, insert, sort, push, push_all, merge, holds, covered, Separate}

covered-insert :
    (n : ℕ) (r : Range) (rs : List Range) → covered n (insert r rs) ≡ covered n (r ∷ rs)
unfolding insert
covered-insert n r [] = refl
covered-insert n r (q ∷ qs) = ground (arith, covered-insert n r qs)

pub covered-sort : (n : ℕ) (rs : List Range) → covered n (sort rs) ≡ covered n rs
unfolding sort
covered-sort n [] = refl
covered-sort n (r ∷ rs) = ground (arith, covered-insert n r (sort rs), covered-sort n rs)

pub covered-append :
    (n : ℕ) (rs qs : List Range) → covered n (rs ++ qs) ≡ (covered n rs || covered n qs)
covered-append n [] qs = refl
covered-append n (r ∷ rs) qs = ground (arith, covered-append n rs qs)

pub covered-reverse : (n : ℕ) (rs : List Range) → covered n (reverse rs) ≡ covered n rs
covered-reverse n [] = refl
covered-reverse n (r ∷ rs) = ground (
  arith,
  ap (covered n) (reverse-cons r rs),
  covered-append n (reverse rs) (r ∷ []),
  covered-reverse n rs,
)

-- The starts rise.
abbrev pub Rising : ℕ → List Range → Type 0
Rising from [] = Unit
Rising from ((s, e) ∷ rs) = (from ≤ s) × Rising s rs

pub Rising-weaken : (a b : ℕ) (rs : List Range) → a ≤ b → Rising b rs → Rising a rs
Rising-weaken a b [] h r = tt
Rising-weaken a b (q ∷ qs) h r = (omega arith, r.1)

Rising-insert :
    (from : ℕ) (r : Range) (rs : List Range)
    → from ≤ r.0
    → Rising from rs
    → Rising from (insert r rs)
unfolding insert
Rising-insert from r [] h a = (h, tt)
Rising-insert from r (q ∷ qs) h a = ground (arith, Rising-insert q.0 r qs)

pub sort-Rising : (rs : List Range) → Rising 0 (sort rs)
unfolding sort
sort-Rising [] = tt
sort-Rising (r ∷ rs) = Rising-insert 0 r (sort rs) (omega arith) (sort-Rising rs)

abbrev lead : List Range → ℕ
lead [] = 0
lead ((s, e) ∷ rs) = s

-- The merged ranges, the last one first: nonempty, and each behind the end of the next.
abbrev Stacked : List Range → Type 0
Stacked [] = Unit
Stacked ((s, e) ∷ []) = s < e
Stacked ((s, e) ∷ (s', e') ∷ rs) = (s < e) × (e' < s) × Stacked ((s', e') ∷ rs)

push-lead : (merged : List Range) (s e : ℕ) → lead merged ≤ s → lead (push merged (s, e)) ≤ s
unfolding push
push-lead [] s e h = omega arith
push-lead ((a, b) ∷ rs) s e h = ground arith

covered-push :
    (n : ℕ) (merged : List Range) (s e : ℕ)
    → lead merged ≤ s
    → covered n (push merged (s, e)) ≡ (holds n (s, e) || covered n merged)
unfolding push
covered-push n [] s e h = refl
covered-push n ((a, b) ∷ rs) s e h = ground arith

push-Stacked :
    (merged : List Range) (s e : ℕ)
    → lead merged ≤ s
    → s < e
    → Stacked merged
    → Stacked (push merged (s, e))
unfolding push
push-Stacked [] s e h l t = l
push-Stacked ((a, b) ∷ []) s e h l t = ground arith
push-Stacked ((a, b) ∷ (c, d) ∷ rs) s e h l t = ground arith

abbrev pub Nonempty : Range → Type 0
Nonempty r = r.0 < r.1

covered-push_all :
    (n : ℕ) (merged rs : List Range)
    → Rising (lead merged) rs
    → covered n (push_all merged rs) ≡ (covered n merged || covered n rs)
unfolding push_all
covered-push_all n merged [] h = ground arith
covered-push_all n merged ((s, e) ∷ rs) h = ground (
  arith,
  covered-push n merged s e h.0,
  covered-push_all n (push merged (s, e)) rs (Rising-weaken _ _ rs (push-lead merged s e h.0) h.1),
)

push_all-Stacked :
    (merged rs : List Range)
    → Rising (lead merged) rs
    → All Nonempty rs
    → Stacked merged
    → Stacked (push_all merged rs)
unfolding push_all
push_all-Stacked merged [] h l t = t
push_all-Stacked merged ((s, e) ∷ rs) h l t =
    push_all-Stacked (push merged (s, e)) rs (Rising-weaken _ _ rs (push-lead merged s e h.0) h.1)
      l.1 (push-Stacked merged s e h.0 l.0 t)

-- Where the next range may start.
abbrev above : List Range → ℕ
above [] = 0
above ((s, e) ∷ rs) = e + 1

Stacked-Separate :
    (merged rest : List Range)
    → Stacked merged
    → Separate (above merged) rest
    → Separate 0 (reverse merged ++ rest)
Stacked-Separate [] rest t h = h
Stacked-Separate ((s, e) ∷ []) rest t h = (omega arith, t, h)
Stacked-Separate ((s, e) ∷ (c, d) ∷ rs) rest t h =
    rw (reverse-cons (s, e) ((c, d) ∷ rs), append_assoc)
      (Stacked-Separate ((c, d) ∷ rs) ((s, e) ∷ rest) t.2 (omega arith, t.0, h))

-- On sorted nonempty ranges the loop covers the same numbers.
pub covered-merge : (n : ℕ) (rs : List Range) → Rising 0 rs → covered n (merge rs) ≡ covered n rs
unfolding merge
covered-merge n rs h = covered-reverse n (push_all [] rs) ∙ covered-push_all n [] rs h

pub merge-Separate : (rs : List Range) → Rising 0 rs → All Nonempty rs → Separate 0 (merge rs)
unfolding merge
merge-Separate rs h l =
    rw append-nil at (Stacked-Separate (push_all [] rs) [] (push_all-Stacked [] rs h l tt) tt)

module _ (P : Range → Type 0) where
  All-insert : (r : Range) (rs : List Range) → P r → All P rs → All P (insert r rs)
  unfolding insert
  All-insert r [] p a = (p, tt)
  All-insert r (q ∷ qs) p a = ground (arith, p, a.0, a.1, All-insert r qs p a.1)

  pub sort-All : (rs : List Range) → All P rs → All P (sort rs)
  unfolding sort
  sort-All [] a = tt
  sort-All (r ∷ rs) a = All-insert r (sort rs) a.0 (sort-All rs a.1)

-- No merged range ends behind the last of the ends.
abbrev pub Within : ℕ → List Range → Type 0
Within b = All (λ (r : Range). r.1 ≤ b)

push-Within :
    (b : ℕ) (merged : List Range) (s e : ℕ)
    → e ≤ b
    → Within b merged
    → Within b (push merged (s, e))
unfolding push
push-Within b [] s e h w = (h, tt)
push-Within b ((c, d) ∷ rs) s e h w = ground arith

push_all-Within :
    (b : ℕ) (merged rs : List Range) → Within b rs → Within b merged → Within b (push_all merged rs)
unfolding push_all
push_all-Within b merged [] h w = w
push_all-Within b merged ((s, e) ∷ rs) h w =
    push_all-Within b (push merged (s, e)) rs h.1 (push-Within b merged s e h.0 w)

Within-append : (b : ℕ) (rs qs : List Range) → Within b rs → Within b qs → Within b (rs ++ qs)
Within-append b [] qs h w = w
Within-append b (r ∷ rs) qs h w = (h.0, Within-append b rs qs h.1 w)

Within-reverse : (b : ℕ) (rs : List Range) → Within b rs → Within b (reverse rs)
Within-reverse b [] h = tt
Within-reverse b (r ∷ rs) h =
    rw (reverse-cons r rs)
      (Within-append b (reverse rs) (r ∷ []) (Within-reverse b rs h.1) (h.0, tt))

pub merge-Within : (b : ℕ) (rs : List Range) → Within b rs → Within b (merge rs)
unfolding merge
merge-Within b rs h = Within-reverse b (push_all [] rs) (push_all-Within b [] rs h tt)

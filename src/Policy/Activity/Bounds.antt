-- ===== src/Policy/Activity/Bounds.antt =====
-- The time of the last activity that crates/dst-server/src/policy.rs records for a room.
use dst_server.Base.{
  ℕ, ◌≤◌, ◌≡◌, refl, ◌∙◌, Bool, true, false, not, ◌&&◌, ◌||◌, List, [], ◌∷◌, Option, none, some, ok,
  err, Fallible, Map, values, any, all, Holds, Holds-ok, Holds-map, ◌>>=◌, arith, Bool-cases, inl,
  inr, ◌⊎◌,
}
use dst_server.Base.Float.{lt_f64}
use dst_server.Policy.Time.{Chrono}
use dst_server.Policy.Inputs.{Presence, Inputs, reliable}
use dst_server.Policy.State.{Activity}
use dst_server.Policy.Activity.{is_occupied, last_active_by, last_active, active_since, observed}

-- A shard that reports no one, and no activity within the time that it was observed.
abbrev pub is_quiet : Presence → Bool
is_quiet p = not (is_occupied p) && not (lt_f64 p.idle_seconds p.observed_seconds)

abbrev Moves : ℕ → ℕ → Bool → Bool → ℕ → Type 0
Moves now last occupied quiet t =
    (last ≤ t) × (t ≤ now) × (occupied ≡ true → t ≡ now) × (quiet ≡ true → t ≡ last)

last_active_by-Moves :
    (c : Chrono) (now last : ℕ) (p : Presence)
    → last ≤ now
    → Holds (Moves now last (is_occupied p) (is_quiet p)) (last_active_by c now last p)
unfolding last_active_by
last_active_by-Moves c now last p h = ground arith

Moves-seq :
    (now last n t : ℕ) (o o' q q' : Bool)
    → Moves now last o q n
    → Moves now n o' q' t
    → Moves now last (o || o') (q && q') t
Moves-seq now last n t o o' q q' a b = (
  omega (arith, a.0, b.0),
  b.1,
  λ e. elim (Bool-cases o) [
    | inl x ↦ omega (arith, a.2 x, b.0, b.1)
    | inr x ↦ b.2 (ground (arith, x, e))
  ],
  λ e. b.3 (ground (arith, e)) ∙ a.3 (ground (arith, e)),
)

last_active-Moves :
    (c : Chrono) (now last : ℕ) (ps : List Presence)
    → last ≤ now
    → Holds (Moves now last (any is_occupied ps) (all is_quiet ps)) (last_active c now last ps)
unfolding last_active
last_active-Moves c now last [] h = ground arith
last_active-Moves c now last (p ∷ ps) h =
    go (last_active_by c now last p) (last_active_by-Moves c now last p h)
      (λ n l. last_active-Moves c now n ps l)
  where
    go :
        (m : Fallible ℕ)
        → Holds (Moves now last (is_occupied p) (is_quiet p)) m
        → ((n : ℕ)
            → n ≤ now
            → Holds (Moves now n (any is_occupied ps) (all is_quiet ps)) (last_active c now n ps))
        → Holds
            (Moves now last (any is_occupied (p ∷ ps)) (all is_quiet (p ∷ ps)))
            (m >>= λ n. last_active c now n ps)
    go (err e) a next = tt
    go (ok n) a next =
        Holds-map _ _ (last_active c now n ps) (λ t _. Moves-seq now last n t _ _ _ _ a)
          (next n a.1)

active_since-le : (a : Option Activity) (m : Map Presence) (now : ℕ) → active_since a m now ≤ now
unfolding active_since
active_since-le none m now = omega arith
active_since-le (some a) m now = ground arith

unless_true : {P : Type 0} (b : Bool) → (b ≡ true → P) → (b ≡ false) ⊎ P
unless_true true f = inr (f refl)
unless_true false f = inl refl

-- What a reliable observation records as the last activity: it is not in the future; it is now if
-- a shard has clients or players; it is kept, from the record if that goes on without a break and
-- from now otherwise, if every shard has been quiet; and it never goes back behind that time.
pub observed-last :
    (c : Chrono) (a : Option Activity) (now : ℕ) (i : Inputs) {b : Activity}
    → reliable i ≡ true
    → observed c a now i ≡ ok (some b)
    → (active_since a i.presence now ≤ b.last_active_at)
      × (b.last_active_at ≤ now)
      × ((any is_occupied (values i.presence) ≡ false) ⊎ (b.last_active_at ≡ now))
      × ((all is_quiet (values i.presence) ≡ false)
          ⊎ (b.last_active_at ≡ active_since a i.presence now))
unfolding observed
observed-last c a now i {b} r h =
    let counted : last_active c now (active_since a i.presence now) (values i.presence)
        ≡ ok b.last_active_at =
      ground (arith, r, h) in
    let m =
      Holds-ok
        (Moves now (active_since a i.presence now) (any is_occupied (values i.presence))
          (all is_quiet (values i.presence)))
        (last_active-Moves c now _ (values i.presence) (active_since-le a i.presence now))
        counted in
    (m.0, m.1, unless_true _ m.2, unless_true _ m.3)

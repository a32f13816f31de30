-- ===== src/Recovery/Extremes.antt =====
-- The least and the greatest number of a list.
use dst_server.Base.{ℕ, ◌≤◌, ◌≡◌, refl, List, [], ◌∷◌, Option, none, some, arith, All, max, min}
use dst_server.Recovery.Snapshots.{maximum, minimum}

pub All-le_mono : {k m : ℕ} (ns : List ℕ) → k ≤ m → All (λ n. m ≤ n) ns → All (λ n. k ≤ n) ns
All-le_mono [] h a = tt
All-le_mono (n ∷ ns) h a = (omega arith, All-le_mono ns h a.1)

pub All-ge_mono : {k m : ℕ} (ns : List ℕ) → m ≤ k → All (λ n. n ≤ m) ns → All (λ n. n ≤ k) ns
All-ge_mono [] h a = tt
All-ge_mono (n ∷ ns) h a = (omega arith, All-ge_mono ns h a.1)

abbrev pub Lower : Option ℕ → List ℕ → Type 0
Lower none ns = Unit
Lower (some m) ns = All (λ n. m ≤ n) ns

abbrev pub Upper : Option ℕ → List ℕ → Type 0
Upper none ns = Unit
Upper (some m) ns = All (λ n. n ≤ m) ns

pub minimum-none : (ns : List ℕ) → minimum ns ≡ none → ns ≡ []
minimum-none [] h = refl
minimum-none (n ∷ ns) h = ground arith

pub maximum-none : (ns : List ℕ) → maximum ns ≡ none → ns ≡ []
maximum-none [] h = refl
maximum-none (n ∷ ns) h = ground arith

pub Lower-cons :
    (n : ℕ) (ns : List ℕ) (o : Option ℕ)
    → Lower o ns
    → (o ≡ none → ns ≡ [])
    → Lower (some (elim o [ none ↦ n | some m ↦ min n m ])) (n ∷ ns)
Lower-cons n ns none b e = rw (e refl) (omega arith, tt)
Lower-cons n ns (some m) b e = (omega arith, All-le_mono ns (omega arith) b)

pub Upper-cons :
    (n : ℕ) (ns : List ℕ) (o : Option ℕ)
    → Upper o ns
    → (o ≡ none → ns ≡ [])
    → Upper (some (elim o [ none ↦ n | some m ↦ max n m ])) (n ∷ ns)
Upper-cons n ns none b e = rw (e refl) (omega arith, tt)
Upper-cons n ns (some m) b e = (omega arith, All-ge_mono ns (omega arith) b)

pub minimum-Lower : (ns : List ℕ) → Lower (minimum ns) ns
minimum-Lower [] = tt
minimum-Lower (n ∷ ns) = Lower-cons n ns (minimum ns) (minimum-Lower ns) (minimum-none ns)

pub maximum-Upper : (ns : List ℕ) → Upper (maximum ns) ns
maximum-Upper [] = tt
maximum-Upper (n ∷ ns) = Upper-cons n ns (maximum ns) (maximum-Upper ns) (maximum-none ns)

-- The minimum is itself in the list, so what is below every item is below it.
abbrev pub Below : ℕ → Option ℕ → Type 0
Below n none = Unit
Below n (some m) = n ≤ m

pub minimum-Below : (n : ℕ) (ns : List ℕ) → All (λ k. n ≤ k) ns → Below n (minimum ns)
minimum-Below n [] a = tt
minimum-Below n (k ∷ ns) a = ground (arith, minimum-Below n ns a.1)

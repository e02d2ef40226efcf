-- ===== src/Prelude/Lists.antt =====
-- Lists measured by native numbers, Boolean quantifiers, and predicates by recursion.
use Prim.Native.Nat.{ℕ, suc, ◌+◌}
use mathlib.Core.Path.{◌≡◌, refl, ap, subst}
use mathlib.Core.Bool.{Bool, true, false, ◌&&◌, ◌||◌}
use mathlib.Core.List.{List, [], ◌∷◌, ◌++◌, map}
use mathlib.Core.Option.{Option, none, some}
use native.Mathlib.Omega.{arith}
use mathlib.Core.Logic.{Lift, ◌⊎◌, inl, inr}
use relay.Prelude.Tests.{Bool-cases, if◌then◌else◌}

module _ {ℓ} {A : Type ℓ} where
  abbrev pub length : List A → ℕ
  length [] = 0
  length (x ∷ xs) = suc (length xs)

  -- The builtins `any` and `all`, and a comprehension's filter.
  abbrev pub any : (A → Bool) → List A → Bool
  any p [] = false
  any p (x ∷ xs) = p x || any p xs

  abbrev pub all : (A → Bool) → List A → Bool
  all p [] = true
  all p (x ∷ xs) = p x && all p xs

  abbrev pub keep : (A → Bool) → List A → List A
  keep p [] = []
  keep p (x ∷ xs) = let rest = keep p xs in if p x then x ∷ rest else rest

  -- `next((x for x in xs if p(x)), None)`
  abbrev pub find : (A → Bool) → List A → Option A
  find p [] = none
  find p (x ∷ xs) = if p x then some x else find p xs

  abbrev pub All {κ} : (A → Type κ) → List A → Type κ
  All P [] = Unit
  All P (x ∷ xs) = P x × All P xs

  abbrev pub Among {κ} : (A → Type κ) → List A → Type κ
  Among P [] = Lift ⊥
  Among P (x ∷ xs) = P x ⊎ Among P xs

  -- The lists are of one length, and `R` holds of what stands at the same place.
  abbrev pub Pairwise {κ} : (A → A → Type κ) → List A → List A → Type κ
  Pairwise R [] [] = Unit
  Pairwise R [] (y ∷ ys) = Lift ⊥
  Pairwise R (x ∷ xs) [] = Lift ⊥
  Pairwise R (x ∷ xs) (y ∷ ys) = R x y × Pairwise R xs ys

module _ {ℓ} {A : Type ℓ} where
  pub Pairwise-refl {κ} :
      (R : A → A → Type κ) → ((x : A) → R x x) → (xs : List A) → Pairwise R xs xs
  Pairwise-refl R same [] = tt
  Pairwise-refl R same (x ∷ xs) = (same x, Pairwise-refl R same xs)

  pub Pairwise-trans {κ} :
      (R : A → A → Type κ)
      → ((x y z : A) → R x y → R y z → R x z)
      → (xs ys zs : List A) → Pairwise R xs ys
      → Pairwise R ys zs
      → Pairwise R xs zs
  Pairwise-trans R join [] [] [] h k = tt
  Pairwise-trans R join [] [] (z ∷ zs) h k = k
  Pairwise-trans R join [] (y ∷ ys) zs h k = absurd (h.lower)
  Pairwise-trans R join (x ∷ xs) [] zs h k = absurd (h.lower)
  Pairwise-trans R join (x ∷ xs) (y ∷ ys) [] h k = k
  Pairwise-trans R join (x ∷ xs) (y ∷ ys) (z ∷ zs) h k =
      (join x y z h.0 k.0, Pairwise-trans R join xs ys zs h.1 k.1)

  -- With what holds of each element of the second list.
  pub Pairwise-with {κ μ} :
      {R S : A → A → Type κ} (P : A → Type μ)
      → ((x y : A) → R x y → P y → S x y)
      → (xs ys : List A) → Pairwise R xs ys
      → All P ys
      → Pairwise S xs ys
  Pairwise-with P f [] [] h k = tt
  Pairwise-with P f [] (y ∷ ys) h k = h
  Pairwise-with P f (x ∷ xs) [] h k = h
  Pairwise-with P f (x ∷ xs) (y ∷ ys) h k = (f x y h.0 k.0, Pairwise-with P f xs ys h.1 k.1)

  pub length-append : (xs ys : List A) → length (xs ++ ys) ≡ length xs + length ys
  length-append [] ys = omega arith
  length-append (x ∷ xs) ys = omega (arith, length-append xs ys)

  pub length-map {κ} : {B : Type κ} (f : A → B) (xs : List A) → length (map f xs) ≡ length xs
  length-map f [] = refl
  length-map f (x ∷ xs) = ap suc (length-map f xs)

  pub All-append {κ} :
      (P : A → Type κ) (front back : List A) → All P front → All P back → All P (front ++ back)
  All-append P (a ∷ front) back each rest = (each.0, All-append P front back each.1 rest)
  All-append P [] back each rest = rest

  pub All-of_append {κ} : (P : A → Type κ) (xs ys : List A) → All P (xs ++ ys) → All P xs × All P ys
  All-of_append P [] ys h = (tt, h)
  All-of_append P (x ∷ xs) ys h = let rest = All-of_append P xs ys h.1 in ((h.0, rest.0), rest.1)

  pub All-map {κ μ} :
      {P : A → Type κ} {Q : A → Type μ} (f : (x : A) → P x → Q x) (xs : List A)
      → All P xs
      → All Q xs
  All-map f [] h = tt
  All-map f (x ∷ xs) h = (f x h.0, All-map f xs h.1)

  pub all→All : (p : A → Bool) (xs : List A) → all p xs ≡ true → All (λ x. p x ≡ true) xs
  all→All p [] h = tt
  all→All p (x ∷ xs) h = (ground arith, all→All p xs (ground arith))

  pub All→all : (p : A → Bool) (xs : List A) → All (λ x. p x ≡ true) xs → all p xs ≡ true
  All→all p [] h = refl
  All→all p (x ∷ xs) h = ground (arith, All→all p xs h.1)

  -- A search that finds nothing.
  pub not_any→All : (p : A → Bool) (xs : List A) → any p xs ≡ false → All (λ x. p x ≡ false) xs
  not_any→All p [] h = tt
  not_any→All p (x ∷ xs) h = (ground arith, not_any→All p xs (ground arith))

  pub All→not_any : (p : A → Bool) (xs : List A) → All (λ x. p x ≡ false) xs → any p xs ≡ false
  All→not_any p [] h = refl
  All→not_any p (x ∷ xs) h = ground (arith, All→not_any p xs h.1)

  -- What a search returns satisfies the test.
  pub find-holds : (p : A → Bool) (xs : List A) {a : A} → find p xs ≡ some a → p a ≡ true
  find-holds p [] h = cc
  find-holds p (x ∷ xs) {a} h = ground (arith, find-holds p xs {a = a})

  pub All-of_map {κ μ} :
      {B : Type κ} (P : B → Type μ) (f : A → B) (xs : List A)
      → All P (map f xs)
      → All (λ x. P (f x)) xs
  All-of_map P f [] h = tt
  All-of_map P f (x ∷ xs) h = (h.0, All-of_map P f xs h.1)

  -- What a search returns satisfies what every element does.
  pub find-All {κ} :
      (P : A → Type κ) (p : A → Bool) (xs : List A) {a : A} → All P xs → find p xs ≡ some a → P a
  find-All P p [] h e = cc
  find-All P p (x ∷ xs) {a} h e = elim (Bool-cases (p x)) [
    | inl here ↦ subst P (ground (arith, e)) h.0
    | inr later ↦ find-All P p xs h.1 (ground (arith, e))
  ]

  -- An element that passes the test is found.
  pub any→find : (p : A → Bool) (xs : List A) → any p xs ≡ true → (a : A) × (find p xs ≡ some a)
  any→find p [] h = cc
  any→find p (x ∷ xs) h = elim (Bool-cases (p x)) [
    | inl here ↦ (x, rw here refl)
    | inr later ↦ let (a, e) = any→find p xs (ground arith) in (a, rw later e)
  ]

  pub All-keep {κ} : (P : A → Type κ) (p : A → Bool) (xs : List A) → All P xs → All P (keep p xs)
  All-keep P p [] h = tt
  All-keep P p (x ∷ xs) h = elim (Bool-cases (p x)) [
    | inl here ↦ rw here (h.0, All-keep P p xs h.1)
    | inr not_here ↦ rw not_here (All-keep P p xs h.1)
  ]

  pub keep-All : (p : A → Bool) (xs : List A) → All (λ x. p x ≡ true) (keep p xs)
  keep-All p [] = tt
  keep-All p (x ∷ xs) = elim (Bool-cases (p x)) [
    | inl here ↦ rw here (here, keep-All p xs)
    | inr not_here ↦ rw not_here (keep-All p xs)
  ]

  pub All-both {κ μ} :
      (P : A → Type κ) (Q : A → Type μ) (xs : List A)
      → All P xs
      → All Q xs
      → All (λ x. P x × Q x) xs
  All-both P Q [] h k = tt
  All-both P Q (x ∷ xs) h k = ((h.0, k.0), All-both P Q xs h.1 k.1)

  pub All-every {κ} : (P : A → Type κ) → ((x : A) → P x) → (xs : List A) → All P xs
  All-every P f [] = tt
  All-every P f (x ∷ xs) = (f x, All-every P f xs)

  pub any-append :
      (p : A → Bool) (xs ys : List A)
      → any p (xs ++ ys) ≡ true
      → (any p xs ≡ true) ⊎ (any p ys ≡ true)
  any-append p [] ys h = inr h
  any-append p (x ∷ xs) ys h = elim (Bool-cases (p x)) [
    | inl here ↦ inl (rw here refl)
    | inr not_here ↦ elim (any-append p xs ys (ground (arith, h))) [
      | inl front ↦ inl (ground (arith, front))
      | inr back ↦ inr back
    ]
  ]

  pub any-last : (p : A → Bool) (xs : List A) (x : A) → p x ≡ true → any p (xs ++ x ∷ []) ≡ true
  any-last p [] x h = rw h refl
  any-last p (y ∷ ys) x h = ground (arith, any-last p ys x h)

  pub any-keeps : (p : A → Bool) (xs ys : List A) → any p xs ≡ true → any p (xs ++ ys) ≡ true
  any-keeps p [] ys h = cc
  any-keeps p (x ∷ xs) ys h = ground (arith, any-keeps p xs ys)

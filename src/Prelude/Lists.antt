-- ===== src/Prelude/Lists.antt =====
-- Lists measured by native numbers, Boolean tests over lists, and predicates by recursion.
use Prim.Native.Nat.{ℕ, zero, suc, ◌+◌, ◌≤◌}
use mathlib.Core.Path.{◌≡◌, ap, ap₂, refl}
use mathlib.Core.Logic.{◌⊎◌, ◌↔◌, inl, inr}
use mathlib.Core.Bool.{Bool, true, false, ◌&&◌, ◌||◌}
use mathlib.Core.Option.{Option, none, some}
use mathlib.Core.List.{List, [], ◌∷◌, ◌++◌, map}
use native.Mathlib.Omega.{arith}
use backlog_server.Prelude.Tests.{if◌then◌else◌, Bool-cases}

module _ {ℓ} {A : Type ℓ} where
  abbrev pub length : List A → ℕ
  length [] = 0
  length (x ∷ xs) = suc (length xs)

  abbrev pub take : ℕ → List A → List A
  take zero xs = []
  take (suc n) [] = []
  take (suc n) (x ∷ xs) = x ∷ take n xs

  abbrev pub is_nil : List A → Bool
  is_nil [] = true
  is_nil (x ∷ xs) = false

  -- Go's `for` with a filter and an `append`.
  abbrev pub filter_by : (A → Bool) → List A → List A
  filter_by p [] = []
  filter_by p (x ∷ xs) = let rest = filter_by p xs in if p x then x ∷ rest else rest

  abbrev pub concat : List (List A) → List A
  concat [] = []
  concat (xs ∷ xss) = xs ++ concat xss

  abbrev pub any_by : (A → Bool) → List A → Bool
  any_by p [] = false
  any_by p (x ∷ xs) = p x || any_by p xs

  abbrev pub all_by : (A → Bool) → List A → Bool
  all_by p [] = true
  all_by p (x ∷ xs) = p x && all_by p xs

  abbrev pub All {κ} : (A → Type κ) → List A → Type κ
  All P [] = Unit
  All P (x ∷ xs) = P x × All P xs

  pub length-append : (xs ys : List A) → length (xs ++ ys) ≡ length xs + length ys
  length-append [] ys = omega arith
  length-append (x ∷ xs) ys = omega (arith, length-append xs ys)

  pub length-filter_by-le : (p : A → Bool) (xs : List A) → length (filter_by p xs) ≤ length xs
  length-filter_by-le p [] = omega arith
  length-filter_by-le p (x ∷ xs) = ground (arith, length-filter_by-le p xs)

  pub All-filter_by {κ} :
      (P : A → Type κ) (p : A → Bool) (xs : List A) → All P xs → All P (filter_by p xs)
  All-filter_by P p [] h = h
  All-filter_by P p (x ∷ xs) h = ground (arith, All-filter_by P p xs h.1)

abbrev pub is_some {ℓ} : {A : Type ℓ} → Option A → Bool
is_some none = false
is_some (some a) = true

-- Membership by position, which the tactics take apart.
abbrev pub In : {A : Type 0} → A → List A → Type 0
In a [] = ⊥
In a (x ∷ xs) = (x ≡ a) ⊎ In a xs

-- No element twice.
abbrev pub Distinct : {A : Type 0} → List A → Type 0
Distinct [] = Unit
Distinct (x ∷ xs) = (¬ In x xs) × Distinct xs

pub All-In : {A : Type 0} (P : A → Type 0) (xs : List A) (a : A) → All P xs → In a xs → P a
All-In P [] a h i = elim i [ ]
All-In P (x ∷ xs) a h (inl e) = rw e at (h.0)
All-In P (x ∷ xs) a h (inr i) = All-In P xs a h.1 i

pub In-filter_by :
    {A : Type 0} (p : A → Bool) (xs : List A) (a : A)
    → In a (filter_by p xs)
    → In a xs × (p a ≡ true)
In-filter_by p [] a i = elim i [ ]
In-filter_by p (x ∷ xs) a i = elim (Bool-cases (p x)) [
  | inl y ↦
      let j : In a (x ∷ filter_by p xs) = rw y at i in
      let ih = In-filter_by p xs a in
      elim j [ inl e ↦ (inl e, rw e at y) | inr k ↦ (inr (ih k).0, (ih k).1) ]
  | inr n ↦ let (j, q) = In-filter_by p xs a (rw n at i) in (inr j, q)
]

pub In-map : {A B : Type 0} (f : A → B) (xs : List A) (a : A) → In a xs → In (f a) (map f xs)
In-map f [] a i = elim i [ ]
In-map f (x ∷ xs) a (inl e) = inl (ap f e)
In-map f (x ∷ xs) a (inr i) = inr (In-map f xs a i)

pub All-map :
    {A B : Type 0} (P : B → Type 0) (f : A → B)
    → ((a : A) → P (f a))
    → (xs : List A) → All P (map f xs)
All-map P f h [] = tt
All-map P f h (x ∷ xs) = (h x, All-map P f h xs)

pub map-map-eq :
    {A B C : Type 0} (f : A → B) (g : B → C) (k : A → C)
    → ((a : A) → g (f a) ≡ k a)
    → (xs : List A) → map g (map f xs) ≡ map k xs
map-map-eq f g k h [] = refl
map-map-eq f g k h (x ∷ xs) = ap₂ ◌∷◌ (h x) (map-map-eq f g k h xs)

-- A concatenation is empty exactly when all its parts are.
module _ {A : Type 0} where
  concat-nil :
      (xs : List A) (xss : List (List A))
      → (concat (xs ∷ xss) ≡ []) ↔ ((xs ≡ []) × (concat xss ≡ []))
  concat-nil [] xss = (λ e. (refl, e), λ e. e.1)
  concat-nil (x ∷ xs) xss = (λ e. absurd (cc), λ e. absurd (cc))

  pub concat-All : (xss : List (List A)) → (concat xss ≡ []) ↔ All (λ xs. xs ≡ []) xss
  concat-All [] = (λ _. tt, λ _. refl)
  concat-All (xs ∷ xss) =
      let both = concat-nil xs xss in
      let ih = concat-All xss in
      (λ e. ((both.0 e).0, ih.0 (both.0 e).1), λ h. both.1 (h.0, ih.1 h.1))

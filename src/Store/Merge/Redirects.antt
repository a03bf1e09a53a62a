-- ===== src/Store/Merge/Redirects.antt =====
-- store.go: MergeTasks. What becomes of the blockers of the dependents.
use backlog_server.Prelude.{
  ℕ, true, ◌≡◌, ◌↔◌, refl, sym, ap, ◌⊎◌, inl, inr, List, [], ◌∷◌, eqb, eqb_iff, eqb_refl,
  Bool-cases, In, any_by, if◌then◌else◌,
}
use mathlib.Core.Path.{subst}
use backlog_server.Store.Merge.Planning.{redirected}

pub any_by-In : (x : ℕ) (ys : List ℕ) → any_by (eqb x) ys ≡ true → In x ys
any_by-In x [] e = absurd (cc)
any_by-In x (y ∷ ys) e = elim (Bool-cases (eqb x y)) [
  | inl p ↦ inl (sym ((eqb_iff x y).0 p))
  | inr n ↦ inr (any_by-In x ys (rw n at e))
]

pub In-any_by : (x : ℕ) (ys : List ℕ) → In x ys → any_by (eqb x) ys ≡ true
In-any_by x [] i = elim i [ ]
In-any_by x (y ∷ ys) (inl e) = rw (e, eqb_refl x) refl
In-any_by x (y ∷ ys) (inr i) = elim (Bool-cases (eqb x y)) [
  | inl p ↦ rw p refl
  | inr n ↦ rw n (In-any_by x ys i)
]

module _ (a b : ℕ) where
  -- What a blocker becomes.
  abbrev pub redirect_target : ℕ → ℕ
  redirect_target v = if eqb v b then a else v

  -- A blocker of the new list is the target of one of the old.
  abbrev pub Target : List ℕ → ℕ → Type 0
  Target vs x = (v : ℕ) × In v vs × (redirect_target v ≡ x)

  redirected-Target : (seen vs : List ℕ) (x : ℕ) → In x (redirected a b seen vs) → Target vs x
  unfolding redirected
  redirected-Target seen [] x i = elim i [ ]
  redirected-Target seen (v ∷ vs) x i = elim (Bool-cases (any_by (eqb (redirect_target v)) seen)) [
    | inl y ↦ let (u, j, e) = redirected-Target seen vs x (rw y at i) in (u, inr j, e)
    | inr z ↦ elim (rw z at i) [
      | inl e ↦ (v, inl refl, e)
      | inr k ↦ let (u, j, e) = redirected-Target (redirect_target v ∷ seen) vs x k in (u, inr j, e)
    ]
  ]

  Target-redirected :
      (seen vs : List ℕ) (v : ℕ)
      → In v vs
      → In (redirect_target v) seen ⊎ In (redirect_target v) (redirected a b seen vs)
  unfolding redirected
  Target-redirected seen [] v i = elim i [ ]
  Target-redirected seen (u ∷ us) v i = elim (Bool-cases (any_by (eqb (redirect_target u)) seen)) [
    | inl y ↦ elim i [
      | inl e ↦
          inl (subst (λ x. In (redirect_target x) seen) e (any_by-In (redirect_target u) seen y))
      | inr j ↦ rw y (Target-redirected seen us v j)
    ]
    | inr z ↦ elim i [
      | inl e ↦ inr (rw z (inl (ap redirect_target e)))
      | inr j ↦ elim (Target-redirected (redirect_target u ∷ seen) us v j) [
        | inl (inl p) ↦ inr (rw z (inl p))
        | inl (inr k) ↦ inl k
        | inr k ↦ inr (rw z (inr k))
      ]
    ]
  ]

  -- The blockers of a dependent are the targets of its old ones.
  pub redirected_iff : (vs : List ℕ) (x : ℕ) → In x (redirected a b [] vs) ↔ Target vs x
  redirected_iff vs x = (
    redirected-Target [] vs x,
    λ (v, i, e). elim (Target-redirected [] vs v i) [
      | inl none_seen ↦ elim none_seen [ ]
      | inr j ↦ subst (λ y. In y (redirected a b [] vs)) e j
    ],
  )

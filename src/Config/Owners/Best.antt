-- ===== src/Config/Owners/Best.antt =====
-- MatchRule returns a best rule, the first of the best.
use backlog_server.Prelude.{
  ℕ, String, Bool, true, false, ◌≡◌, refl, sym, ap, ◌∙◌, ◌⊎◌, inl, inr, Option, none, some, List,
  [], ◌∷◌, filter_by, if◌then◌else◌, Bool-cases, In, In-filter_by, arith, ◌<◌, ◌≤◌, eqb, eqb_iff,
  ltb, length,
}
use backlog_server.Prelude.Int.{ℤ, pos, negsuc, ltb_ℤ}
use mathlib.Core.Path.{subst}
use backlog_server.Config.Owners.{
  OwnerRule, TaskFacts, rule_matches, before, insert_rule, sort_stable, first_rule, match_rule,
}

before-asym :
    (load : String → ℕ) (a b : OwnerRule) → before load a b ≡ true → before load b a ≡ false
unfolding before
before-asym load a b h = ground arith

before-negtrans :
    (load : String → ℕ) (a b c : OwnerRule)
    → before load a b ≡ false
    → before load b c ≡ false
    → before load a c ≡ false
unfolding before
before-negtrans load a b c h k = ground arith

-- `r` has more patterns than `s`; or as many, and the higher priority; or that too, and no more load.
abbrev pub Outranks : (String → ℕ) → OwnerRule → OwnerRule → Type 0
Outranks load r s =
    (length s.patterns < length r.patterns)
    ⊎ ((length s.patterns ≡ length r.patterns)
        × ((ltb_ℤ s.priority r.priority ≡ true)
            ⊎ ((s.priority ≡ r.priority) × (load r.owner ≤ load s.owner))))

same_ℤ : (a b : ℤ) → ltb_ℤ a b ≡ false → ltb_ℤ b a ≡ false → a ≡ b
same_ℤ (pos m) (pos n) h k = ap pos (ground arith)
same_ℤ (pos m) (negsuc n) h k = absurd (ground arith)
same_ℤ (negsuc m) (pos n) h k = absurd (ground arith)
same_ℤ (negsuc m) (negsuc n) h k = ap negsuc (ground arith)

Outranks-before :
    (load : String → ℕ) (r s : OwnerRule) → before load s r ≡ false → Outranks load r s
unfolding before
Outranks-before load r s h = elim (Bool-cases (eqb (length s.patterns) (length r.patterns))) [
  | inr n ↦ inl (ground arith)
  | inl y ↦ inr (
    (eqb_iff (length s.patterns) (length r.patterns)).0 y,
    elim (Bool-cases (ltb_ℤ s.priority r.priority)) [
      | inl lower ↦ inl lower
      | inr no_lower ↦ elim (Bool-cases (ltb_ℤ r.priority s.priority)) [
        | inl higher ↦ let p : Path Bool true false = rw (y, higher) at h in absurd (cc)
        | inr no_higher ↦ inr (
          same_ℤ s.priority r.priority no_lower no_higher,
          (let q : ltb (load s.owner) (load r.owner) ≡ false = rw (y, no_lower, no_higher) at h in
              ground arith),
        )
      ]
    ],
  )
]

module _ (less : OwnerRule → OwnerRule → Bool) where
  -- The first of a sorted list: in the list, and no rule of the list comes before it.
  abbrev pub IsBest : List OwnerRule → OwnerRule → Type 0
  IsBest rs r = In r rs × ((s : OwnerRule) → In s rs → less s r ≡ false)

  first-insert_rule :
      (r h : OwnerRule) (ss : List OwnerRule)
      → first_rule ss ≡ some h
      → first_rule (insert_rule less r ss) ≡ some (if less h r then h else r)
  unfolding insert_rule
  first-insert_rule r h [] e = absurd (cc)
  first-insert_rule r h (s ∷ ss) e =
      let same : s ≡ h = cc in
      elim (Bool-cases (less s r)) [
        | inl y ↦ rw y (rw (subst (λ x. less x r ≡ true) same y) e)
        | inr n ↦ rw n (rw (subst (λ x. less x r ≡ false) same n) refl)
      ]

  module _ (asym : (a b : OwnerRule) → less a b ≡ true → less b a ≡ false)
      (negtrans : (a b c : OwnerRule)
        → less a b ≡ false
        → less b c ≡ false
        → less a c ≡ false) where
    irrefl : (r : OwnerRule) → less r r ≡ false
    irrefl r = elim (Bool-cases (less r r)) [ inl y ↦ asym r r y | inr n ↦ n ]

    pub first-sort_stable :
        (r : OwnerRule) (rs : List OwnerRule)
        → (h : OwnerRule) × (first_rule (sort_stable less (r ∷ rs)) ≡ some h) × IsBest (r ∷ rs) h
    unfolding sort_stable insert_rule
    first-sort_stable r [] = (r, refl, (inl refl, λ s i. only s i))
      where
        only : (s : OwnerRule) → In s (r ∷ []) → less s r ≡ false
        only s (inl e) = subst (λ x. less x r ≡ false) e (irrefl r)
        only s (inr i) = elim i [ ]
    first-sort_stable r (q ∷ rs) =
        let (h, e, (i, best)) = first-sort_stable q rs in
        let first = first-insert_rule r h (sort_stable less (q ∷ rs)) e in
        elim (Bool-cases (less h r)) [
          | inl y ↦ (
            h,
            first ∙ rw y refl,
            (
              inr i,
              λ s j. elim j [
                | inl p ↦ subst (λ x. less x h ≡ false) p (asym h r y)
                | inr k ↦ best s k
              ],
            ),
          )
          | inr n ↦ (
            r,
            first ∙ rw n refl,
            (
              inl refl,
              λ s j. elim j [
                | inl p ↦ subst (λ x. less x r ≡ false) p (irrefl r)
                | inr k ↦ negtrans s h r (best s k) n
              ],
            ),
          )
        ]

module _ (load : String → ℕ) (rules : List OwnerRule) (t : TaskFacts) where
  -- A matching rule of the registry that outranks every matching rule, or none where none matches.
  abbrev pub Chosen : Option OwnerRule → Type 0
  Chosen o =
      ((o ≡ none) × ((s : OwnerRule) → In s rules → rule_matches t s ≡ false))
      ⊎ ((r : OwnerRule) × (o ≡ some r)
          × In r rules
          × (rule_matches t r ≡ true)
          × ((s : OwnerRule) → In s rules → rule_matches t s ≡ true → Outranks load r s))

  -- MatchRule returns no rule only when no rule of the registry matches the task; else it returns a
  -- matching rule of the registry such that each matching rule has fewer patterns, or as many and a
  -- lower priority, or the same priority too and an owner with no lower load.
  pub match_rule-Chosen : Chosen (match_rule load rules t)
  unfolding match_rule sort_stable
  match_rule-Chosen = go (filter_by (rule_matches t) rules) refl
    where
      none_left :
          (rs : List OwnerRule)
          → filter_by (rule_matches t) rs ≡ []
          → (s : OwnerRule) → In s rs
          → rule_matches t s ≡ false
      none_left [] e s i = elim i [ ]
      none_left (r ∷ rs) e s i = elim (Bool-cases (rule_matches t r)) [
        | inl y ↦ let e' : r ∷ filter_by (rule_matches t) rs ≡ [] = rw y at e in absurd (cc)
        | inr n ↦ elim i [
          | inl p ↦ subst (λ x. rule_matches t x ≡ false) p n
          | inr j ↦ none_left rs (rw n at e) s j
        ]
      ]

      kept :
          (rs : List OwnerRule) (s : OwnerRule)
          → In s rs
          → rule_matches t s ≡ true
          → In s (filter_by (rule_matches t) rs)
      kept [] s i m = i
      kept (r ∷ rs) s (inl p) m = rw (ap (rule_matches t) p ∙ m) (inl p)
      kept (r ∷ rs) s (inr i) m =
          let rest = kept rs s i m in
          elim (Bool-cases (rule_matches t r)) [ inl y ↦ rw y (inr rest) | inr n ↦ rw n rest ]

      go :
          (cs : List OwnerRule)
          → filter_by (rule_matches t) rules ≡ cs
          → Chosen (first_rule (sort_stable (before load) cs))
      go [] e = inl (refl, none_left rules e)
      go (c ∷ cs) e =
          let (h, first, (i, best)) =
            first-sort_stable (before load) (before-asym load) (before-negtrans load) c cs in
          let (j, m) = In-filter_by (rule_matches t) rules h (subst (λ l. In h l) (sym e) i) in
          inr (
            h,
            first,
            j,
            m,
            λ s k n. Outranks-before load h s (best s (subst (λ l. In s l) e (kept rules s k n))),
          )

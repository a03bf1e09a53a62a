-- ===== src/Config/Owners/Suggestions.antt =====
-- SuggestMatches: how many owners, which ones, and each one once.
use backlog_server.Prelude.{
  ℕ, ◌-◌, ◌≤◌, String, true, false, ◌≡◌, ◌≢◌, refl, inl, inr, List, [], ◌∷◌, ◌==◌, leb, eqb, length,
  if◌then◌else◌, Bool-cases, In, Distinct, mem_text, eq_iff, arith,
}
use mathlib.Core.Path.{subst}
use backlog_server.Config.Owners.{OwnerRule, TaskFacts, rule_matches, suggest_from, suggest_matches}

-- The owner of a matching rule.
abbrev pub IsOwner : TaskFacts → List OwnerRule → String → Type 0
IsOwner t rules o = (r : OwnerRule) × In r rules × (rule_matches t r ≡ true) × (r.owner ≡ o)

module _ (t : TaskFacts) where
  abbrev Suggested : ℕ → List String → List OwnerRule → List String → Type 0
  Suggested left seen rs os =
      (length os ≤ left)
      × Distinct os
      × ((o : String) → In o os → IsOwner t rs o × (mem_text o seen ≡ false))

  later : (r : OwnerRule) (rs : List OwnerRule) (o : String) → IsOwner t rs o → IsOwner t (r ∷ rs) o
  later r rs o (s, i, m, e) = (s, inr i, m, e)

  -- An owner that is new to a longer `seen` is new to the shorter one, and not the one that was added.
  unseen :
      (o s : String) (seen : List String)
      → mem_text o (s ∷ seen) ≡ false
      → (o ≢ s) × (mem_text o seen ≡ false)
  unfolding mem_text
  unseen o s seen e = elim (Bool-cases (o == s)) [
    | inl y ↦ let e' : true ≡ false = rw y at e in absurd (cc)
    | inr n ↦ (λ p. differ p n, rw n at e)
  ]
    where
      differ : o ≡ s → (o == s) ≡ false → ⊥
      differ p n = let y = (eq_iff o s).1 p in cc

  suggest_from-Suggested :
      (left : ℕ) (seen : List String) (rs : List OwnerRule)
      → 1 ≤ left
      → Suggested left seen rs (suggest_from t left seen rs)
  unfolding suggest_from
  suggest_from-Suggested left seen [] pos = (omega arith, tt, λ o i. elim i [ ])
  suggest_from-Suggested left seen (r ∷ rs) pos =
      let (few, once, whose) = suggest_from-Suggested left seen rs pos in
      let more = suggest_from-Suggested (left - 1) (r.owner ∷ seen) rs in
      let skipped : Suggested left seen (r ∷ rs) (suggest_from t left seen rs) =
        (few, once, λ o i. (later r rs o (whose o i).0, (whose o i).1)) in
      elim (Bool-cases (rule_matches t r)) [
        | inr n ↦ rw n skipped
        | inl y ↦ elim (Bool-cases (mem_text r.owner seen)) [
          | inl old ↦ rw (y, old) skipped
          | inr new ↦ elim (Bool-cases (leb left 1)) [
            | inl last ↦
                rw (y, new, last)
                  (
                    pos,
                    (λ i. elim i [ ], tt),
                    λ o i. elim i [
                      | inl e ↦ ((r, inl refl, y, e), subst (λ s. mem_text s seen ≡ false) e new)
                      | inr j ↦ elim j [ ]
                    ],
                  )
            | inr go_on ↦
                let (few', once', whose') = more (ground (arith, go_on)) in
                rw (y, new, go_on)
                  (
                    ground (arith, few', go_on),
                    (λ i. (unseen r.owner r.owner seen (whose' r.owner i).1).0 refl, once'),
                    λ o i. elim i [
                      | inl e ↦ ((r, inl refl, y, e), subst (λ s. mem_text s seen ≡ false) e new)
                      | inr j ↦
                          (later r rs o (whose' o j).0, (unseen o r.owner seen (whose' o j).1).1)
                    ],
                  )
          ]
        ]
      ]

  -- SuggestMatches returns at most the limit of owners (five where the limit is zero), none of them
  -- twice, and each one the owner of a rule that matches the task.
  pub suggest_matches_lem :
      (rules : List OwnerRule) (limit : ℕ)
      → (length (suggest_matches rules t limit) ≤ (if eqb limit 0 then 5 else limit))
        × Distinct (suggest_matches rules t limit)
        × ((o : String) → In o (suggest_matches rules t limit) → IsOwner t rules o)
  unfolding suggest_matches
  suggest_matches_lem rules limit =
      let (few, once, whose) =
        suggest_from-Suggested (if eqb limit 0 then 5 else limit) [] rules (ground arith) in
      (few, once, λ o i. (whose o i).0)

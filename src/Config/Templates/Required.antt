-- ===== src/Config/Templates/Required.antt =====
-- ValidateTemplate: which templates ask for which field.
use backlog_server.Prelude.{
  String, true, false, ◌≡◌, ◌≢◌, ◌↔◌, refl, sym, ap, ◌∙◌, inl, inr, Option, none, List, [], ◌∷◌,
  ◌==◌, if◌then◌else◌, is_empty, trim_space, Bool-cases, eq_iff, eq_refl, eq_of_==_true,
}
use mathlib.Core.Path.{subst}
use backlog_server.Config.Templates.{
  TemplateFields, TemplateFailure, template_requirements, requirement, no_items,
  is_required_field_empty, check_required, validate_template,
}

-- What each template demands, by its name without the spaces around it.
abbrev pub Fulfilled : String → TemplateFields → Type 0
Fulfilled t f =
    (t ≡ "bugfix" → f.references ≢ [])
    × (t ≡ "feature" → f.consumers ≢ [])
    × (t ≡ "migration" → trim_space f.migration_note ≢ "")

-- The check behind the trim.
abbrev check : String → TemplateFields → Option TemplateFailure
check t f = if is_empty t then none else check_required t (requirement t template_requirements) f

differ : (s t : String) → (s == t) ≡ false → s ≡ t → ⊥
differ s t n e = let y = (eq_iff s t).1 e in cc

no_items_sound : (ss : List String) → no_items ss ≡ true → ss ≡ []
no_items_sound [] e = refl
no_items_sound (s ∷ ss) e = absurd (cc)

no_items_complete : (ss : List String) → no_items ss ≡ false → ss ≢ []
no_items_complete [] e p = cc
no_items_complete (s ∷ ss) e p = cc

is_empty_lem : (s : String) → is_empty s ≡ (s == "")
is_empty_lem String.[] = sym (eq_refl "")
is_empty_lem (String.◌∷◌ c s) = elim (Bool-cases (String.◌∷◌ c s == "")) [
  | inl y ↦ let e = ap is_empty ((eq_iff (String.◌∷◌ c s) "").0 y) in absurd (cc)
  | inr n ↦ sym n
]

check-bugfix : (f : TemplateFields) → (check "bugfix" f ≡ none) ↔ Fulfilled "bugfix" f
unfolding requirement check_required is_required_field_empty
check-bugfix f = elim (Bool-cases (no_items f.references)) [
  | inl y ↦ rw y (λ e. absurd (cc), λ p. absurd (p.0 refl (no_items_sound f.references y)))
  | inr n ↦ rw n (
    λ _. (
      λ _. no_items_complete f.references n,
      λ e. absurd (differ "bugfix" "feature" refl e),
      λ e. absurd (differ "bugfix" "migration" refl e),
    ),
    λ _. refl,
  )
]

check-feature : (f : TemplateFields) → (check "feature" f ≡ none) ↔ Fulfilled "feature" f
unfolding requirement check_required is_required_field_empty
check-feature f = elim (Bool-cases (no_items f.consumers)) [
  | inl y ↦ rw y (λ e. absurd (cc), λ p. absurd (p.1 refl (no_items_sound f.consumers y)))
  | inr n ↦ rw n (
    λ _. (
      λ e. absurd (differ "feature" "bugfix" refl e),
      λ _. no_items_complete f.consumers n,
      λ e. absurd (differ "feature" "migration" refl e),
    ),
    λ _. refl,
  )
]

check-migration : (f : TemplateFields) → (check "migration" f ≡ none) ↔ Fulfilled "migration" f
unfolding requirement check_required is_required_field_empty
check-migration f = elim (Bool-cases (is_empty (trim_space f.migration_note))) [
  | inl y ↦ rw y (
    λ e. absurd (cc),
    λ p. absurd (
        p.2 refl (
          (eq_iff (trim_space f.migration_note) "").0
            (sym (is_empty_lem (trim_space f.migration_note)) ∙ y))),
  )
  | inr n ↦ rw n (
    λ _. (
      λ e. absurd (differ "migration" "bugfix" refl e),
      λ e. absurd (differ "migration" "feature" refl e),
      λ _.
          differ (trim_space f.migration_note) ""
            (sym (is_empty_lem (trim_space f.migration_note)) ∙ n),
    ),
    λ _. refl,
  )
]

check-Fulfilled : (t : String) (f : TemplateFields) → (check t f ≡ none) ↔ Fulfilled t f
unfolding requirement check_required
check-Fulfilled t f = elim (Bool-cases (t == "bugfix")) [
  | inl y ↦
      subst (λ s. (check s f ≡ none) ↔ Fulfilled s f) (sym (eq_of_==_true t "bugfix" y))
        (check-bugfix f)
  | inr n ↦ elim (Bool-cases (t == "feature")) [
    | inl y ↦
        subst (λ s. (check s f ≡ none) ↔ Fulfilled s f) (sym (eq_of_==_true t "feature" y))
          (check-feature f)
    | inr m ↦ elim (Bool-cases (t == "migration")) [
      | inl y ↦
          subst (λ s. (check s f ≡ none) ↔ Fulfilled s f) (sym (eq_of_==_true t "migration" y))
            (check-migration f)
      | inr k ↦ (
        λ _. (
          λ e. absurd (differ t "bugfix" n e),
          λ e. absurd (differ t "feature" m e),
          λ e. absurd (differ t "migration" k e),
        ),
        λ _.
            rw (n, m, k) (elim (Bool-cases (is_empty t)) [ inl y ↦ rw y refl | inr z ↦ rw z refl ]),
      )
    ]
  ]
]

-- ValidateTemplate reports no failure exactly when a bugfix has references, a feature has consumers
-- and a migration has a note that is not blank; any other template name demands nothing.
pub validate_template-Fulfilled :
    (template : String) (f : TemplateFields)
    → (validate_template template f ≡ none) ↔ Fulfilled (trim_space template) f
unfolding validate_template
validate_template-Fulfilled template f = check-Fulfilled (trim_space template) f

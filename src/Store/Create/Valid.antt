-- ===== src/Store/Create/Valid.antt =====
-- What a request meets when CreateTask has found no failure.
use backlog_server.Prelude.{
  String, Bool, true, false, not, ◌||◌, ◌≡◌, ◌≢◌, ◌↔◌, refl, ap, ◌⊎◌, inl, inr, Option, none, some,
  List, [], ◌∷◌, map, concat-All, eqb, eqb_iff, is_empty, trim_space, equal_fold, Bool-cases,
}
use backlog_server.Prelude.Int.{ℤ, pos, negsuc, pos_part, is_zero}
use backlog_server.Config.Templates.{TemplateFailure, validate_template}
use backlog_server.Config.Templates.Required.{Fulfilled, validate_template-Fulfilled}
use backlog_server.Config.Workflows.{CustomWorkflow, CustomWorkflowFailure, validate_custom}
use backlog_server.Config.Workflows.Custom.{WellFormed, validate_custom-WellFormed}
use backlog_server.Store.Create.{
  CreateTaskRequest, Registries, expect, is_blank, of_template, of_custom, names_workflow,
  workflow_failures, template_fields, validate,
}

abbrev IsFilled : String → Type 0
IsFilled s = is_empty (trim_space s) ≡ false

-- A custom workflow has BACKLOG first, DONE last, known stages, and gates on them.
abbrev pub CustomFits : Option CustomWorkflow → Type 0
CustomFits none = ⊥
CustomFits (some cw) = WellFormed cw.stages cw.gates

-- The workflow that the request names: a custom one that fits, none, or one of the registry.
abbrev pub WorkflowFits : Registries → CreateTaskRequest → Type 0
WorkflowFits reg r =
    ((equal_fold r.workflow "custom" ≡ true) × CustomFits r.custom_workflow)
    ⊎ ((equal_fold r.workflow "custom" ≡ false)
        × ((is_empty (trim_space r.workflow) ≡ true)
            ⊎ (names_workflow reg.workflows r.workflow ≡ true)))

abbrev pub Valid : Registries → CreateTaskRequest → Type 0
Valid reg r =
    IsFilled r.agent
    × IsFilled r.title
    × IsFilled r.mode
    × ((r.parent ≢ pos 0) ⊎ IsFilled r.business_value)
    × Fulfilled (trim_space r.template) (template_fields r)
    × WorkflowFits reg r

expect-nil : (good : Bool) (check detail : String) → (expect good check detail ≡ []) ↔ (good ≡ true)
expect-nil true check detail = (λ _. refl, λ _. refl)
expect-nil false check detail = (λ e. absurd (cc), λ e. absurd (cc))

filled_iff : (b : Bool) → (not b ≡ true) ↔ (b ≡ false)
filled_iff true = (λ e. absurd (cc), λ e. absurd (cc))
filled_iff false = (λ _. refl, λ _. refl)

nonzero_iff : (n : ℤ) → (not (is_zero n) ≡ true) ↔ (n ≢ pos 0)
nonzero_iff (pos n) = (
  λ e p. let q : n ≡ 0 = ap pos_part p in let y = (eqb_iff n 0).1 q in let z = rw y at e in cc,
  λ h. elim (Bool-cases (eqb n 0)) [
    | inl y ↦ absurd (h (ap pos ((eqb_iff n 0).0 y)))
    | inr z ↦ rw z refl
  ],
)
nonzero_iff (negsuc n) = (λ e p. absurd (cc), λ h. refl)

either_iff : (n : ℤ) (b : Bool) → ((not (is_zero n) || not b) ≡ true) ↔ ((n ≢ pos 0) ⊎ (b ≡ false))
either_iff n b = elim (Bool-cases (not (is_zero n))) [
  | inl y ↦ (λ e. inl ((nonzero_iff n).0 y), λ h. rw y refl)
  | inr z ↦ (
    λ e. inr ((filled_iff b).0 (rw z at e)),
    λ h. elim h [ inl p ↦ let q = (nonzero_iff n).1 p in absurd (cc) | inr q ↦ rw (z, q) refl ],
  )
]

template-nil : (o : Option TemplateFailure) → (of_template o ≡ []) ↔ (o ≡ none)
template-nil none = (λ _. refl, λ _. refl)
template-nil (some f) = (λ e. absurd (cc), λ e. absurd (cc))

custom-nil : (fs : List CustomWorkflowFailure) → (map of_custom fs ≡ []) ↔ (fs ≡ [])
custom-nil [] = (λ _. refl, λ _. refl)
custom-nil (f ∷ fs) = (λ e. absurd (cc), λ e. absurd (cc))

custom_fits : (o : Option CustomWorkflow) → (validate_custom o ≡ []) ↔ CustomFits o
unfolding validate_custom
custom_fits none = (λ e. absurd (cc), λ h. absurd h)
custom_fits (some cw) = validate_custom-WellFormed cw

workflow-nil :
    (reg : Registries) (r : CreateTaskRequest) → (workflow_failures reg r ≡ []) ↔ WorkflowFits reg r
unfolding workflow_failures
workflow-nil reg r = elim (Bool-cases (equal_fold r.workflow "custom")) [
  | inl y ↦
      let one = custom-nil (validate_custom r.custom_workflow) in
      let two = custom_fits r.custom_workflow in
      (
        λ e. inl (y, two.0 (one.0 (rw y at e))),
        λ h. elim h [ inl (_, fits) ↦ rw y (one.1 (two.1 fits)) | inr (n, _) ↦ absurd (cc) ],
      )
  | inr n ↦ elim (Bool-cases (is_blank r.workflow)) [
    | inl y ↦ (λ _. inr (n, inl y), λ _. rw (n, y) refl)
    | inr m ↦
        let one = expect-nil (names_workflow reg.workflows r.workflow) _ _ in
        (
          λ e. inr (n, inr (one.0 (rw (n, m) at e))),
          λ h. elim h [
            | inl (y, _) ↦ absurd (cc)
            | inr (_, inl y) ↦ absurd (cc)
            | inr (_, inr named) ↦ rw (n, m) (one.1 named)
          ],
        )
  ]
]

-- The validation of CreateTask finds no failure exactly when agent, title and mode are not blank,
-- business_value is not blank or the parent's number is not 0 (a negative one will do), the
-- template's required field is there, and the workflow is a custom one that is well formed, none,
-- or one that the registry knows where there is a registry.
pub validate-Valid :
    (reg : Registries) (r : CreateTaskRequest) → (validate reg r ≡ []) ↔ Valid reg r
unfolding validate
validate-Valid reg r =
    let all = concat-All (
      expect (not (is_blank r.agent)) _ _
      ∷ expect (not (is_blank r.title)) _ _
      ∷ expect (not (is_blank r.mode)) _ _
      ∷ expect (not (is_zero r.parent) || not (is_blank r.business_value)) _ _
      ∷ of_template (validate_template r.template (template_fields r))
      ∷ workflow_failures reg r
      ∷ []) in
    let agent = expect-nil (not (is_blank r.agent)) _ _ in
    let title = expect-nil (not (is_blank r.title)) _ _ in
    let mode = expect-nil (not (is_blank r.mode)) _ _ in
    let value = expect-nil (not (is_zero r.parent) || not (is_blank r.business_value)) _ _ in
    let either = either_iff r.parent (is_blank r.business_value) in
    let template = template-nil (validate_template r.template (template_fields r)) in
    let meets = validate_template-Fulfilled r.template (template_fields r) in
    let flow = workflow-nil reg r in
    (
      λ e.
          let h = all.0 e in
          (
            (filled_iff _).0 (agent.0 h.0),
            (filled_iff _).0 (title.0 h.1.0),
            (filled_iff _).0 (mode.0 h.1.1.0),
            either.0 (value.0 h.1.1.1.0),
            meets.0 (template.0 h.1.1.1.1.0),
            flow.0 h.1.1.1.1.1.0,
          ),
      λ v. all.1 (
        agent.1 ((filled_iff _).1 v.0),
        (
          title.1 ((filled_iff _).1 v.1),
          (
            mode.1 ((filled_iff _).1 v.2),
            (value.1 (either.1 v.3), (template.1 (meets.1 v.4), (flow.1 v.5, tt))),
          ),
        ),
      ),
    )

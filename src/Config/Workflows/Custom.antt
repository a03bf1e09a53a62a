-- ===== src/Config/Workflows/Custom.antt =====
-- ValidateCustom: what a custom workflow must be.
use backlog_server.Prelude.{
  String, Bool, true, false, ◌≡◌, ◌↔◌, refl, some, List, [], ◌∷◌, map, ◌==◌, concat-All, All,
  mem_text, eq_iff,
}
use backlog_server.Config.Workflows.{
  CustomWorkflow, CustomWorkflowFailure, valid_task_statuses, upper, unless, last_of,
  unknown_stages, stray_gates, stage_failures, validate_custom,
}

abbrev Failures : Type 0
Failures = List CustomWorkflowFailure

-- BACKLOG first, DONE last, only known statuses, and gates only on stages of the workflow.
abbrev pub WellFormed : List String → List String → Type 0
WellFormed [] gates = ⊥
WellFormed (s ∷ ss) gates =
    (upper s ≡ "BACKLOG")
    × (upper (last_of s ss) ≡ "DONE")
    × All (λ x. mem_text (upper x) valid_task_statuses ≡ true) (s ∷ ss)
    × All (λ k. mem_text (upper k) (map upper (s ∷ ss)) ≡ true) gates

unless-nil : (good : Bool) (detail : String) → (unless good detail ≡ []) ↔ (good ≡ true)
unless-nil true detail = (λ _. refl, λ _. refl)
unless-nil false detail = (λ e. absurd (cc), λ e. absurd (cc))

unknown_stages-nil :
    (ss : List String)
    → (unknown_stages ss ≡ []) ↔ All (λ x. mem_text (upper x) valid_task_statuses ≡ true) ss
unfolding unknown_stages
unknown_stages-nil [] = (λ _. tt, λ _. refl)
unknown_stages-nil (s ∷ ss) =
    let all =
      concat-All (unless (mem_text (upper s) valid_task_statuses) _ ∷ unknown_stages ss ∷ []) in
    let one = unless-nil (mem_text (upper s) valid_task_statuses) _ in
    let ih = unknown_stages-nil ss in
    (λ e. (one.0 (all.0 e).0, ih.0 (all.0 e).1.0), λ h. all.1 (one.1 h.0, (ih.1 h.1, tt)))

stray_gates-nil :
    (stages ks : List String)
    → (stray_gates stages ks ≡ []) ↔ All (λ k. mem_text (upper k) (map upper stages) ≡ true) ks
unfolding stray_gates
stray_gates-nil stages [] = (λ _. tt, λ _. refl)
stray_gates-nil stages (k ∷ ks) =
    let all =
      concat-All (unless (mem_text (upper k) (map upper stages)) _ ∷ stray_gates stages ks ∷ []) in
    let one = unless-nil (mem_text (upper k) (map upper stages)) _ in
    let ih = stray_gates-nil stages ks in
    (λ e. (one.0 (all.0 e).0, ih.0 (all.0 e).1.0), λ h. all.1 (one.1 h.0, (ih.1 h.1, tt)))

stage_failures-nil :
    (stages gates : List String) → (stage_failures stages gates ≡ []) ↔ WellFormed stages gates
unfolding stage_failures
stage_failures-nil [] gates = (λ e. absurd (cc), λ h. absurd h)
stage_failures-nil (s ∷ ss) gates =
    let all = concat-All (
      unless (upper s == "BACKLOG") _
      ∷ unless (upper (last_of s ss) == "DONE") _
      ∷ unknown_stages (s ∷ ss)
      ∷ stray_gates (s ∷ ss) gates
      ∷ []) in
    let first = unless-nil (upper s == "BACKLOG") _ in
    let last = unless-nil (upper (last_of s ss) == "DONE") _ in
    let known = unknown_stages-nil (s ∷ ss) in
    let gated = stray_gates-nil (s ∷ ss) gates in
    let starts = eq_iff (upper s) "BACKLOG" in
    let ends = eq_iff (upper (last_of s ss)) "DONE" in
    (
      λ e.
          let h = all.0 e in
          (starts.0 (first.0 h.0), ends.0 (last.0 h.1.0), known.0 h.1.1.0, gated.0 h.1.1.1.0),
      λ w. all.1 (first.1 (starts.1 w.0), (last.1 (ends.1 w.1), (known.1 w.2, (gated.1 w.3, tt)))),
    )

-- ValidateCustom reports no failure of a custom workflow exactly when its first stage is BACKLOG
-- and its last is DONE, every stage is a known status, and every gate is on one of its stages (all
-- compared in upper case).
pub validate_custom-WellFormed :
    (cw : CustomWorkflow) → (validate_custom (some cw) ≡ []) ↔ WellFormed cw.stages cw.gates
unfolding validate_custom
validate_custom-WellFormed cw = stage_failures-nil cw.stages cw.gates

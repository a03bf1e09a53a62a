-- ===== src/Lifecycle/Stages.antt =====
-- The order of the stages: which way `advance` goes, and where it ends.
use backlog_server.Prelude.{
  ℕ, ◌≤◌, ◌<◌, String, Bool, true, false, ◌≡◌, ◌≢◌, refl, sym, ◌⊎◌, inl, inr, List, [], ◌∷◌, ◌==◌,
  eq_iff, eq_of_==_true, if◌then◌else◌, Bool-cases, arith, In, ◌∙◌, ◌||◌, All, All-In, zero, suc,
  not,
}
use backlog_server.Lifecycle.{
  read, code_task_advance_map, fix_advance_map, think_task_advance_map, target_of,
}

read_stage : String → List (String × ℕ) → ℕ
read_stage k [] = 0
read_stage k ((j, n) ∷ m) = if k == j then n else read_stage k m

-- A key that is read is a row of the map.
read-In : (k v : String) (m : List (String × String)) → read k m ≡ v → v ≢ "" → In (k, v) m
unfolding read
read-In k v [] h n = absurd (n (sym h))
read-In k v ((j, w) ∷ m) h n = elim (Bool-cases (k == j)) [
  | inl e ↦ inl (cc (eq_of_==_true k j e, rw e at h))
  | inr d ↦ inr (read-In k v m (rw d at h) n)
]

-- The row of an advance map that a target comes from, with its workflow.
abbrev pub Row : String → String → String → Type 0
Row current wf to =
    (((wf ≡ "") ⊎ (wf ≡ "code_task")) × In (current, to) code_task_advance_map)
    ⊎ ((wf ≡ "fix") × In (current, to) fix_advance_map)
    ⊎ ((wf ≡ "think_task") × In (current, to) think_task_advance_map)

pub target_of-Row :
    (current wf to : String) → target_of current wf ≡ to → to ≢ "" → Row current wf to
unfolding target_of
target_of-Row current wf to h n = elim (Bool-cases (wf == "")) [
  | inl e ↦ inl (inl (eq_of_==_true _ _ e), read-In current to _ (rw e at h) n)
  | inr d ↦ elim (Bool-cases (wf == "code_task")) [
    | inl e ↦ inl (inr (eq_of_==_true _ _ e), read-In current to _ (rw (d, e) at h) n)
    | inr d₁ ↦ elim (Bool-cases (wf == "fix")) [
      | inl e ↦ inr (inl (eq_of_==_true _ _ e, read-In current to _ (rw (d, d₁, e) at h) n))
      | inr d₂ ↦ elim (Bool-cases (wf == "think_task")) [
        | inl e ↦ inr (inr (eq_of_==_true _ _ e, read-In current to _ (rw (d, d₁, d₂, e) at h) n))
        | inr d₃ ↦ absurd (n (sym (rw (d, d₁, d₂, d₃) at h)))
      ]
    ]
  ]
]

-- How far a status is along its lifecycle.
unfoldable pub stage : String → ℕ
unfolding read_stage
stage s = read_stage s (
    ("BACKLOG", 1)
    ∷ ("PLANNING", 2)
    ∷ ("SCOPED", 2)
    ∷ ("READY", 3)
    ∷ ("IN_PROGRESS", 4)
    ∷ ("IN_REVIEW", 5)
    ∷ ("REVIEW", 5)
    ∷ ("AWAITING_APPROVAL", 6)
    ∷ ("DONE", 7)
    ∷ [])

-- What is so of each row of each map is so of a target.
module _ (P : String → String × String → Type 0) (unnamed : All (P "") code_task_advance_map)
    (code : All (P "code_task") code_task_advance_map) (fix : All (P "fix") fix_advance_map)
    (think : All (P "think_task") think_task_advance_map) where
  row_holds : (current wf to : String) → Row current wf to → P wf (current, to)
  row_holds current wf to (inl (inl e, i)) =
      rw e (All-In (P "") code_task_advance_map (current, to) unnamed i)
  row_holds current wf to (inl (inr e, i)) =
      rw e (All-In (P "code_task") code_task_advance_map (current, to) code i)
  row_holds current wf to (inr (inl (e, i))) =
      rw e (All-In (P "fix") fix_advance_map (current, to) fix i)
  row_holds current wf to (inr (inr (e, i))) =
      rw e (All-In (P "think_task") think_task_advance_map (current, to) think i)

  pub target_holds :
      (current wf : String) → target_of current wf ≢ "" → P wf (current, target_of current wf)
  target_holds current wf n =
      row_holds current wf (target_of current wf)
        (target_of-Row current wf (target_of current wf) refl n)

-- Where a workflow has a target for a status, the target lies strictly later in the lifecycle.
pub stage-target_of :
    (current wf : String) → target_of current wf ≢ "" → stage current < stage (target_of current wf)
unfolding stage
stage-target_of =
    target_holds (λ _ r. stage r.0 < stage r.1) (omega arith) (omega arith) (omega arith)
      (omega arith)

abbrev closes_late : String × String → Bool
closes_late (a, b) = not (b == "DONE") || a == "AWAITING_APPROVAL"

closes_late_rows :
    (current wf : String)
    → target_of current wf ≢ ""
    → closes_late (current, target_of current wf) ≡ true
closes_late_rows =
    target_holds (λ _ r. closes_late r ≡ true) (refl, (refl, (refl, (refl, (refl, (refl, tt))))))
      (refl, (refl, (refl, (refl, (refl, (refl, tt)))))) (refl, (refl, (refl, (refl, (refl, tt)))))
      (refl, (refl, (refl, (refl, (refl, (refl, tt))))))

abbrev pub ends_elsewhere : String → Bool
ends_elsewhere s = s == "CANCELLED" || s == "SUPERSEDED"

-- `advance` never cancels or supersedes.
pub target_of-not_cancelled :
    (current wf : String)
    → target_of current wf ≢ ""
    → ends_elsewhere (target_of current wf) ≡ false
target_of-not_cancelled =
    target_holds (λ _ r. ends_elsewhere r.1 ≡ false)
      (refl, (refl, (refl, (refl, (refl, (refl, tt))))))
      (refl, (refl, (refl, (refl, (refl, (refl, tt)))))) (refl, (refl, (refl, (refl, (refl, tt)))))
      (refl, (refl, (refl, (refl, (refl, (refl, tt))))))

done-ne-nil : ◌≢◌ {A = String} "DONE" ""
done-ne-nil = ground (arith, eq_iff "DONE" "")

-- Only a task that awaits approval may be advanced to DONE.
pub target_of-done :
    (current wf : String) → target_of current wf ≡ "DONE" → current ≡ "AWAITING_APPROVAL"
target_of-done current wf h =
    eq_of_==_true _ _ (rw h at (closes_late_rows current wf (λ e. done-ne-nil (sym h ∙ e))))

-- `k` advances of a task that starts in `current`.
pub advance_times : ℕ → String → String → String
advance_times zero wf current = current
advance_times (suc k) wf current = advance_times k wf (target_of current wf)

abbrev Finishes : String → String × String → Type 0
Finishes wf r = (k : ℕ) × (k ≤ 6) × (advance_times k wf r.0 ≡ "DONE")

six_finish :
    All (Finishes "") code_task_advance_map
    × All (Finishes "code_task") code_task_advance_map
    × All (Finishes "think_task") think_task_advance_map
unfolding advance_times target_of read
six_finish = (
  (
    (6, omega arith, refl),
    (
      (5, omega arith, refl),
      (
        (4, omega arith, refl),
        ((3, omega arith, refl), ((2, omega arith, refl), ((1, omega arith, refl), tt))),
      ),
    ),
  ),
  (
    (6, omega arith, refl),
    (
      (5, omega arith, refl),
      (
        (4, omega arith, refl),
        ((3, omega arith, refl), ((2, omega arith, refl), ((1, omega arith, refl), tt))),
      ),
    ),
  ),
  (
    (6, omega arith, refl),
    (
      (5, omega arith, refl),
      (
        (4, omega arith, refl),
        ((3, omega arith, refl), ((2, omega arith, refl), ((1, omega arith, refl), tt))),
      ),
    ),
  ),
)

five_finish : All (Finishes "fix") fix_advance_map
unfolding advance_times target_of read
five_finish = (
  (5, omega arith, refl),
  (
    (4, omega arith, refl),
    ((3, omega arith, refl), ((2, omega arith, refl), ((1, omega arith, refl), tt))),
  ),
)

-- From every status that a workflow can advance, at most six advances along its map lead to DONE.
pub advance_times-done :
    (current wf : String)
    → target_of current wf ≢ ""
    → (k : ℕ) × (k ≤ 6) × (advance_times k wf current ≡ "DONE")
advance_times-done = target_holds Finishes six_finish.0 six_finish.1 five_finish six_finish.2

-- DONE is final in every workflow.
pub target_of_final : (wf : String) → target_of "DONE" wf ≡ ""
unfolding target_of read
target_of_final wf = ground arith

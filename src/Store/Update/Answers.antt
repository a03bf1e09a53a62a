-- ===== src/Store/Update/Answers.antt =====
-- store.go: UpdateTask. The table behind an update that reports no failure.
use backlog_server.Prelude.{
  ℕ, String, Bool, true, false, ◌≡◌, refl, sym, ap, ◌∙◌, inl, inr, some, List, [], ◌∷◌, map, is_nil,
  In, Distinct,
}
use mathlib.Core.Path.{subst}
use backlog_server.Exec.{Outcome, ok}
use backlog_server.Store.Db.{Task, find_task}
use backlog_server.Store.Tables.{find_task-updated}
use backlog_server.Store.Session.{Env, World, get_task, succeeded}
use backlog_server.Store.Session.Coherent.{Coherent, get_task-Coherent}
use backlog_server.Store.Session.Methods.{IsError}
use backlog_server.Store.Update.{
  Diff, UpdateResult, current_text_field, diffs_of, rejected_fields, fields_failure, sort_diffs,
  ends_early, left_alone, updated, update_task_fields,
}
use backlog_server.Store.Update.Effect.{update_change, update_task_fields-Applies}
use backlog_server.Store.Update.Trail.{update_Tidy}
use backlog_server.Store.Update.Reads.{
  text_fields, asked, told, key_of, set_columns-reads, sort_diffs-told, diffs_of-told,
}

no-failure : (n : ℕ) (fs : List String) → fields_failure n fs ≡ [] → is_nil fs ≡ true
unfolding fields_failure
no-failure n [] e = refl
no-failure n (f ∷ fs) e = absurd (cc)

nil-of : (ds : List Diff) → is_nil ds ≡ true → ds ≡ []
nil-of [] e = refl
nil-of (d ∷ ds) e = absurd (cc)

no-error : {A : Type 0} (o : Outcome A) (a : A) → o ≡ ok a → IsError o → ⊥
no-error o a e i = let p : Path Bool true false = ap succeeded (sym e) ∙ i in cc

-- An update that rejects no field and has nothing to do asks for what the row has.
idle :
    (updates : List (String × String)) (t : Task) (f : String)
    → Distinct (map key_of updates)
    → diffs_of updates t ≡ []
    → asked f updates (current_text_field t f) ≡ current_text_field t f
unfolding told
idle updates t f distinct e =
    sym (diffs_of-told t f updates distinct) ∙ ap (λ ds. told f ds (current_text_field t f)) e

-- The changed row reads as asked.
update_change-reads :
    (env : Env) (n : ℕ) (agent : String) (updates : List (String × String)) (t : Task)
    (stamp f : String)
    → Distinct (map key_of updates)
    → In f text_fields
    → current_text_field (update_change env n agent updates t stamp t) f
      ≡ asked f updates (current_text_field t f)
unfolding update_change updated current_text_field
update_change-reads env n agent updates t stamp f distinct i =
    set_columns-reads env (sort_diffs (diffs_of updates t)) t f i
    ∙ sort_diffs-told f (diffs_of updates t) (current_text_field t f)
    ∙ diffs_of-told t f updates distinct

nothing_to_do :
    (n : ℕ) (updates : List (String × String)) (t : Task)
    → ends_early updates t ≡ true
    → (left_alone n updates t).failures ≡ []
    → diffs_of updates t ≡ []
unfolding ends_early left_alone
nothing_to_do n updates t early none_failed =
    let taken = no-failure n (rejected_fields updates) none_failed in
    nil-of (diffs_of updates t) (rw taken at early)

module _ (env : Env) (n : ℕ) (agent : String) (updates : List (String × String)) where
  cached :
      (m : ℕ) (w : World) (s t : Task)
      → Coherent 1 w
      → (get_task env m w).0 ≡ ok s
      → find_task m w.db.tasks ≡ some t
      → s ≡ t
  cached m w s t c got here = let row = (get_task-Coherent env m 1 w c).1 s got in cc

  -- Behind an UpdateTask that answers without a failure, the row of the task reads each text field
  -- as the updates ask for it, and the others as before, whether the task that the method read came
  -- from the cache or not, provided that the cache was coherent and that no field is asked for
  -- twice.
  pub update_task_fields-reads :
      (w : World) (t : Task) (res : UpdateResult) (f : String)
      → Coherent 1 w
      → find_task n w.db.tasks ≡ some t
      → Distinct (map key_of updates)
      → (update_task_fields env n agent updates w).0 ≡ ok res
      → res.failures ≡ []
      → In f text_fields
      → (u : Task) × (find_task n (update_task_fields env n agent updates w).1.db.tasks ≡ some u)
        × (current_text_field u f ≡ asked f updates (current_text_field t f))
  update_task_fields-reads w t res f c here distinct e none_failed i =
      elim (update_task_fields-Applies env n agent updates w) [
        | inl (same, inl error) ↦ absurd (no-error _ res e error)
        | inl (same, inr (s, got, early, answer)) ↦
            let read = cached n w s t c got here in
            let result : left_alone n updates s ≡ res = cc in
            let idle_s =
              nothing_to_do n updates s early
                (ap (λ (r : UpdateResult). r.failures) result ∙ none_failed) in
            (
              t,
              ap (λ d. find_task n d.tasks) same ∙ here,
              sym (idle updates t f distinct (subst (λ x. diffs_of updates x ≡ []) read idle_s)),
            )
        | inr (s, stamp, got, good, stored, _) ↦
            let read = cached n w s t c got here in
            let tidy = update_Tidy env n agent updates s stamp good in
            (
              update_change env n agent updates s stamp t,
              ap (λ d. find_task n d.tasks) stored
                  ∙ find_task-updated n (update_change env n agent updates s stamp) tidy.keeps_id
                      w.db.tasks t here,
              subst
                  (λ x.
                    current_text_field (update_change env n agent updates x stamp t) f
                    ≡ asked f updates (current_text_field t f))
                  (sym read) (update_change-reads env n agent updates t stamp f distinct i),
            )
      ]

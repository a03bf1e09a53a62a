-- ===== src/Store/Writes/Trail.antt =====
-- The audit trail of status changes agrees with the table.
use backlog_server.Prelude.{
  ℕ, String, Bool, true, false, ◌&&◌, ◌≡◌, ◌≢◌, refl, sym, ap, ◌∙◌, inl, inr, none, some, List, [],
  ◌∷◌, ◌++◌, map, eqb, eqb_iff, arith, Bool-cases, ◌==◌, All,
}
use backlog_server.Scoring.Types as Types
use backlog_server.Store.Db.{Task, Audit, Db, find_task, applied}
use backlog_server.Store.Tables.{
  find_task-map, id-find_task, at_row, update_where-map, at_row-keeps,
}
use backlog_server.Store.Rescore.{persist}
use backlog_server.Store.Review.{review_audit}
use backlog_server.Store.Review.Latest.{filed}
use backlog_server.Store.Session.{Env}
use backlog_server.Store.Writes.{last_status, Tidy, Write, nothing, one_row, close, review}
use backlog_server.Store.Writes.Keeps.{persist-keeps}

-- The audit trail tells the status of each task that it has told one of.
abbrev pub Tells : Db → Type 0
Tells d =
    (n : ℕ) (t : Task) (s : String)
    → find_task n d.tasks ≡ some t
    → last_status n d.audit ≡ some s
    → t.status ≡ s

last_status-append :
    (n : ℕ) (rows older : List Audit)
    → last_status n (rows ++ older)
      ≡ elim (last_status n rows) [ some s ↦ some s | none ↦ last_status n older ]
unfolding last_status
last_status-append n [] older = refl
last_status-append n (a ∷ rows) older =
    elim (Bool-cases (eqb a.task_id n && a.field_changed == "status")) [
      | inl y ↦ rw y refl
      | inr z ↦ rw z (last_status-append n rows older)
    ]

last_status-other :
    (n m : ℕ) (rows : List Audit)
    → n ≢ m
    → All (λ (a : Audit). a.task_id ≡ n) rows
    → last_status m rows ≡ none
unfolding last_status
last_status-other n m [] d h = refl
last_status-other n m (a ∷ rows) d h =
    ground (arith, last_status-other n m rows d h.1, eqb_iff a.task_id m, h.0)

-- A row that tells nothing of the status leaves what was told before.
pub told_before :
    (n : ℕ) (rows older : List Audit) (s : String)
    → last_status n rows ≡ none
    → last_status n (rows ++ older) ≡ some s
    → last_status n older ≡ some s
told_before n rows older s silent e = sym (last_status-append n rows older ∙ rw silent refl) ∙ e

told_now :
    (n : ℕ) (rows older : List Audit) (x s : String)
    → last_status n rows ≡ some x
    → last_status n (rows ++ older) ≡ some s
    → x ≡ s
told_now n rows older x s says e =
    let both : some x ≡ some s = sym (last_status-append n rows older ∙ rw says refl) ∙ e in cc

Tells-applied :
    (n : ℕ) (f : Task → Task) (rows : List Audit) (d : Db)
    → Tidy n f rows
    → Tells d
    → Tells (applied n f rows d)
Tells-applied n f rows d tidy tells m u s here said =
    let (t, p, q) =
      find_task-map (at_row n f) (at_row-keeps n f tidy.keeps_id) m d.tasks u
        (rw (update_where-map n f d.tasks) at here) in
    let is_m : t.id ≡ m = id-find_task m d.tasks t p in
    elim (Bool-cases (eqb t.id n)) [
      | inl y ↦
          let n_is_m : n ≡ m = sym ((eqb_iff t.id n).0 y) ∙ is_m in
          let changed : f t ≡ u = rw y at q in
          let said' : last_status n (rows ++ d.audit) ≡ some s =
            ap (λ k. last_status k (rows ++ d.audit)) n_is_m ∙ said in
          sym (ap (λ (x : Task). x.status) changed) ∙ elim (tidy.told t) [
            | inl e ↦ told_now n rows d.audit (f t).status s e said'
            | inr (e, same) ↦
                same
                ∙ tells m t s p (
                    ap (λ k. last_status k d.audit) (sym n_is_m)
                    ∙ told_before n rows d.audit s e said')
          ]
      | inr z ↦
          let kept : t ≡ u = rw z at q in
          let differ : n ≢ m = λ e. by_id t.id n m z is_m e in
          sym (ap (λ (x : Task). x.status) kept)
          ∙ tells m t s p
              (told_before m rows d.audit s (last_status-other n m rows differ tidy.of_task) said)
    ]
  where
    by_id : (a n m : ℕ) → eqb a n ≡ false → a ≡ m → n ≡ m → ⊥
    by_id a n m z e p = let y = (eqb_iff a n).1 (e ∙ sym p) in cc

Tells-persist :
    (stamp : String) (vs : List Types.Task) (d : Db)
    → Tells d
    → Tells (record d { tasks = map (persist stamp vs) d.tasks })
Tells-persist stamp vs d tells m u s here said =
    let (t, p, q) =
      find_task-map (persist stamp vs) (λ t. (persist-keeps stamp vs t).0) m d.tasks u here in
    sym (ap (λ (x : Task). x.status) q) ∙ (persist-keeps stamp vs t).1 ∙ tells m t s p said

review-silent :
    (env : Env) (n : ℕ) (caller reviewer verdict summary : String) (agg : Bool) (stamp : String)
    (m : ℕ)
    → last_status m (review_audit env n caller reviewer verdict summary agg stamp ∷ []) ≡ none
unfolding last_status review_audit
review-silent env n caller reviewer verdict summary true stamp m = elim (Bool-cases (eqb n m)) [
  | inl y ↦ rw y refl
  | inr z ↦ rw z refl
]
review-silent env n caller reviewer verdict summary false stamp m = elim (Bool-cases (eqb n m)) [
  | inl y ↦ rw y refl
  | inr z ↦ rw z refl
]

-- Every status that an operation writes is told by the audit trail.
pub Write-Tells : (d e : Db) → Write d e → Tells d → Tells e
unfolding filed
Write-Tells d e nothing tells = tells
Write-Tells d e (one_row n f rows tidy) tells = Tells-applied n f rows d tidy tells
Write-Tells d e (close n f rows scorer stamp tidy) tells =
    Tells-persist stamp _ (applied n f rows d) (Tells-applied n f rows d tidy tells)
Write-Tells d e (review env n caller reviewer verdict summary agg stamp) tells = λ m u s here said.
    tells m u s here (
      told_before m (review_audit env n caller reviewer verdict summary agg stamp ∷ []) d.audit s
        (review-silent env n caller reviewer verdict summary agg stamp m) said)

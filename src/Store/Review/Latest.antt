-- ===== src/Store/Review/Latest.antt =====
-- SubmitReview: what it commits, and which verdict is the latest after it.
use backlog_server.Prelude.{
  ℕ, ◌+◌, ◌≤◌, String, Bool, true, false, ◌&&◌, ◌≡◌, refl, ap, ◌∙◌, ◌⊎◌, inl, inr, List, [], ◌∷◌,
  ◌==◌, eqb, eqb_iff, eq_iff, if◌then◌else◌, arith, ◌||◌,
}
use backlog_server.Exec.{Exec, Outcome, ok, no_rows, failed, pure, continue, ◌>>=◌}
use backlog_server.Store.Db.{Task, Review, Db}
use backlog_server.Store.Session.{
  Env, World, Conn, exec, query, transact, bump, get_task, succeeded,
}
use backlog_server.Store.Session.Endings.{Ending, transact-Ending, db-get_task}
use backlog_server.Store.Review.{
  normal_verdict, stored_verdict, is_row_of, retire, latest_verdict, the_summary, review_audit,
  review_body, submit_review, ReviewSubmitResult, review_result,
}
use mathlib.Core.Path.{subst}

-- The rows of one task and reviewer that are marked latest.
unfoldable pub latest_rows : ℕ → String → List Review → ℕ
latest_rows n reviewer [] = 0
latest_rows n reviewer (r ∷ rs) =
    (if is_row_of n reviewer r && r.is_latest then 1 else 0) + latest_rows n reviewer rs

-- At most one row of a task and a reviewer is the latest.
abbrev pub UniqueLatest : List Review → Type 0
UniqueLatest rs = (n : ℕ) (reviewer : String) → latest_rows n reviewer rs ≤ 1

latest_rows-retire :
    (n m : ℕ) (reviewer other : String) (rs : List Review)
    → latest_rows m other (retire n reviewer rs)
      ≡ (if eqb n m && reviewer == other then 0 else latest_rows m other rs)
unfolding latest_rows retire
latest_rows-retire n m reviewer other [] = ground arith
latest_rows-retire n m reviewer other (r ∷ rs) = ground (
  arith,
  latest_rows-retire n m reviewer other rs,
  eqb_iff n m,
  eq_iff reviewer other,
  eq_iff r.reviewer_model reviewer,
  eq_iff r.reviewer_model other,
)

latest_verdict-retire :
    (n m : ℕ) (reviewer other verdict : String) (rs : List Review)
    → latest_verdict m other verdict (retire n reviewer rs)
      ≡ (if eqb n m && reviewer == other then false else latest_verdict m other verdict rs)
unfolding latest_verdict retire
latest_verdict-retire n m reviewer other verdict [] = ground arith
latest_verdict-retire n m reviewer other verdict (r ∷ rs) = ground (
  arith,
  latest_verdict-retire n m reviewer other verdict rs,
  eqb_iff n m,
  eq_iff reviewer other,
  eq_iff r.reviewer_model reviewer,
  eq_iff r.reviewer_model other,
)

latest_verdict-cons :
    (m : ℕ) (other v : String) (r : Review) (rs : List Review)
    → latest_verdict m other v (r ∷ rs)
      ≡ ((is_row_of m other r && r.verdict == v && r.is_latest) || latest_verdict m other v rs)
unfolding latest_verdict
latest_verdict-cons m other v r rs = refl

module _ (env : Env) (n : ℕ) (caller reviewer verdict summary : String) (is_aggregate : Bool) where
  abbrev pub shown : String
  shown = the_summary env n caller reviewer verdict summary is_aggregate

  -- The tables behind a submit.
  unfoldable pub filed : String → Db → Db
  filed stamp d = record d {
    reviews =
        record {
          id = d.next_review;
          task_id = n;
          reviewer_model = reviewer;
          verdict = stored_verdict (normal_verdict verdict);
          summary = shown;
          reviewed_at = stamp;
          is_latest = true;
        }
        ∷ retire n reviewer d.reviews;
    next_review = d.next_review + 1;
    audit = review_audit env n caller reviewer verdict summary is_aggregate stamp ∷ d.audit;
  }

  review_body_effect :
      (stamp : String) (d : Db) (k i : ℕ) (c : Conn)
      → review_body env n caller reviewer verdict summary is_aggregate stamp
          (record { view = d; called = k })
        ≡ (ok i, c)
      → (i ≡ d.next_review) × (c.view ≡ filed stamp d)
  unfolding review_body filed exec query
  review_body_effect stamp d k i c h = ground arith

  abbrev pub submit : World → Outcome ReviewSubmitResult × World
  submit = submit_review env n caller reviewer verdict summary is_aggregate

  -- A submit that returns a result has filed its row and its audit row; one that returns an error
  -- has changed no table.
  abbrev pub SubmitEnds : Db → Outcome ReviewSubmitResult × World → Type 0
  SubmitEnds d z =
      ((succeeded z.0 ≡ false) × (z.1.db ≡ d))
      ⊎ ((stamp : String) × (succeeded z.0 ≡ true) × (z.1.db ≡ filed stamp d))

  -- SubmitReview returns a result exactly when its rows are committed: the retired ones, the new
  -- latest one and the audit row; with an error, the refusal of the verdict by the table included,
  -- no table changes.
  pub submit_review_ends : (w : World) → SubmitEnds w.db (submit w)
  unfolding submit_review bump
  submit_review_ends w = go (get_task env n w) (db-get_task env n w)
    where
      body : String → Exec Conn ℕ
      body = review_body env n caller reviewer verdict summary is_aggregate

      rest : ℕ → Exec World ReviewSubmitResult
      rest id = bump env >>= λ _.
          pure (review_result env n caller reviewer verdict summary is_aggregate id)

      stored :
          (v : World) (r : Outcome ℕ × World)
          → Ending env body v r
          → SubmitEnds v.db (continue r rest)
      stored v (ok i, x) (inl (a, c, m, e, p)) = inr (
        env.now v.calls,
        refl,
        ap (λ q. q.1.db) p ∙ (review_body_effect (env.now v.calls) v.db (v.calls + 1) a c e).1,
      )
      stored v (no_rows, x) (inl (a, c, m, e, p)) = absurd (cc)
      stored v (failed s, x) (inl (a, c, m, e, p)) = absurd (cc)
      stored v (ok i, x) (inr (o, m, f, p)) = absurd (cc)
      stored v (no_rows, x) (inr (o, m, f, p)) = inl (refl, ap (λ q. q.1.db) p)
      stored v (failed s, x) (inr (o, m, f, p)) = inl (refl, ap (λ q. q.1.db) p)

      go :
          (r : Outcome Task × World)
          → r.1.db ≡ w.db
          → SubmitEnds w.db (continue r (λ _. transact env body >>= rest))
      go (no_rows, v) same = inl (refl, same)
      go (failed s, v) same = inl (refl, same)
      go (ok t, v) same =
          subst (λ d. SubmitEnds d (continue (transact env body v) rest)) same
            (stored v (transact env body v) (transact-Ending env body v))

  -- Behind a submitted review HasLatestVerdict reads, for its task and reviewer, exactly the
  -- verdict that was stored, and for every other pair what it read before.
  pub latest_verdict-filed :
      (stamp : String) (d : Db) (m : ℕ) (other v : String)
      → latest_verdict m other v (filed stamp d).reviews ≡ (
          if eqb n m && reviewer == other
          then stored_verdict (normal_verdict verdict) == v
          else latest_verdict m other v d.reviews)
  unfolding filed
  latest_verdict-filed stamp d m other v =
      rw latest_verdict-cons
        (ground (arith, latest_verdict-retire n m reviewer other v d.reviews, eqb_iff n m))

  -- A submit keeps the latest rows unique.
  pub filed-UniqueLatest :
      (stamp : String) (d : Db) → UniqueLatest d.reviews → UniqueLatest (filed stamp d).reviews
  unfolding filed latest_rows
  filed-UniqueLatest stamp d h m other =
      ground (arith, latest_rows-retire n m reviewer other d.reviews, h m other)

-- ===== src/Store/Review/Coherent.antt =====
-- SubmitReview keeps the cache coherent.
use backlog_server.Prelude.{ℕ, ◌+◌, String, Bool, ap, inl, inr}
use backlog_server.Exec.{Exec, Outcome, ok, no_rows, failed, pure, continue, ◌>>=◌}
use backlog_server.Cache
use backlog_server.Store.Db.{Task}
use backlog_server.Store.Session.{Env, World, Conn, transact, bump, get_task}
use backlog_server.Store.Session.Endings.{Ending, transact-Ending}
use backlog_server.Store.Session.Coherent.{
  Coherent, get_task-Coherent, less_room, bumped-Coherent, same-Coherent,
}
use backlog_server.Store.Review.{submit_review, review_body, review_result, ReviewSubmitResult}

-- A transaction, a bump behind its commit, and an answer.
committed-Coherent :
    (env : Env) {A B : Type 0} (k : ℕ) (body : String → Exec Conn A) (answer : A → B) (w : World)
    (r : Outcome A × World)
    → Coherent (k + 1) w
    → Ending env body w r
    → Coherent k (continue r (λ a. bump env >>= λ _. pure (answer a))).1
unfolding bump
committed-Coherent env k body answer w (ok a, x) c (inl (b, conn, m, e, p)) =
    same-Coherent k (record { db = conn.view; cache = Cache.bump w.cache; calls = m })
      (record x { cache = Cache.bump x.cache }) (ap (λ q. q.1.db) p)
      (ap (λ q. Cache.bump q.1.cache) p) (bumped-Coherent k w conn.view m c)
committed-Coherent env k body answer w (no_rows, x) c (inl (b, conn, m, e, p)) = absurd (cc)
committed-Coherent env k body answer w (failed s, x) c (inl (b, conn, m, e, p)) = absurd (cc)
committed-Coherent env k body answer w (ok a, x) c (inr (o, m, f, p)) = absurd (cc)
committed-Coherent env k body answer w (no_rows, x) c (inr (o, m, f, p)) =
    same-Coherent k w x (ap (λ q. q.1.db) p) (ap (λ q. q.1.cache) p) (less_room k w c)
committed-Coherent env k body answer w (failed s, x) c (inr (o, m, f, p)) =
    same-Coherent k w x (ap (λ q. q.1.db) p) (ap (λ q. q.1.cache) p) (less_room k w c)

module _ (env : Env) (n : ℕ) (caller reviewer verdict summary : String) (is_aggregate : Bool) where
  pub submit_review-Coherent :
      (k : ℕ) (w : World)
      → Coherent (k + 1) w
      → Coherent k (submit_review env n caller reviewer verdict summary is_aggregate w).1
  unfolding submit_review
  submit_review-Coherent k w c = go (get_task env n w) (get_task-Coherent env n (k + 1) w c).0
    where
      body : String → Exec Conn ℕ
      body = review_body env n caller reviewer verdict summary is_aggregate

      answer : ℕ → ReviewSubmitResult
      answer = review_result env n caller reviewer verdict summary is_aggregate

      go :
          (r : Outcome Task × World)
          → Coherent (k + 1) r.1
          → Coherent k
              (continue r (λ _. transact env body >>= λ i. bump env >>= λ _. pure (answer i))).1
      go (no_rows, x) h = less_room k x h
      go (failed e, x) h = less_room k x h
      go (ok t, x) h =
          committed-Coherent env k body answer x (transact env body x) h
            (transact-Ending env body x)

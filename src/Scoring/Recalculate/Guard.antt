-- ===== src/Scoring/Recalculate/Guard.antt =====
-- The cycle guard: no potential can come back to the task that it started from.
use backlog_server.Prelude.{ℕ, true, not, ◌≡◌, refl, sym, In, In-filter_by, ap}
use backlog_server.Scoring.Reachability.{Graph, blocks}
use backlog_server.Scoring.Reachability.Paths.{
  Leads, edge, via, In-mem, reachable_iff, reachable_total,
}
use backlog_server.Scoring.Recalculate.{reaches, contributors}
use mathlib.Core.Path.{subst}

-- The test of the source decides whether a path leads back.
pub reaches_of_Leads : (g : Graph) (n m : ℕ) → Leads g n m → reaches g n m ≡ true
unfolding reaches
reaches_of_Leads g n m l =
    let (r, e) = reachable_total g n in rw (e, reaches) (In-mem m r ((reachable_iff g n r e m).1 l))

-- A contributor is blocked by the task, and no path leads from it back to the task.
pub contributors_guarded :
    (g : Graph) (tid bt : ℕ)
    → In bt (contributors g tid)
    → In bt (blocks g tid) × ¬ (Leads g bt tid)
unfolding contributors
contributors_guarded g tid bt i =
    let (j, q) = In-filter_by (λ b. not (reaches g b tid)) (blocks g tid) bt i in
    (j, λ l. cc (ap not (reaches_of_Leads g bt tid l), q))

-- `Feeds g n m`: the potential of `n` counts for that of `m`, directly or through others.
pub data Feeds (g : Graph) : ℕ → ℕ → Type 0 where
  direct : {n m : ℕ} → In n (contributors g m) → Feeds g n m
  through : {n m k : ℕ} → Feeds g n m → In m (contributors g k) → Feeds g n k

-- What feeds a task is blocked by it, along a path.
Feeds-Leads : (g : Graph) {n m : ℕ} → Feeds g n m → Leads g m n
Feeds-Leads g (direct {n} {m} i) = edge (contributors_guarded g m n i).0
Feeds-Leads g (through {n} {m} {k} f i) = via (contributors_guarded g k m i).0 (Feeds-Leads g f)

closed_Feeds : (g : Graph) {n m : ℕ} → Feeds g n m → n ≡ m → ⊥
closed_Feeds g (direct {n} {m} i) e =
    let (b, guarded) = contributors_guarded g m n i in
    guarded (subst (λ k. Leads g k m) (sym e) (edge (subst (λ k. In k (blocks g m)) e b)))
closed_Feeds g (through {n} {m} {k} f i) e =
    (contributors_guarded g k m i).1 (subst (λ x. Leads g m x) e (Feeds-Leads g f))

-- Whatever cycles the blockers have, no task's potential counts towards itself, directly or through
-- other tasks.
pub Feeds-acyclic : (g : Graph) (n : ℕ) → ¬ (Feeds g n n)
Feeds-acyclic g n f = closed_Feeds g f refl

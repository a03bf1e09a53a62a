-- ===== src/Scoring/Recalculate/Blockers.antt =====
-- RecalculateUnblocked: the blocker lists, the ids that it returns, and the scores that it writes.
use backlog_server.Prelude.{
  ℕ, String, Bool, true, not, ◌&&◌, ◌≡◌, refl, sym, ap, ◌∙◌, ◌⊎◌, inl, inr, Option, none, some,
  List, [], ◌∷◌, map, eqb, eqb_iff, In, All, filter_by, if◌then◌else◌, Bool-cases, arith, In-map,
  All-map, map-map-eq,
}
use backlog_server.Prelude.Int.{ℤ}
use backlog_server.Scoring.Base.{days_to_release, base_entry}
use backlog_server.Prelude.Assoc.{find_or, find, find-put, put}
use backlog_server.Float.{Float64, FloatOps}
use backlog_server.Scoring.Types.{Task, Result, ScoreBreakdown}
use backlog_server.Scoring.Reachability.{mem}
use backlog_server.Scoring.Reachability.Paths.{In-mem, mem-In}
use backlog_server.Scoring.Recalculate.{
  scrub, freed, by_id, scored, write_back, result_of, recalculate_all, recalculate_unblocked,
  is_nil, breakdown_of, blocks_map, base_scores, rounds, start_potentials, zero_entry,
}
use mathlib.Core.Path.{subst, ap₂}

-- A blocker list that held the closed task and no other.
abbrev pub OnlyBlocker : ℕ → List ℕ → Type 0
OnlyBlocker closed bs = In closed bs × ((b : ℕ) → In b bs → b ≡ closed)

-- Nothing is left of a list exactly when each of its entries is the closed task.
filtered_empty :
    (closed : ℕ) (bs : List ℕ)
    → ((b : ℕ) → In b bs → b ≡ closed)
    → filter_by (λ b. not (eqb b closed)) bs ≡ []
filtered_empty closed [] h = refl
filtered_empty closed (b ∷ bs) h =
    rw ((eqb_iff b closed).1 (h b (inl refl))) (filtered_empty closed bs (λ x i. h x (inr i)))

In-filtered :
    (closed b : ℕ) (bs : List ℕ)
    → In b bs
    → (b ≡ closed) ⊎ In b (filter_by (λ b. not (eqb b closed)) bs)
In-filtered closed b [] i = elim i [ ]
In-filtered closed b (x ∷ bs) (inl e) = elim (Bool-cases (eqb x closed)) [
  | inl y ↦ inl (sym e ∙ (eqb_iff x closed).0 y)
  | inr n ↦ inr (rw n (inl e))
]
In-filtered closed b (x ∷ bs) (inr i) = elim (In-filtered closed b bs i) [
  | inl e ↦ inl e
  | inr j ↦ inr (elim (Bool-cases (eqb x closed)) [ inl y ↦ rw y j | inr n ↦ rw n (inr j) ])
]

abbrev lost_last : ℕ → Task → Bool
lost_last closed t = mem closed t.blocked_by && is_nil (scrub closed t).blocked_by

lost_last_iff :
    (closed : ℕ) (t : Task)
    → (lost_last closed t ≡ true → OnlyBlocker closed t.blocked_by)
      × (OnlyBlocker closed t.blocked_by → lost_last closed t ≡ true)
unfolding scrub
lost_last_iff closed t = (
  λ h. (
    mem-In closed t.blocked_by (ground arith),
    λ b i. elim (In-filtered closed b t.blocked_by i) [
      | inl e ↦ e
      | inr j ↦ absurd (none_left h b j)
    ],
  ),
  λ o. rw (In-mem closed t.blocked_by o.0, filtered_empty closed t.blocked_by o.1),
)
  where
    none_left :
        lost_last closed t ≡ true
        → (b : ℕ) → In b (filter_by (λ b. not (eqb b closed)) t.blocked_by)
        → ⊥
    none_left h b j = empty (filter_by (λ b. not (eqb b closed)) t.blocked_by) (ground arith) b j
      where
        empty : (l : List ℕ) → is_nil l ≡ true → (b : ℕ) → In b l → ⊥
        empty [] e b i = elim i [ ]
        empty (x ∷ l) e b i = cc

freed_sound :
    (closed n : ℕ) (ts : List Task)
    → In n (freed closed ts)
    → (t : Task) × In t ts × (t.id ≡ n) × OnlyBlocker closed t.blocked_by
unfolding freed
freed_sound closed n [] i = elim i [ ]
freed_sound closed n (t ∷ ts) i = elim (Bool-cases (lost_last closed t)) [
  | inl y ↦
      let j : In n (t.id ∷ freed closed ts) = rw y at i in
      let rest = freed_sound closed n ts in
      elim j [
        | inl e ↦ (t, inl refl, e, (lost_last_iff closed t).0 y)
        | inr k ↦ let (u, m, e, o) = rest k in (u, inr m, e, o)
      ]
  | inr z ↦ let (u, m, e, o) = freed_sound closed n ts (rw z at i) in (u, inr m, e, o)
]

freed_complete :
    (closed n : ℕ) (ts : List Task) (t : Task)
    → In t ts
    → t.id ≡ n
    → OnlyBlocker closed t.blocked_by
    → In n (freed closed ts)
unfolding freed
freed_complete closed n [] t i e o = elim i [ ]
freed_complete closed n (u ∷ ts) t (inl p) e o =
    rw
      ((lost_last_iff closed u).1 (subst (λ (x : Task). OnlyBlocker closed x.blocked_by) (sym p) o))
      (inl (ap (λ (x : Task). x.id) p ∙ e))
freed_complete closed n (u ∷ ts) t (inr i) e o =
    let rest = freed_complete closed n ts t i e o in
    elim (Bool-cases (lost_last closed u)) [ inl y ↦ rw y (inr rest) | inr z ↦ rw z rest ]

-- RecalculateUnblocked returns an id exactly when a task of that id was blocked by the closed task
-- and by no other.
pub freed_iff :
    (closed n : ℕ) (ts : List Task)
    → (In n (freed closed ts) → (t : Task) × In t ts × (t.id ≡ n) × OnlyBlocker closed t.blocked_by)
      × ((t : Task) → In t ts → t.id ≡ n → OnlyBlocker closed t.blocked_by → In n (freed closed ts))
freed_iff closed n ts = (freed_sound closed n ts, freed_complete closed n ts)

-- What a rescore after `closed` leaves of a task's blockers.
abbrev pub blockers_of : Task → ℕ × List ℕ
blockers_of t = (t.id, t.blocked_by)

abbrev pub others_of : ℕ → Task → ℕ × List ℕ
others_of closed t = (t.id, filter_by (λ b. not (eqb b closed)) t.blocked_by)

blockers_of-scored : (o : Option Result) (t : Task) → blockers_of (scored o t) ≡ blockers_of t
blockers_of-scored none t = refl
blockers_of-scored (some r) t = refl

blockers_of-write_back :
    (m : List (ℕ × Result)) (closed : ℕ) (ts : List Task)
    → map blockers_of (map (write_back m) (map (scrub closed) ts)) ≡ map (others_of closed) ts
unfolding write_back scrub
blockers_of-write_back m closed [] = refl
blockers_of-write_back m closed (t ∷ ts) =
    ap₂ ◌∷◌ (blockers_of-scored (find t.id m) (scrub closed t)) (blockers_of-write_back m closed ts)

module _ (ops : FloatOps) (today : ℕ) (parse_date : String → Option ℕ) (release_date : String)
    (cap_lookup : String → Option ℤ) (order : ℕ → List ℕ) where
  abbrev pub after : ℕ → List Task → List Task
  after closed ts =
      (recalculate_unblocked ops today parse_date release_date cap_lookup order closed ts).1

  -- RecalculateUnblocked keeps the tasks in their order, takes the closed task out of the blockers
  -- of each, and keeps the other blockers in their order.
  pub blockers_of-after :
      (closed : ℕ) (ts : List Task) → map blockers_of (after closed ts) ≡ map (others_of closed) ts
  unfolding recalculate_unblocked
  blockers_of-after closed ts = blockers_of-write_back _ closed ts

  -- The score of a result: nothing for a task that is blocked, else its potential.
  abbrev pub Ranked : Float64 → ScoreBreakdown → Type 0
  Ranked e b = e ≡ (if b.is_blocked then ops.decimal 0 0 else b.potential)

  abbrev IsRanked : Result → Type 0
  IsRanked r = r.effective ≡ (if r.is_blocked then ops.decimal 0 0 else r.potential)

  abbrev results : List Task → List Result
  results ts = recalculate_all ops today parse_date release_date cap_lookup order ts

  -- The function that RecalculateAll maps over its tasks.
  abbrev result_in : List Task → Task → Result
  result_in tasks t =
      let days = days_to_release today parse_date release_date in
      let g = blocks_map tasks [] in
      let scores = base_scores ops (base_entry ops cap_lookup days) tasks [] in
      let base : ℕ → Float64 = λ tid. (find_or (zero_entry ops) tid scores).base in
      let potentials = rounds ops g base 10 0 order (start_potentials ops scores) in
      result_of ops g (find_or (zero_entry ops) t.id scores)
        (find_or (ops.decimal 0 0) t.id potentials) t

  results-IsRanked : (ts : List Task) → All IsRanked (results ts)
  unfolding recalculate_all result_of
  results-IsRanked ts = All-map IsRanked (result_in ts) (λ t. refl) ts

  id_of : Result → ℕ
  id_of r = r.id

  results_ids : (ts : List Task) → map id_of (results ts) ≡ map (λ (t : Task). t.id) ts
  unfolding recalculate_all result_of id_of
  results_ids ts = map-map-eq (result_in ts) id_of (λ (t : Task). t.id) (λ t. refl) ts

  by_id_found :
      (rs : List Result) (m : List (ℕ × Result)) (k : ℕ)
      → All IsRanked rs
      → In k (map id_of rs) ⊎ ((r : Result) × (find k m ≡ some r) × IsRanked r)
      → (r : Result) × (find k (by_id rs m) ≡ some r) × IsRanked r
  unfolding by_id id_of
  by_id_found [] m k a (inl i) = elim i [ ]
  by_id_found [] m k a (inr f) = f
  by_id_found (r ∷ rs) m k a (inl (inl e)) =
      by_id_found rs (put r.id r m) k a.1
        (inr (r, find-put r.id k r m ∙ ground (arith, eqb_iff r.id k), a.0))
  by_id_found (r ∷ rs) m k a (inl (inr i)) = by_id_found rs (put r.id r m) k a.1 (inl i)
  by_id_found (r ∷ rs) m k a (inr (q, e, p)) = elim (Bool-cases (eqb r.id k)) [
    | inl y ↦ by_id_found rs (put r.id r m) k a.1 (inr (r, find-put r.id k r m ∙ rw y, a.0))
    | inr n ↦ by_id_found rs (put r.id r m) k a.1 (inr (q, find-put r.id k r m ∙ rw n e, p))
  ]

  -- A task with a score and the breakdown that it comes from.
  abbrev pub Scored : Task → Type 0
  Scored t = (b : ScoreBreakdown) × (t.breakdown ≡ some b) × Ranked t.effective_score b

  scored_by :
      (o : Option Result) (r : Result) (t : Task) → o ≡ some r → IsRanked r → Scored (scored o t)
  scored_by none r t e p = absurd (cc)
  scored_by (some q) r t e p = (breakdown_of q, refl, subst IsRanked (sym q_is_r) p)
    where
      q_is_r : q ≡ r
      q_is_r = cc

  All-Scored :
      (m : List (ℕ × Result)) (us : List Task)
      → ((t : Task) → In t us → (r : Result) × (find t.id m ≡ some r) × IsRanked r)
      → All Scored (map (write_back m) us)
  unfolding write_back
  All-Scored m [] h = tt
  All-Scored m (t ∷ us) h =
      let (r, e, p) = h t (inl refl) in
      (scored_by (find t.id m) r t e p, All-Scored m us (λ u i. h u (inr i)))

  -- Behind RecalculateUnblocked every task has a breakdown, and its effective score is zero if the
  -- breakdown says blocked and the breakdown's potential otherwise.
  pub after-Scored : (closed : ℕ) (ts : List Task) → All Scored (after closed ts)
  unfolding recalculate_unblocked
  after-Scored closed ts =
      let us = map (scrub closed) ts in
      All-Scored (by_id (results us) []) us (λ t i.
        by_id_found (results us) [] t.id (results-IsRanked us)
          (inl (rw (results_ids us) (In-map (λ (t : Task). t.id) us t i))))

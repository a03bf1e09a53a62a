-- ===== src/Scoring/Recalculate.antt =====
-- internal/scoring/scoring.go: RecalculateAll and RecalculateUnblocked. `order r` is the order in
-- which Go's map iteration visits the tasks in round `r`; the language leaves it open.
pub mod Blockers
pub mod Guard
use backlog_server.Prelude.{
  ℕ, zero, suc, ◌+◌, String, Bool, true, false, not, Option, none, some, List, [], ◌∷◌, ◌++◌, map,
  eqb, length, if◌then◌else◌, filter_by, ◌&&◌,
}
use backlog_server.Prelude.Int.{ℤ, pos}
use backlog_server.Prelude.Assoc.{find, find_or, put}
use backlog_server.Float.{Float64, FloatOps}
use backlog_server.Scoring.Types.{Task, Result, ScoreBreakdown}
use backlog_server.Scoring.Base.{BaseEntry, days_to_release, round_half_even, base_entry}
use backlog_server.Scoring.Reachability.{Graph, blocks, mem, reachable}

-- blocksMap[b] = append(blocksMap[b], id), for each blocker b
unfoldable pub add_edges : ℕ → List ℕ → Graph → Graph
add_edges id [] g = g
add_edges id (b ∷ bs) g = add_edges id bs (put b (find_or [] b g ++ id ∷ []) g)

-- Step 0.
unfoldable pub blocks_map : List Task → Graph → Graph
unfolding add_edges
blocks_map [] g = g
blocks_map (t ∷ ts) g = blocks_map ts (add_edges t.id t.blocked_by g)

-- reach[bt] != nil && reach[bt][tid]
unfoldable pub reaches : Graph → ℕ → ℕ → Bool
reaches g bt tid = elim (reachable g bt) [ some r ↦ mem tid r | none ↦ false ]

-- The blocked tasks whose potential counts for `tid`: those with no way back to it.
unfoldable pub contributors : Graph → ℕ → List ℕ
unfolding reaches
contributors g tid = filter_by (λ bt. not (reaches g bt tid)) (blocks g tid)

abbrev is_nil : List ℕ → Bool
is_nil [] = true
is_nil (n ∷ ns) = false

-- tasks[i].BlockedBy without the closed task
unfoldable pub scrub : ℕ → Task → Task
scrub closed t = record t { blocked_by = filter_by (λ b. not (eqb b closed)) t.blocked_by }

-- The tasks that lost their last blocker.
unfoldable pub freed : ℕ → List Task → List ℕ
unfolding scrub
freed closed [] = []
freed closed (t ∷ ts) =
    let rest = freed closed ts in
    if mem closed t.blocked_by && is_nil (scrub closed t).blocked_by then t.id ∷ rest else rest

-- byID[r.ID] = r
unfoldable pub by_id : List Result → List (ℕ × Result) → List (ℕ × Result)
by_id [] m = m
by_id (r ∷ rs) m = by_id rs (put r.id r m)

abbrev pub breakdown_of : Result → ScoreBreakdown
breakdown_of r = record {
  base = r.base;
  blocker_value = r.blocker_value;
  impact_points = r.impact_points;
  subjective = r.subjective;
  release_bonus = r.release_bonus;
  broken_bonus = r.broken_bonus;
  consumers_bonus = r.consumers_bonus;
  potential = r.potential;
  unblocks = r.unblocks;
  is_blocked = r.is_blocked;
  has_spec = r.has_spec;
  type = r.type;
}

abbrev pub scored : Option Result → Task → Task
scored none t = t
scored (some r) t = record t { effective_score = r.effective; breakdown = some (breakdown_of r) }

unfoldable pub write_back : List (ℕ × Result) → Task → Task
write_back results t = scored (find t.id results) t

module _ (ops : FloatOps) where
  open ops use {add, sub, mul, lt, abs, decimal}

  abbrev pub Potentials : Type 0
  Potentials = List (ℕ × Float64)

  -- sum += potentials[bt]
  unfoldable pub sum_of : Potentials → Float64 → List ℕ → Float64
  sum_of p s [] = s
  sum_of p s (bt ∷ bts) = sum_of p (add s (find_or (decimal 0 0) bt p)) bts

  module _ (g : Graph) (base : ℕ → Float64) where
    -- One task of a round, with the flag `changed`.
    unfoldable pub visit : ℕ → Potentials × Bool → Potentials × Bool
    unfolding sum_of contributors
    visit tid (p, changed) =
        let sum = sum_of p (decimal 0 0) (contributors g tid) in
        let new_pot = round_half_even ops (add (base tid) (mul sum (decimal 3 1))) 1 in
        if is_nil (blocks g tid)
        then (p, changed)
        else if lt (decimal 1 1) (abs (sub new_pot (find_or (decimal 0 0) tid p)))
        then (put tid new_pot p, true)
        else (p, changed)

    unfoldable pub round : List ℕ → Potentials × Bool → Potentials × Bool
    unfolding visit
    round [] s = s
    round (tid ∷ tids) s = round tids (visit tid s)

    -- At most `left` more rounds, while the last one changed something.
    unfoldable pub rounds : ℕ → ℕ → (ℕ → List ℕ) → Potentials → Potentials
    unfolding round
    rounds zero r order p = p
    rounds (suc left) r order p =
        let (p', changed) = round (order r) (p, false) in
        let rest = rounds left (suc r) order p' in if changed then rest else p'

  -- Step 3, for one task.
  unfoldable pub result_of : Graph → BaseEntry → Float64 → Task → Result
  result_of g bs pot t = record {
    id = t.id;
    effective = if bs.is_blocked then decimal 0 0 else pot;
    potential = pot;
    base = bs.base;
    impact_points = bs.impact_points;
    subjective = bs.subjective;
    release_bonus = bs.release_bonus;
    broken_bonus = bs.broken_bonus;
    consumers_bonus = bs.consumers_bonus;
    blocker_value = round_half_even ops (sub pot bs.base) 1;
    unblocks = length (blocks g t.id);
    is_blocked = bs.is_blocked;
    has_spec = bs.has_spec;
    type = bs.task_type;
  }

  zero_entry : BaseEntry
  zero_entry = record {
    base = decimal 0 0;
    impact_points = decimal 0 0;
    subjective = decimal 0 0;
    release_bonus = pos 0;
    broken_bonus = 0;
    consumers_bonus = 0;
    has_spec = false;
    is_blocked = false;
    task_type = "";
  }

  unfoldable pub base_scores :
      (Task → BaseEntry) → List Task → List (ℕ × BaseEntry) → List (ℕ × BaseEntry)
  base_scores entry [] m = m
  base_scores entry (t ∷ ts) m = base_scores entry ts (put t.id (entry t) m)

  unfoldable pub start_potentials : List (ℕ × BaseEntry) → Potentials
  start_potentials [] = []
  start_potentials ((tid, s) ∷ m) = (tid, s.base) ∷ start_potentials m

  -- RecalculateAll
  module _ (today : ℕ) (parse_date : String → Option ℕ) (release_date : String)
      (cap_lookup : String → Option ℤ) (order : ℕ → List ℕ) where
    unfoldable pub recalculate_all : List Task → List Result
    unfolding blocks_map rounds result_of zero_entry base_scores start_potentials
    recalculate_all tasks =
        let days = days_to_release today parse_date release_date in
        let g = blocks_map tasks [] in
        let scores = base_scores (base_entry ops cap_lookup days) tasks [] in
        let base : ℕ → Float64 = λ tid. (find_or zero_entry tid scores).base in
        let potentials = rounds g base 10 0 order (start_potentials scores) in
        map
          (λ (t : Task).
            result_of g (find_or zero_entry t.id scores) (find_or (decimal 0 0) t.id potentials) t)
          tasks

    -- RecalculateUnblocked: the tasks as it leaves them, and the ids that it returns.
    unfoldable pub recalculate_unblocked : ℕ → List Task → List ℕ × List Task
    unfolding scrub freed write_back by_id
    recalculate_unblocked closed tasks =
        let scrubbed = map (scrub closed) tasks in
        let results = by_id (recalculate_all scrubbed) [] in
        (freed closed tasks, map (write_back results) scrubbed)

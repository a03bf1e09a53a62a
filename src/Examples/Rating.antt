-- ===== src/Examples/Rating.antt =====
-- Scores: two tasks of which one waits for the other, and a cycle.
use backlog_server.Prelude.{
  ℕ, ◌+◌, ◌-◌, ◌<◌, ◌≤◌, ◌%◌, Option, false, true, ◌≡◌, ◌↔◌, refl, inl, inr, List, [], ◌∷◌, some,
  none, In, All, map, sym, ◌∙◌,
}
use backlog_server.Prelude.Int.{pos}
use backlog_server.Scoring.Types as Types
use backlog_server.Scoring.Base.{next_friday, parse_release_days, is_sprint, release_bonus}
use backlog_server.Scoring.Base.ReleaseDate.{next_friday_lem, release_bonus_bounds}
use backlog_server.Scoring.Reachability.{Graph, reachable}
use backlog_server.Scoring.Reachability.Paths.{Leads, reachable_total, reachable_iff}
use backlog_server.Scoring.Recalculate.{freed}
use backlog_server.Scoring.Recalculate.Guard.{Feeds, Feeds-acyclic}
use backlog_server.Scoring.Recalculate.Blockers.{
  OnlyBlocker, freed_iff, blockers_of-after, blockers_of, others_of, after, Scored, after-Scored,
}
use backlog_server.Store.Tables.{KeyedById}
use backlog_server.Store.Rescore.{scoring_task}
use backlog_server.Store.Rescore.Unblocks.{persisted, rest_of_blockers, blocked_by-persisted}
use backlog_server.Examples.{toy_floats, toy_scorer, waiting}

-- Task 1 blocks task 2 and task 2 blocks task 1.
abbrev cycle : Graph
cycle = (1, 2 ∷ []) ∷ (2, 1 ∷ []) ∷ []

abbrev around : List ℕ
around = 1 ∷ 2 ∷ []

goes_around : reachable cycle 1 ≡ some around
unfolding reachable backlog_server.Scoring.Reachability.mem
goes_around = refl

reachable_iff_example : In 2 around ↔ Leads cycle 1 2
reachable_iff_example = reachable_iff cycle 1 around goes_around 2

reachable_total_example : (r : List ℕ) × (reachable cycle 1 ≡ some r)
reachable_total_example = reachable_total cycle 1

Feeds-acyclic_example : ¬ (Feeds cycle 1 1)
Feeds-acyclic_example = Feeds-acyclic cycle 1

abbrev both : List Types.Task
both = scoring_task waiting ∷ []

freed_iff_example :
    (In 8 (freed 7 both) → (t : Types.Task) × In t both × (t.id ≡ 8) × OnlyBlocker 7 t.blocked_by)
    × ((t : Types.Task) → In t both → t.id ≡ 8 → OnlyBlocker 7 t.blocked_by → In 8 (freed 7 both))
freed_iff_example = freed_iff 7 8 both

abbrev rescored_both : List Types.Task
rescored_both = after toy_floats 3 (λ _. none) "" (λ _. none) (λ _. 8 ∷ []) 7 both

blockers_of-after_example : map blockers_of rescored_both ≡ map (others_of 7) both
blockers_of-after_example =
    blockers_of-after toy_floats 3 (λ _. none) "" (λ _. none) (λ _. 8 ∷ []) 7 both

after-Scored_example :
    All (Scored toy_floats 3 (λ _. none) "" (λ _. none) (λ _. 8 ∷ [])) rescored_both
after-Scored_example = after-Scored toy_floats 3 (λ _. none) "" (λ _. none) (λ _. 8 ∷ []) 7 both

one_row : KeyedById (waiting ∷ [])
one_row t u (inl p) (inl q) e = sym p ∙ q
one_row t u (inr i) j e = elim i [ ]
one_row t u (inl p) (inr j) e = elim j [ ]

blocked_by-persisted_example :
    (persisted toy_scorer 7 (waiting ∷ []) "now" waiting).blocked_by ≡ rest_of_blockers 7 waiting
blocked_by-persisted_example =
    blocked_by-persisted toy_scorer 7 (waiting ∷ []) one_row waiting (inl refl) "now"

next_friday_lem_example :
    (next_friday 3 % 7 ≡ 5)
    × (3 ≤ next_friday 3)
    × ((day : ℕ) → 3 ≤ day → day % 7 ≡ 5 → next_friday 3 ≤ day)
next_friday_lem_example = next_friday_lem 3

release_bonus_bounds_example :
    (is_sprint (scoring_task waiting) ≡ false
      → (o : Option ℕ) → release_bonus (parse_release_days 3 o) (scoring_task waiting) ≡ pos 0)
    × (release_bonus (parse_release_days 3 none) (scoring_task waiting) ≡ pos 0)
    × (is_sprint (scoring_task waiting) ≡ true
        → ((rel : ℕ)
            → rel ≤ 3
            → release_bonus (parse_release_days 3 (some rel)) (scoring_task waiting) ≡ pos 5)
          × ((k : ℕ)
              → k < 5
              → release_bonus (parse_release_days 3 (some (3 + k))) (scoring_task waiting)
                ≡ pos (5 - k))
          × ((k : ℕ)
              → 5 ≤ k
              → release_bonus (parse_release_days 3 (some (3 + k))) (scoring_task waiting) ≡ pos 0))
release_bonus_bounds_example = release_bonus_bounds 3 (scoring_task waiting)

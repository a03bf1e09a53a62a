-- ===== src/Scoring/Penalty.antt =====
-- internal/scoring/penalty.go. Penalties are in tenths: each stands for the float literal.
use backlog_server.Prelude.{
  ℕ, String, Option, none, some, List, [], ◌∷◌, ◌==◌, if◌then◌else◌, to_lower,
}

abbrev pub PenaltyTable : Type 0
PenaltyTable = List (String × ℕ)

abbrev pub agent_type_penalties : List (String × PenaltyTable)
agent_type_penalties =
    (
      "a",
      ("infrastructure", 5)
          ∷ ("fix", 5)
          ∷ ("feature", 10)
          ∷ ("spec", 30)
          ∷ ("integration", 5)
          ∷ ("ui", 30)
          ∷ ("refactor", 10)
          ∷ ("process", 20)
          ∷ [],
    )
    ∷ (
      "b",
      ("infrastructure", 30)
          ∷ ("fix", 10)
          ∷ ("feature", 10)
          ∷ ("spec", 30)
          ∷ ("integration", 30)
          ∷ ("ui", 5)
          ∷ ("refactor", 20)
          ∷ ("process", 30)
          ∷ [],
    )
    ∷ (
      "meta",
      ("infrastructure", 10)
          ∷ ("fix", 20)
          ∷ ("feature", 20)
          ∷ ("spec", 5)
          ∷ ("integration", 20)
          ∷ ("ui", 30)
          ∷ ("refactor", 20)
          ∷ ("process", 5)
          ∷ [],
    )
    ∷ (
      "t1",
      ("infrastructure", 5)
          ∷ ("fix", 5)
          ∷ ("feature", 15)
          ∷ ("spec", 20)
          ∷ ("integration", 5)
          ∷ ("ui", 30)
          ∷ ("refactor", 15)
          ∷ ("process", 20)
          ∷ [],
    )
    ∷ (
      "t2",
      ("infrastructure", 30)
          ∷ ("fix", 30)
          ∷ ("feature", 30)
          ∷ ("spec", 5)
          ∷ ("integration", 10)
          ∷ ("ui", 30)
          ∷ ("refactor", 20)
          ∷ ("process", 10)
          ∷ [],
    )
    ∷ (
      "samvel",
      ("infrastructure", 5)
          ∷ ("fix", 5)
          ∷ ("feature", 10)
          ∷ ("spec", 30)
          ∷ ("integration", 5)
          ∷ ("ui", 30)
          ∷ ("refactor", 15)
          ∷ ("process", 30)
          ∷ [],
    )
    ∷ []

abbrev pub default_penalties : PenaltyTable
default_penalties =
    ("infrastructure", 10)
    ∷ ("fix", 10)
    ∷ ("feature", 15)
    ∷ ("spec", 20)
    ∷ ("integration", 10)
    ∷ ("ui", 20)
    ∷ ("refactor", 20)
    ∷ ("process", 20)
    ∷ []

unfoldable pub lookup : {V : Type 0} → String → List (String × V) → Option V
lookup k [] = none
lookup k ((j, v) ∷ m) = if k == j then some v else lookup k m

abbrev or_default : {V : Type 0} → V → Option V → V
or_default d none = d
or_default d (some v) = v

-- AgentTypePenalty: the defaults for an unknown owner, 2.0 for an unknown type.
unfoldable pub agent_type_penalty : String → String → ℕ
unfolding lookup
agent_type_penalty owner task_type =
    or_default 20 (
      lookup task_type
        (or_default default_penalties (lookup (to_lower owner) agent_type_penalties)))

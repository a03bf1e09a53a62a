-- ===== src/Scoring/Types.antt =====
-- internal/scoring/types.go. An `int` is an integer, an id a number.
use backlog_server.Prelude.{ℕ, String, Bool, Option, List}
use backlog_server.Prelude.Int.{ℤ}
use backlog_server.Float.{Float64}

pub record TaskScore : Type 0 where
  pub impact : Option ℤ
  pub confidence : ℤ
  pub ease : ℤ
  pub dependency : ℤ
  pub total : ℤ

pub record Stage : Type 0 where
  pub name : String
  pub owner : String
  pub status : String

pub record ScoreBreakdown : Type 0 where
  pub base : Float64
  pub blocker_value : Float64
  pub impact_points : Float64
  pub subjective : Float64
  pub release_bonus : ℤ
  pub broken_bonus : ℕ
  pub consumers_bonus : ℕ
  pub potential : Float64
  pub unblocks : ℕ
  pub is_blocked : Bool
  pub has_spec : Bool
  pub type : String

pub record Task : Type 0 where
  pub id : ℕ
  pub title : String
  pub owner : String
  pub mode : String
  pub type : String
  pub status : String
  pub created : String
  pub why : String
  pub note : String
  pub session : String
  pub blocked_by : List ℕ
  pub consumers : List String
  pub priority_override : ℤ
  pub task_plan : String
  pub spec : String
  pub references : List String
  pub score : Option TaskScore
  pub stages : List Stage
  pub client_id : Option ℕ
  pub capability_id : Option String
  pub effective_score : Float64
  pub breakdown : Option ScoreBreakdown

pub record Result : Type 0 where
  pub id : ℕ
  pub effective : Float64
  pub potential : Float64
  pub base : Float64
  pub impact_points : Float64
  pub subjective : Float64
  pub release_bonus : ℤ
  pub broken_bonus : ℕ
  pub consumers_bonus : ℕ
  pub blocker_value : Float64
  pub unblocks : ℕ
  pub is_blocked : Bool
  pub has_spec : Bool
  pub type : String

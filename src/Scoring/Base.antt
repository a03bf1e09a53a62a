-- ===== src/Scoring/Base.antt =====
-- internal/scoring/scoring.go: the release date, rounding, and step 1 of RecalculateAll.
pub mod ReleaseDate
use Prim.Native.Nat.{Ordering, min}
use Prim.Native.String.{◌++◌, compare}
use backlog_server.Prelude.{
  is_some, ℕ, ◌+◌, ◌-◌, ◌*◌, ◌%◌, String, Bool, true, false, not, ◌&&◌, ◌||◌, Option, none, some,
  List, [], ◌∷◌, ◌==◌, leb, length, if◌then◌else◌, is_empty, any_by, mem_text, to_upper, to_lower,
  contains,
}
use backlog_server.Prelude.Int.{ℤ, pos, negsuc, ◌-ℤ◌, ltb_ℤ}
use backlog_server.Float.{Float64, FloatOps}
use backlog_server.Scoring.Types.{TaskScore, Stage, Task}
use backlog_server.Scoring.Penalty.{agent_type_penalty}
use backlog_server.Scoring.DetectType.{has_keyword, detect_type}

-- Days are counted from a Sunday, so that day `d` has the weekday `d % 7` of package time.
unfoldable pub next_friday : ℕ → ℕ
next_friday today =
    let py = (today % 7 + 6) % 7 in
    -- (4 - py + 7) % 7, with py < 7
    today + (4 + 7 - py) % 7

-- parseReleaseDays, of a date as time.Parse reads it; `none` is a text that is no date.
unfoldable pub parse_release_days : ℕ → Option ℕ → ℤ
parse_release_days today none = pos 30
parse_release_days today (some rel) =
    let days = pos rel -ℤ pos today in if ltb_ℤ days (pos 0) then pos 0 else days

-- `releaseDate` with its default; `parse_date` is time.Parse, as a day.
unfoldable pub days_to_release : ℕ → (String → Option ℕ) → String → ℤ
unfolding next_friday parse_release_days
days_to_release today parse_date release_date =
    parse_release_days today
      (if is_empty release_date then some (next_friday today) else parse_date release_date)

-- a >= b, byte by byte
unfoldable pub text_ge : String → String → Bool
text_ge a b = elim (compare a b) [ Ordering.lt ↦ false | _ ↦ true ]

pub record BaseEntry : Type 0 where
  pub base : Float64
  pub impact_points : Float64
  pub subjective : Float64
  pub release_bonus : ℤ
  pub broken_bonus : ℕ
  pub consumers_bonus : ℕ
  pub has_spec : Bool
  pub is_blocked : Bool
  pub task_type : String

unfoldable pub has_spec : Task → Bool
has_spec t = not (is_empty t.task_plan) || any_by (λ r. contains (to_upper r) "SPEC") t.references

-- *capStatus >= 2
at_least_two : Option ℤ → Bool
at_least_two none = false
at_least_two (some (pos n)) = leb 2 n
at_least_two (some (negsuc n)) = false

cap_status : (String → Option ℤ) → Option String → Option ℤ
cap_status lookup none = none
cap_status lookup (some id) = lookup id

dial : Option TaskScore → Option ℤ
dial none = none
dial (some s) = s.impact

stage_owner : String → List Stage → String
stage_owner owner [] = owner
stage_owner owner (s ∷ ss) =
    if not (s.status == "DONE") && not (s.status == "BLOCKED")
    then (if is_empty s.owner then owner else to_lower s.owner)
    else stage_owner owner ss

-- The owner whose penalty counts: that of the first open stage, if it has one.
unfoldable pub scored_owner : Task → String
unfolding stage_owner
scored_owner t =
    let owner = to_lower t.owner in
    stage_owner (if is_empty owner then "unknown" else owner) t.stages

abbrev pub broken_keywords : List String
broken_keywords =
    "не открывается" ∷ "не работает" ∷ "crash" ∷ "critical fix" ∷ "missing" ∷ "broken" ∷ "сломан"
    ∷ "corrupt" ∷ "блокирует" ∷ []

unfoldable pub is_sprint : Task → Bool
is_sprint t =
    contains t.session "meta-50"
    || text_ge t.created "2026-03-17"
    || t.status == "TODO"
    || t.status == "REOPENED"
    || t.status == "IN_PROGRESS"

unfoldable pub release_bonus : ℤ → Task → ℤ
release_bonus days t =
    if is_sprint t then (let b = pos 5 -ℤ days in if ltb_ℤ b (pos 0) then pos 0 else b) else pos 0

unfoldable pub broken_bonus : Task → ℕ
broken_bonus t =
    if has_keyword (to_lower t.title ++ " " ++ to_lower t.why) broken_keywords then 15 else 0

-- Three for each consumer, 15 at most.
unfoldable pub consumers_bonus : Task → ℕ
consumers_bonus t = let b = length t.consumers * 3 in if leb b 15 then b else 15

module _ (ops : FloatOps) where
  open ops use {add, sub, mul, div, round_to_even, pow10, of_int, decimal}

  unfoldable pub round_half_even : Float64 → ℕ → Float64
  round_half_even x decimals = let mult = pow10 decimals in div (round_to_even (mul x mult)) mult

  abbrev dial_points : Option ℤ → Float64
  dial_points none = decimal 0 0
  dial_points (some impact) = round_half_even (mul (of_int impact) (decimal 4 0)) 1

  unfoldable pub impact_points : (String → Option ℤ) → Task → Float64
  unfolding at_least_two cap_status dial
  impact_points lookup t =
      let has_client = is_some t.client_id in
      let has_capability = at_least_two (cap_status lookup t.capability_id) in
      if has_client && has_capability
      then decimal 40 0
      else if has_client
      then decimal 28 0
      else if has_capability
      then decimal 20 0
      else dial_points (dial t.score)

  unfoldable pub subjective : Task → Float64
  subjective t =
      let penalty = decimal (agent_type_penalty (scored_owner t) (detect_type t)) 1 in
      round_half_even (div (decimal 20 0) (add (decimal 1 0) penalty)) 1

  -- The body of step 1's loop.
  unfoldable pub base_entry : (String → Option ℤ) → ℤ → Task → BaseEntry
  base_entry lookup days t =
      let spec = has_spec t in
      let impact = impact_points lookup t in
      let agent = subjective t in
      let release = release_bonus days t in
      let broken = broken_bonus t in
      let consumers = consumers_bonus t in
      let start = if spec then add (decimal 0 0) (decimal 5 0) else decimal 0 0 in
      record {
        base =
            add
              (add (add (add (add (add start impact) agent) (of_int release)) (of_int (pos broken)))
                (of_int (pos consumers)))
              (of_int t.priority_override);
        impact_points = impact;
        subjective = agent;
        release_bonus = release;
        broken_bonus = broken;
        consumers_bonus = consumers;
        has_spec = spec;
        is_blocked = not (leb (length t.blocked_by) 0);
        task_type = detect_type t;
      }

-- ===== src/Config/Owners.antt =====
-- internal/config/taskowners.go: rules and their matching. A value of a pattern is what yaml.v3
-- decodes; a Go map is the list of its entries.
pub mod Best
pub mod Suggestions
use backlog_server.Prelude.{
  ℕ, zero, suc, ◌-◌, String, Bool, true, false, not, ◌&&◌, ◌||◌, Option, none, some, List, [], ◌∷◌,
  ◌++◌, map, ◌==◌, ltb, leb, eqb, length, filter_by, any_by, all_by, if◌then◌else◌, is_empty,
  to_lower, contains, equal_fold, mem_text,
}
use backlog_server.Prelude.Int.{ℤ, ltb_ℤ}

-- A text, a list (with its elements that are texts), or anything else.
pub data Value : Type 0 where
  text : String → Value
  items : List (Option String) → Value
  other : Value

pub record OwnerRule : Type 0 where
  pub patterns : List (String × Value)
  pub owner : String
  pub priority : ℤ
  pub required_agents : List String
  pub required_reviews : List String
  pub workflow : String

pub record TaskFacts : Type 0 where
  pub title : String
  pub owner : String
  pub mode : String
  pub status : String
  pub tags : List String
  pub consumers : List String

texts_of : List (Option String) → List String
texts_of [] = []
texts_of (none ∷ vs) = texts_of vs
texts_of (some s ∷ vs) = let rest = texts_of vs in if is_empty s then rest else s ∷ rest

unfoldable pub coerce_string_list : Value → List String
unfolding texts_of
coerce_string_list (text s) = if is_empty s then [] else s ∷ []
coerce_string_list (items vs) = texts_of vs
coerce_string_list other = []

abbrev contains_ci : List String → String → Bool
contains_ci lc s = any_by (λ v. v == to_lower s) lc

one_overlaps : List String → Option String → Bool
one_overlaps lc none = false
one_overlaps lc (some s) = contains_ci lc s

unfoldable pub any_overlap : List String → Value → Bool
unfolding one_overlaps
any_overlap lc (text s) = contains_ci lc s
any_overlap lc (items vs) = any_by (one_overlaps lc) vs
any_overlap lc other = false

abbrev pub lower_list : List String → List String
lower_list ss = map to_lower ss

unfoldable pub equal_ci : String → Value → Bool
equal_ci a (text s) = equal_fold a s
equal_ci a (items vs) = false
equal_ci a other = false

title_matches : String → Value → Bool
title_matches title (text s) = contains (to_lower title) (to_lower s)
title_matches title (items vs) = false
title_matches title other = false

unfoldable pub field_matches : TaskFacts → String → Value → Bool
unfolding any_overlap equal_ci title_matches
field_matches t field expected =
    if field == "tags"
    then any_overlap (lower_list t.tags) expected
    else if field == "consumers"
    then any_overlap (lower_list t.consumers) expected
    else if field == "mode"
    then equal_ci t.mode expected
    else if field == "title_contains"
    then title_matches t.title expected
    else if field == "owner"
    then equal_ci t.owner expected
    else if field == "status"
    then equal_ci t.status expected
    else false

unfoldable pub rule_matches : TaskFacts → OwnerRule → Bool
unfolding field_matches
rule_matches t rule = all_by (λ (p : String × Value). field_matches t p.0 p.1) rule.patterns

-- The `less` of MatchRule; `load` is the capacity that getCap caches, one value for each owner.
unfoldable pub before : (String → ℕ) → OwnerRule → OwnerRule → Bool
before load a b =
    let sa = length a.patterns in
    let sb = length b.patterns in
    if not (eqb sa sb)
    then ltb sb sa
    else if ltb_ℤ b.priority a.priority || ltb_ℤ a.priority b.priority
    then ltb_ℤ b.priority a.priority
    else ltb (load a.owner) (load b.owner)

-- sort.SliceStable
module _ (less : OwnerRule → OwnerRule → Bool) where
  unfoldable pub insert_rule : OwnerRule → List OwnerRule → List OwnerRule
  insert_rule r [] = r ∷ []
  insert_rule r (s ∷ ss) = let rest = insert_rule r ss in if less s r then s ∷ rest else r ∷ s ∷ ss

  unfoldable pub sort_stable : List OwnerRule → List OwnerRule
  unfolding insert_rule
  sort_stable [] = []
  sort_stable (r ∷ rs) = insert_rule r (sort_stable rs)

-- The order in which reparseLocked installs the rules.
unfoldable pub by_specificity : List OwnerRule → List OwnerRule
unfolding sort_stable
by_specificity rs = sort_stable (λ a b. ltb (length b.patterns) (length a.patterns)) rs

abbrev pub first_rule : List OwnerRule → Option OwnerRule
first_rule [] = none
first_rule (r ∷ rs) = some r

unfoldable pub match_rule : (String → ℕ) → List OwnerRule → TaskFacts → Option OwnerRule
unfolding before sort_stable
match_rule load rules t = first_rule (sort_stable (before load) (filter_by (rule_matches t) rules))

-- The loop of SuggestMatches, with `left` more to go; the owners in `seen` are out already.
unfoldable pub suggest_from : TaskFacts → ℕ → List String → List OwnerRule → List String
suggest_from t left seen [] = []
suggest_from t left seen (r ∷ rs) =
    let skip = suggest_from t left seen rs in
    let more = suggest_from t (left - 1) (r.owner ∷ seen) rs in
    if not (rule_matches t r)
    then skip
    else if mem_text r.owner seen
    then skip
    else if leb left 1
    then r.owner ∷ []
    else r.owner ∷ more

unfoldable pub suggest_matches : List OwnerRule → TaskFacts → ℕ → List String
unfolding suggest_from
suggest_matches rules t limit = suggest_from t (if eqb limit 0 then 5 else limit) [] rules

-- ===== src/Signals.antt =====
-- internal/signals/vocab.go: the fields of SignalContext that are read.
use backlog_server.Prelude.{
  String, Bool, true, Option, none, some, List, [], ◌∷◌, if◌then◌else◌, is_empty, mem_text,
}

abbrev known_issue_types : List String
known_issue_types =
    "gap" ∷ "content_decay" ∷ "thin_page" ∷ "competitive" ∷ "keywords_declining" ∷ []

pub record SignalContext : Type 0 where
  pub type : String
  pub issue_type : String

-- IssueType_
unfoldable pub issue_type_of : Option SignalContext → String
issue_type_of none = ""
issue_type_of (some s) = if is_empty s.type then s.issue_type else s.type

unfoldable pub is_known : String → Bool
is_known s = if is_empty s then true else mem_text s known_issue_types

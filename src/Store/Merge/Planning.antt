-- ===== src/Store/Merge/Planning.antt =====
-- store.go: what MergeTasks computes before its transaction.
use Prim.Native.String.{◌++◌, compare}
use Prim.Native.Nat.{Ordering}
use backlog_server.Prelude.{
  ℕ, String, Bool, true, false, not, ◌&&◌, List, [], ◌∷◌, map, concat, ◌==◌, eqb, ltb,
  if◌then◌else◌, mem_text, any_by, filter_by, is_empty, length,
}
use backlog_server.Prelude.Decimal.{decimal}
use backlog_server.Store.Db.{Task}

-- mergeIntSetSortedExclude: the map's keys, sorted.
unfoldable pub insert_int : ℕ → List ℕ → List ℕ
insert_int x [] = x ∷ []
insert_int x (y ∷ ys) =
    let rest = insert_int x ys in
    if eqb x y then y ∷ ys else if ltb x y then x ∷ y ∷ ys else y ∷ rest

unfoldable pub sorted_ints : List ℕ → List ℕ
unfolding insert_int
sorted_ints [] = []
sorted_ints (x ∷ xs) = insert_int x (sorted_ints xs)

unfoldable pub merge_int_set_sorted_exclude : List ℕ → List ℕ → ℕ → List ℕ
unfolding sorted_ints
merge_int_set_sorted_exclude xs ys exclude =
    sorted_ints (filter_by (λ x. not (eqb x exclude)) (concat (xs ∷ ys ∷ [])))

-- mergeStringSetSorted
abbrev pub below : String → String → Bool
below s t = elim (compare s t) [ Ordering.lt ↦ true | _ ↦ false ]

unfoldable pub insert_text : String → List String → List String
insert_text s [] = s ∷ []
insert_text s (t ∷ ts) =
    let rest = insert_text s ts in
    if s == t then t ∷ ts else if below s t then s ∷ t ∷ ts else t ∷ rest

unfoldable pub sorted_texts : List String → List String
unfolding insert_text
sorted_texts [] = []
sorted_texts (s ∷ ss) = insert_text s (sorted_texts ss)

unfoldable pub merge_string_set_sorted : List String → List String → List String
unfolding sorted_texts
merge_string_set_sorted xs ys = sorted_texts (concat (xs ∷ ys ∷ []))

unfoldable pub int_slice_eq : List ℕ → List ℕ → Bool
int_slice_eq [] [] = true
int_slice_eq [] (y ∷ ys) = false
int_slice_eq (x ∷ xs) [] = false
int_slice_eq (x ∷ xs) (y ∷ ys) = eqb x y && int_slice_eq xs ys

string_slice_eq : List String → List String → Bool
string_slice_eq [] [] = true
string_slice_eq [] (y ∷ ys) = false
string_slice_eq (x ∷ xs) [] = false
string_slice_eq (x ∷ xs) (y ∷ ys) = x == y && string_slice_eq xs ys

-- The loops over B's done_when and references: `have` grows with what is appended.
unfoldable pub append_new : List String → List String → List String
append_new have [] = have
append_new have (v ∷ vs) =
    if mem_text v have then append_new have vs else append_new (concat (have ∷ (v ∷ []) ∷ [])) vs

unfoldable pub tag_with : ℕ → List String → List String
tag_with b vs = map (λ v. "(from #" ++ decimal b ++ ") " ++ v) vs

unfoldable pub merged_note : String → String → String
merged_note mine its =
    if is_empty its then mine else if is_empty mine then its else mine ++ "\n" ++ its

-- The blockers of a dependent: B is replaced by A, and what was seen is dropped.
unfoldable pub redirected : ℕ → ℕ → List ℕ → List ℕ → List ℕ
redirected a b seen [] = []
redirected a b seen (v ∷ vs) =
    let target = if eqb v b then a else v in
    if any_by (eqb target) seen
    then redirected a b seen vs
    else target ∷ redirected a b (target ∷ seen) vs

-- `%v` of a slice
spaced : List String → String
spaced [] = ""
spaced (s ∷ []) = s
spaced (s ∷ r ∷ rs) = s ++ " " ++ spaced (r ∷ rs)

shown_texts : List String → String
unfolding spaced
shown_texts ss = "[" ++ spaced ss ++ "]"

shown_ints : List ℕ → String
unfolding shown_texts
shown_ints ns = shown_texts (map decimal ns)

-- A changed field of the absorber, with its values as the audit trail has them.
pub record Change : Type 0 where
  pub field : String
  pub old_value : String
  pub new_value : String

pub record Dependent : Type 0 where
  pub id : ℕ
  pub blocked_by_new : List ℕ
  pub shown_old : String
  pub shown_new : String

pub record Plan : Type 0 where
  pub blocked_by : List ℕ
  pub consumers : List String
  pub done_when : List String
  pub references : List String
  pub tags : List String
  pub note : String
  pub changes : List Change
  pub dependents : List Dependent

unfoldable pub depends_on : ℕ → ℕ → Task → Bool
depends_on a b t = any_by (eqb b) t.blocked_by && not (eqb t.id b) && not (eqb t.id a)

unfoldable pub dependent : ℕ → ℕ → Task → Dependent
unfolding redirected shown_ints
dependent a b t = record {
  id = t.id;
  blocked_by_new = redirected a b [] t.blocked_by;
  shown_old = shown_ints t.blocked_by;
  shown_new = shown_ints (redirected a b [] t.blocked_by);
}

unfoldable pub dependents_of : ℕ → ℕ → List Task → List Dependent
unfolding dependent depends_on
dependents_of a b ts = map (dependent a b) (filter_by (depends_on a b) ts)

changed_if : Bool → String → String → String → List Change
changed_if changed field old new =
    if changed then record { field = field; old_value = old; new_value = new } ∷ [] else []

-- `ta` and `tb` are the rows of GetTask, `ra` and `rb` those whose consumers and tags are read.
unfoldable pub plan_of : ℕ → ℕ → Task → Task → Task → Task → List Dependent → Plan
unfolding merge_int_set_sorted_exclude merge_string_set_sorted int_slice_eq string_slice_eq
    append_new tag_with merged_note changed_if shown_ints shown_texts
plan_of a b ta tb ra rb deps =
    let blockers = merge_int_set_sorted_exclude ta.blocked_by tb.blocked_by a in
    let consumers = merge_string_set_sorted ra.consumers rb.consumers in
    let done_when = append_new ta.done_when (tag_with b tb.done_when) in
    let references = append_new ta.references tb.references in
    let tags = merge_string_set_sorted ra.tags rb.tags in
    let note = merged_note ta.note tb.note in
    record {
      blocked_by = blockers;
      consumers = consumers;
      done_when = done_when;
      references = references;
      tags = tags;
      note = note;
      changes = concat (
          changed_if (not (int_slice_eq blockers ta.blocked_by)) "blocked_by"
            (shown_ints ta.blocked_by) (shown_ints blockers)
          ∷ changed_if (not (string_slice_eq consumers ra.consumers)) "consumers"
              (shown_texts ra.consumers) (shown_texts consumers)
          ∷ changed_if (not (eqb (length done_when) (length ta.done_when))) "done_when"
              (shown_texts ta.done_when) (shown_texts done_when)
          ∷ changed_if (not (eqb (length references) (length ta.references))) "references"
              (shown_texts ta.references) (shown_texts references)
          ∷ changed_if (not (string_slice_eq tags ra.tags)) "tags" (shown_texts ra.tags)
              (shown_texts tags)
          ∷ changed_if (not (note == ta.note)) "note" ta.note note
          ∷ []);
      dependents = deps;
    }

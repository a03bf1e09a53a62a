-- ===== src/Ears.antt =====
-- internal/ears/parser.go. The five regular expressions are matchers over the text in lower case:
-- \s is an ASCII space, `.` any character but a newline, \b an edge of a run of ASCII word characters.
use Prim.Native.Char.{code}
use backlog_server.Prelude.{
  ℕ, String, Bool, true, false, not, ◌&&◌, ◌||◌, Option, none, some, if◌then◌else◌, eqb, leb,
  is_empty, to_lower, trim_space, ◌≡◌, refl,
}

pub data Kind : Type 0 where
  unwanted state event optional ubiquitous non_ears : Kind

abbrev is_white : ℕ → Bool
is_white c = eqb c 9 || eqb c 10 || eqb c 12 || eqb c 13 || eqb c 32

abbrev is_word : ℕ → Bool
is_word c = (leb 48 c && leb c 57) || (leb 65 c && leb c 90) || eqb c 95 || (leb 97 c && leb c 122)

drop_prefix : String → String → Option String
drop_prefix String.[] s = some s
drop_prefix (String.◌∷◌ d t) String.[] = none
drop_prefix (String.◌∷◌ d t) (String.◌∷◌ c s) =
    let rest = drop_prefix t s in if eqb (code c) (code d) then rest else none

begins_no_word : String → Bool
begins_no_word String.[] = true
begins_no_word (String.◌∷◌ c s) = not (is_word (code c))

-- `word\b` at the start of `s`
word_here : String → String → Bool
unfolding drop_prefix begins_no_word
word_here w s = elim (drop_prefix w s) [ none ↦ false | some rest ↦ begins_no_word rest ]

-- `.+\bthen\b`
dots_then : String → Bool
unfolding word_here
dots_then String.[] = false
dots_then (String.◌∷◌ c s) =
    let more = dots_then s in
    not (eqb (code c) 10) && ((not (is_word (code c)) && word_here "then" s) || more)

-- `\s+.+\bthen\b`
spaces_then : String → Bool
unfolding dots_then
spaces_then String.[] = false
spaces_then (String.◌∷◌ c s) =
    let more = spaces_then s in is_white (code c) && (dots_then s || more)

begins_white : String → Bool
begins_white String.[] = false
begins_white (String.◌∷◌ c s) = is_white (code c)

behind : String → (String → Bool) → String → Bool
unfolding drop_prefix
behind w p s = elim (drop_prefix w s) [ none ↦ false | some rest ↦ p rest ]

-- `\bshall\b`, where `edge` tells whether no word character stands before `s`.
shall_from : Bool → String → Bool
unfolding word_here
shall_from edge String.[] = false
shall_from edge (String.◌∷◌ c s) =
    let more = shall_from (not (is_word (code c))) s in
    (edge && word_here "shall" (String.◌∷◌ c s)) || more

unfoldable pub has_shall : String → Bool
unfolding shall_from
has_shall = shall_from true

unfoldable pub kind_of : String → Kind
unfolding behind spaces_then begins_white has_shall
kind_of c =
    if behind "if" spaces_then c
    then unwanted
    else if behind "while" begins_white c
    then state
    else if behind "when" begins_white c
    then event
    else if behind "where" begins_white c
    then optional
    else if has_shall c
    then ubiquitous
    else non_ears

unfoldable pub classify : String → Kind
unfolding kind_of
classify s = kind_of (to_lower (trim_space s))

is_non_ears : Kind → Bool
is_non_ears non_ears = true
is_non_ears _ = false

unfoldable pub matches_ears : String → Bool
unfolding classify is_non_ears has_shall
matches_ears s =
    let c = to_lower (trim_space s) in
    if is_empty c then false else if is_non_ears (classify c) then false else has_shall c

kinds_test : classify " IF the disk is full THEN the server shall stop" ≡ unwanted
unfolding classify to_lower trim_space
kinds_test = refl

missing_shall_test : matches_ears "When the job ends, it should stop" ≡ false
unfolding matches_ears to_lower trim_space
missing_shall_test = refl

-- ===== src/Prelude/Text.antt =====
-- The parts of Go's `strings` and `unicode` that the server calls, over native texts. A text is a
-- list of code points; letter case is that of the ASCII and the basic Cyrillic letters, the two
-- alphabets that the source's own constants are written in.
use Prim.Native.Nat.{ℕ, ◌+◌, ◌-◌, ◌<◌, compare, Ordering}
use Prim.Native.Char.{Char, char, code, nul, IsScalar}
use Prim.Native.String.{String, ◌++◌}
use mathlib.Core.Path.{◌≡◌, refl, sym, ap, ap₂, ◌∙◌}
use mathlib.Core.Logic.{◌⊎◌, inl, inr, dite}
use mathlib.Core.Bool.{Bool, true, false, ◌&&◌, ◌||◌}
use mathlib.Core.List.{List, [], ◌∷◌}
use native.Mathlib.Omega.{arith}
use native.Mathlib.Decide.{dec_lt}
use text.Mathlib.Text.{◌==◌}
use text.Mathlib.TextEquality.{eq_iff}
use backlog_server.Prelude.Tests.{leb, eqb, if◌then◌else◌, Bool-cases}
use backlog_server.Prelude.Lists.{any_by, In, All}

compare-lt : (n m : ℕ) → n < m → compare n m ≡ Ordering.lt
compare-lt n m h = ground arith

pub IsScalar-of_lt : (n : ℕ) → n < 55296 → IsScalar n
IsScalar-of_lt n h = rw (compare-lt n 55296 h) tt

-- The character of a code below the surrogates.
unfoldable pub chr : ℕ → Char
unfolding dec_lt
chr n = dite (dec_lt n 55296) (λ h. char n (IsScalar-of_lt n h)) (λ _. nul)

pub code-chr : (n : ℕ) → n < 55296 → code (chr n) ≡ n
unfolding chr
code-chr n h = ground arith

upper_code : ℕ → ℕ
upper_code n =
    if leb b'a' n && leb n b'z'
    then n - 32
    else if leb 0x430 n && leb n 0x44f
    then n - 32
    else if leb 0x450 n && leb n 0x45f
    then n - 80
    else n

lower_code : ℕ → ℕ
lower_code n =
    if leb b'A' n && leb n b'Z'
    then n + 32
    else if leb 0x410 n && leb n 0x42f
    then n + 32
    else if leb 0x400 n && leb n 0x40f
    then n + 80
    else n

-- strings.Map, for a mapping that moves only letters below the surrogates
map_char : (ℕ → ℕ) → Char → Char
map_char f c = if eqb (f (code c)) (code c) then c else chr (f (code c))

pub map_code : (ℕ → ℕ) → String → String
unfolding map_char
map_code f String.[] = String.[]
map_code f (String.◌∷◌ c s) = String.◌∷◌ (map_char f c) (map_code f s)

-- strings.ToUpper
unfoldable pub to_upper : String → String
unfolding map_code chr upper_code
to_upper s = map_code upper_code s

-- strings.ToLower
unfoldable pub to_lower : String → String
unfolding map_code chr lower_code
to_lower s = map_code lower_code s

upper_code_bounds :
    (n : ℕ)
    → (upper_code (upper_code n) ≡ upper_code n) × ((upper_code n ≡ n) ⊎ (upper_code n < 55296))
unfolding upper_code
upper_code_bounds n = ground arith

eqb_self : (m n : ℕ) → m ≡ n → eqb m n ≡ true
eqb_self m n h = ground arith

upper_char_idem : (c : Char) → map_char upper_code (map_char upper_code c) ≡ map_char upper_code c
unfolding map_char
upper_char_idem c = elim (Bool-cases (eqb (upper_code (code c)) (code c))) [
  | inl e ↦ rw e (rw e)
  | inr d ↦ rw d (rw (eqb_self _ _ (moved (upper_code_bounds (code c)).1 d)))
]
  where
    moved :
        ((upper_code (code c) ≡ code c) ⊎ (upper_code (code c) < 55296))
        → eqb (upper_code (code c)) (code c) ≡ false
        → upper_code (code (chr (upper_code (code c)))) ≡ code (chr (upper_code (code c)))
    moved (inl e) d = absurd (ground arith)
    moved (inr small) d =
        let spelled = code-chr (upper_code (code c)) small in
        ap upper_code spelled ∙ (upper_code_bounds (code c)).0 ∙ sym spelled

pub to_upper_idem : (s : String) → to_upper (to_upper s) ≡ to_upper s
unfolding to_upper map_code
to_upper_idem String.[] = refl
to_upper_idem (String.◌∷◌ c s) = ap₂ String.◌∷◌ (upper_char_idem c) (to_upper_idem s)

-- unicode.IsSpace
is_space : ℕ → Bool
is_space n =
    (leb 9 n && leb n 13)
    || eqb n 32
    || eqb n 0x85
    || eqb n 0xa0
    || eqb n 0x1680
    || (leb 0x2000 n && leb n 0x200a)
    || eqb n 0x2028
    || eqb n 0x2029
    || eqb n 0x202f
    || eqb n 0x205f
    || eqb n 0x3000

trim_left : (ℕ → Bool) → String → String
trim_left cut String.[] = String.[]
trim_left cut (String.◌∷◌ c s) =
    let rest = trim_left cut s in if cut (code c) then rest else String.◌∷◌ c s

abbrev pub is_empty : String → Bool
is_empty String.[] = true
is_empty (String.◌∷◌ c s) = false

pub trim_right : (ℕ → Bool) → String → String
trim_right cut String.[] = String.[]
trim_right cut (String.◌∷◌ c s) =
    let rest = trim_right cut s in
    if is_empty rest && cut (code c) then String.[] else String.◌∷◌ c rest

-- strings.TrimFunc
unfoldable pub trim : (ℕ → Bool) → String → String
unfolding trim_left trim_right
trim cut s = trim_right cut (trim_left cut s)

-- strings.TrimSpace
unfoldable pub trim_space : String → String
unfolding trim is_space
trim_space s = trim is_space s

-- strings.EqualFold, for the two alphabets above
unfoldable pub equal_fold : String → String → Bool
unfolding to_lower
equal_fold s t = to_lower s == to_lower t

has_prefix : String → String → Bool
has_prefix s String.[] = true
has_prefix String.[] (String.◌∷◌ d t) = false
has_prefix (String.◌∷◌ c s) (String.◌∷◌ d t) = eqb (code c) (code d) && has_prefix s t

-- strings.Contains
unfoldable pub contains : String → String → Bool
unfolding has_prefix
contains String.[] t = is_empty t
contains (String.◌∷◌ c s) t = has_prefix (String.◌∷◌ c s) t || contains s t

-- A Go map[string]bool whose values are all true: the texts that it holds.
unfoldable pub mem_text : String → List String → Bool
mem_text s ts = any_by (λ t. s == t) ts

pub eq_of_==_true : (s t : String) → (s == t) ≡ true → s ≡ t
eq_of_==_true s t h = (eq_iff s t).0 h

-- The texts of a table, as equations.
pub In-of_mem_text : (s : String) (ts : List String) → mem_text s ts ≡ true → In s ts
unfolding mem_text
In-of_mem_text s [] h = cc
In-of_mem_text s (t ∷ ts) h = elim (Bool-cases (s == t)) [
  | inl e ↦ inl (sym (eq_of_==_true s t e))
  | inr n ↦ inr (In-of_mem_text s ts (rw n at h))
]

-- strings.Join, with a comma
unfoldable pub join : List String → String
join [] = ""
join (s ∷ []) = s
join (s ∷ r ∷ rs) = s ++ ", " ++ join (r ∷ rs)

-- A text is in a list, or differs from each of its elements.
pub listed_or_not : (s : String) (ts : List String) → In s ts ⊎ All (λ t. (s == t) ≡ false) ts
listed_or_not s [] = inr tt
listed_or_not s (t ∷ ts) = elim (Bool-cases (s == t)) [
  | inl e ↦ inl (inl (sym (eq_of_==_true s t e)))
  | inr n ↦ elim (listed_or_not s ts) [ inl i ↦ inl (inr i) | inr h ↦ inr (n, h) ]
]

upper_test : to_upper (trim_space "  in_progress тест\n") ≡ "IN_PROGRESS ТЕСТ"
unfolding to_upper trim_space
upper_test = refl

contains_test : contains "planning: x" "ning" ≡ true
unfolding contains
contains_test = refl

cons_to_first : Char → List String → List String
cons_to_first c [] = String.◌∷◌ c String.[] ∷ []
cons_to_first c (s ∷ ss) = String.◌∷◌ c s ∷ ss

-- strings.Split, by a separator of one character
unfoldable pub split : ℕ → String → List String
unfolding cons_to_first
split sep String.[] = String.[] ∷ []
split sep (String.◌∷◌ c s) =
    let rest = split sep s in if eqb (code c) sep then String.[] ∷ rest else cons_to_first c rest

split_test : split b',' "a,bc,,d" ≡ "a" ∷ "bc" ∷ "" ∷ "d" ∷ []
unfolding split
split_test = refl

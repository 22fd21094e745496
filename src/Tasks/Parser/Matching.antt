-- ===== src/Tasks/Parser/Matching.antt =====
-- ufoundry/tasks/parser.py: its regular expressions and text methods, on texts whose digits,
-- letters and words are those of ASCII.
use ufoundry.Base.{
  ℕ, ◌+◌, Bool, true, not, ◌&&◌, ◌||◌, Option, none, some, List, [], ◌∷◌, ◌++◌, reverse, Text,
  codes, text_eq, eqb, leb, if◌then◌else◌, is_space, lstrip, lower, contains, any, starts_with,
}

abbrev pub is_digit : ℕ → Bool
is_digit c = leb 48 c && leb c 57

abbrev pub is_letter : ℕ → Bool
is_letter c = leb 65 c && leb c 90 || leb 97 c && leb c 122

-- \w
abbrev pub is_word_char : ℕ → Bool
is_word_char c = is_digit c || is_letter c || eqb c 95

-- The longest beginning of characters that pass the test, and the rest.
unfoldable pub break_off : (ℕ → Bool) → Text → Text × Text
break_off test [] = ([], [])
break_off test (c ∷ s) =
    let (front, rest) = break_off test s in if test c then (c ∷ front, rest) else ([], c ∷ s)

-- .+ at the front, empty where it does not match
unfoldable pub line_of : Text → Text
unfolding break_off
line_of s = (break_off (λ c. not (eqb c 10)) s).0

-- \s+(?P<prompt>.+), empty where it does not match
unfoldable pub prompt_after : Text → Text
unfolding line_of
prompt_after [] = []
prompt_after (c ∷ s) = if is_space c then line_of (lstrip s) else []

-- :\d{2} behind the digits that were read
colon_minutes : Text → Text → Option (Text × Text)
colon_minutes hours (c ∷ d ∷ e ∷ rest) =
    if eqb c 58 && is_digit d && is_digit e then some (hours ++ c ∷ d ∷ e ∷ [], rest) else none
colon_minutes hours s = none

-- \d{1,2}:\d{2} at the front, and the rest
unfoldable pub read_hhmm : Text → Option (Text × Text)
unfolding colon_minutes
read_hhmm (c ∷ d ∷ s) =
    if not (is_digit c)
    then none
    else if is_digit d
    then colon_minutes (c ∷ d ∷ []) s
    else colon_minutes (c ∷ []) (d ∷ s)
read_hhmm s = none

abbrev at_boundary : Text → Bool
at_boundary [] = true
at_boundary (c ∷ s) = not (is_word_char c)

ends_word : Option (Text × Text) → Option Text
ends_word none = none
ends_word (some (time, rest)) = if at_boundary rest then some time else none

-- re.search of \b(\d{1,2}:\d{2})\b; the flag tells that no character of a word stands before.
search_hhmm : Bool → Text → Option Text
unfolding ends_word read_hhmm
search_hhmm boundary [] = none
search_hhmm boundary (c ∷ s) =
    let later = search_hhmm (not (is_word_char c)) s in
    elim (if boundary then ends_word (read_hhmm (c ∷ s)) else none) [
      | none ↦ later
      | some time ↦ some time
    ]

unfoldable pub extract_hhmm : Text → Option Text
unfolding search_hhmm
extract_hhmm s = search_hhmm true s

abbrev pub day_names : List Text
day_names =
    codes "mon"
    ∷ codes "monday"
    ∷ codes "tue"
    ∷ codes "tuesday"
    ∷ codes "wed"
    ∷ codes "wednesday"
    ∷ codes "thu"
    ∷ codes "thursday"
    ∷ codes "fri"
    ∷ codes "friday"
    ∷ codes "sat"
    ∷ codes "saturday"
    ∷ codes "sun"
    ∷ codes "sunday"
    ∷ []

-- A whole word that names a day; the match is put into small letters.
search_day : Bool → Text → Option Text
unfolding break_off
search_day boundary [] = none
search_day boundary (c ∷ s) =
    let later = search_day (not (is_word_char c)) s in
    let word = lower (break_off is_word_char (c ∷ s)).0 in
    if boundary && contains day_names word then some word else later

unfoldable pub extract_day_of_week : Text → Option Text
unfolding search_day
extract_day_of_week s = search_day true s

lstrip_of : Text → Text → Text
lstrip_of chars [] = []
lstrip_of chars (c ∷ s) =
    let rest = lstrip_of chars s in if any (λ d. eqb d c) chars then rest else c ∷ s

-- s.strip(chars)
unfoldable pub strip_of : Text → Text → Text
unfolding lstrip_of
strip_of chars s = reverse (lstrip_of chars (reverse (lstrip_of chars s)))

-- s.find(t), none for -1
unfoldable pub find : Text → Text → Option ℕ
find t [] = if starts_with [] t then some 0 else none
find t (c ∷ s) =
    let later = find t s in
    if starts_with (c ∷ s) t then some 0 else elim later [ none ↦ none | some n ↦ some (n + 1) ]

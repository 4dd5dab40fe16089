-- ===== src/Instrument/Directives.antt =====
-- directive-bookkeeper.ts: comments such as "// Stryker disable next-line all: reason". A text is the
-- list of its characters' codes; a name in a comment is of letters of ASCII.
use isep_mutation_levels.Prelude.{
  ℕ, ◌+◌, Bool, true, false, not, ◌&&◌, ◌||◌, List, [], ◌∷◌, map, Option, none, some, any,
  keep_some, leb, ◌==◌, or_else, if◌then◌else◌,
}
use isep_mutation_levels.Differ.Positions.{Text}

infix 50 ◌=t=◌
abbrev pub ◌=t=◌ : Text → Text → Bool
[] =t= [] = true
[] =t= (d ∷ t) = false
(c ∷ s) =t= [] = false
(c ∷ s) =t= (d ∷ t) = (c == d) && (s =t= t)

abbrev between : ℕ → ℕ → ℕ → Bool
between a b c = leb a c && leb c b

abbrev pub is_space : ℕ → Bool
is_space c =
    between 9 13 c
    || (c == 32)
    || (c == 160)
    || (c == 5760)
    || between 8192 8202 c
    || between 8232 8233 c
    || (c == 8239)
    || (c == 8287)
    || (c == 12288)
    || (c == 65279)

abbrev is_line_end : ℕ → Bool
is_line_end c = (c == 10) || (c == 13) || between 8232 8233 c

-- `[a-zA-Z, ]`.
abbrev is_name_char : ℕ → Bool
is_name_char c = between 97 122 c || between 65 90 c || (c == 44) || (c == 32)

abbrev span : (ℕ → Bool) → Text → Text × Text
span p [] = ([], [])
span p (c ∷ text) = let (a, b) = span p text in if p c then (c ∷ a, b) else ([], c ∷ text)

abbrev pub trim_start : Text → Text
trim_start [] = []
trim_start (c ∷ text) = let rest = trim_start text in if is_space c then rest else c ∷ text

abbrev pub trim_end : Text → Text
trim_end [] = []
trim_end (c ∷ text) = elim (trim_end text) [
  | [] ↦ if is_space c then [] else c ∷ []
  | d ∷ rest ↦ c ∷ d ∷ rest
]

unfoldable pub trim : Text → Text
trim text = trim_end (trim_start text)

abbrev pub to_lower : Text → Text
to_lower text = map (λ c. if between 65 90 c then c + 32 else c) text

-- `mutators.split(',')`.
abbrev pub split_commas : Text → List Text
split_commas [] = [] ∷ []
split_commas (c ∷ text) = elim (split_commas text) [
  | [] ↦ []
  | first ∷ rest ↦ if c == 44 then [] ∷ first ∷ rest else (c ∷ first) ∷ rest
]

abbrev strip : Text → Text → Option Text
strip [] text = some text
strip (c ∷ prefix) [] = none
strip (c ∷ prefix) (d ∷ text) = let rest = strip prefix text in if c == d then rest else none

pub data DirectiveType : Type 0 where
  disable restore : DirectiveType

-- The groups of the match.
pub record Match : Type 0 where
  pub directive_type : DirectiveType
  pub next_line : Bool
  pub mutators : Text
  pub reason : Option Text

abbrev stryker_word : Text
stryker_word = b'S' ∷ b't' ∷ b'r' ∷ b'y' ∷ b'k' ∷ b'e' ∷ b'r' ∷ b' ' ∷ []

abbrev disable_word : Text
disable_word = b'd' ∷ b'i' ∷ b's' ∷ b'a' ∷ b'b' ∷ b'l' ∷ b'e' ∷ []

abbrev restore_word : Text
restore_word = b'r' ∷ b'e' ∷ b's' ∷ b't' ∷ b'o' ∷ b'r' ∷ b'e' ∷ []

abbrev next_line_word : Text
next_line_word = b' ' ∷ b'n' ∷ b'e' ∷ b'x' ∷ b't' ∷ b'-' ∷ b'l' ∷ b'i' ∷ b'n' ∷ b'e' ∷ []

abbrev pub all_word : Text
all_word = b'a' ∷ b'l' ∷ b'l' ∷ []

abbrev default_reason : Text
default_reason =
    b'I' ∷ b'g' ∷ b'n' ∷ b'o' ∷ b'r' ∷ b'e' ∷ b'd' ∷ b' ' ∷ b'u' ∷ b's' ∷ b'i' ∷ b'n' ∷ b'g' ∷ b' '
    ∷ b'a' ∷ b' ' ∷ b'c' ∷ b'o' ∷ b'm' ∷ b'm' ∷ b'e' ∷ b'n' ∷ b't' ∷ []

abbrev names_of : Text → Option (Text × Text)
names_of text = elim (strip (b' ' ∷ []) text) [
  | none ↦ none
  | some rest ↦ elim (span is_name_char rest).0 [
    | [] ↦ none
    | c ∷ names ↦ some (c ∷ names, (span is_name_char rest).1)
  ]
]

abbrev reason_of : Text → Option Text
reason_of text = elim (strip (b':' ∷ []) text) [
  | none ↦ none
  | some rest ↦ elim (span (λ c. not (is_line_end c)) rest).0 [ [] ↦ none | c ∷ r ↦ some (c ∷ r) ]
]

abbrev with_names : DirectiveType → Bool → Option (Text × Text) → Option Match
with_names type next_line none = none
with_names type next_line (some (names, rest)) = some (record {
  directive_type = type;
  next_line = next_line;
  mutators = names;
  reason = reason_of rest;
})

-- The scope is optional, and given up where no names follow it.
abbrev scope_of : DirectiveType → Text → Option Match
scope_of type text = elim (strip next_line_word text) [
  | none ↦ with_names type false (names_of text)
  | some rest ↦ elim (names_of rest) [
    | some found ↦ with_names type true (some found)
    | none ↦ with_names type false (names_of text)
  ]
]

abbrev type_of : Text → Option Match
type_of text = elim (strip disable_word text) [
  | some rest ↦ scope_of disable rest
  | none ↦ elim (strip restore_word text) [ some rest ↦ scope_of restore rest | none ↦ none ]
]

abbrev after_space : Text → Text
after_space [] = []
after_space (c ∷ text) = if is_space c then text else c ∷ text

-- `strykerCommentDirectiveRegex.exec`.
unfoldable pub directive_of : Text → Option Match
directive_of comment = elim (strip stryker_word (after_space comment)) [
  | none ↦ none
  | some rest ↦ type_of rest
]

-- `IgnoreRule`, which is a `RestoreRule` with no reason, and `rootRule`.
pub data Rule : Type 0 where
  root_rule : Rule
  ignore_rule :
      (mutator_names : List Text)
      → (line : Option ℕ) → (ignore_reason : Option Text) → (previous_rule : Rule) → Rule

abbrev pub matches : List Text → Option ℕ → Text → ℕ → Bool
matches names rule_line mutator_name line =
    elim rule_line [ none ↦ true | some l ↦ l == line ]
    && (any (λ n. n =t= mutator_name) names || any (λ n. n =t= all_word) names)

unfoldable pub rule_reason : Rule → Text → ℕ → Option Text
rule_reason root_rule name line = none
rule_reason (ignore_rule names rule_line reason previous) name line =
    let before = rule_reason previous name line in
    if matches names rule_line name line then reason else before

abbrev pub names_in : Match → List Text
names_in m = map (λ n. to_lower (trim n)) (split_commas m.mutators)

abbrev pub line_in : ℕ → Match → Option ℕ
line_in line m = if m.next_line then some line else none

unfoldable pub verdict : Match → Option Text
unfolding trim
verdict m = elim m.directive_type [
  | disable ↦ some (trim (or_else m.reason default_reason))
  | restore ↦ none
]

-- The directives in the comments before a node on the line.
unfoldable pub process_matches : (line : ℕ) → List Match → Rule → Rule
unfolding verdict
process_matches line [] rule = rule
process_matches line (m ∷ ms) rule =
    process_matches line ms (ignore_rule (names_in m) (line_in line m) (verdict m) rule)

unfoldable pub process_stryker_directives :
    (line : ℕ) → (leading_comments : List Text) → Rule → Rule
unfolding process_matches directive_of
process_stryker_directives line comments rule =
    process_matches line (keep_some directive_of comments) rule

unfoldable pub find_ignore_reason : Rule → (line : ℕ) → (mutator_name : Text) → Option Text
unfolding rule_reason
find_ignore_reason rule line name = rule_reason rule (to_lower name) line

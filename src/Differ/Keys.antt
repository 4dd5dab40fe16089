-- ===== src/Differ/Keys.antt =====
-- incremental-differ.ts: the texts that identify a mutant or a test across reports, and how the
-- language prints the numbers in them.
use isep_mutation_levels.Prelude.{
  ◌≡◌, ◌<◌, arith, inl, inr, Bool-cases, ℕ, zero, suc, ◌+◌, ◌/◌, ◌%◌, String, List, [], ◌∷◌, Option,
  none, some, ltb, or_else, if◌then◌else◌,
}
use Prim.Native.String.{◌++◌ as text_append}
use isep_mutation_levels.Prelude.Int.{ℤ, pos, negsuc}
use isep_mutation_levels.Differ.Positions.{Position, Location, origin}

infixr 60 ◌+s◌
abbrev pub ◌+s◌ : String → String → String
s +s t = text_append s t

abbrev nth : ℕ → List String → String
nth n [] = ""
nth zero (s ∷ ss) = s
nth (suc n) (s ∷ ss) = nth n ss

abbrev digit : ℕ → String
digit n = nth n ("0" ∷ "1" ∷ "2" ∷ "3" ∷ "4" ∷ "5" ∷ "6" ∷ "7" ∷ "8" ∷ "9" ∷ [])

-- The digits of a number; more fuel than the number is enough.
unfoldable pub print_ℕ : (fuel : ℕ) → ℕ → String
print_ℕ zero n = ""
print_ℕ (suc fuel) n =
    let rest = print_ℕ fuel (n / 10) in if ltb n 10 then digit n else rest +s digit (n % 10)

unfoldable pub print : ℤ → String
unfolding print_ℕ
print (pos n) = print_ℕ (n + 1) n
print (negsuc n) = "-" +s print_ℕ (n + 2) (n + 1)

abbrev pub print_line : Option ℤ → String
print_line none = "Infinity"
print_line (some line) = print line

unfoldable pub mutant_to_identifying_key :
    (mutator_name : String)
    → (replacement : Option String) → Location
    → (relative_file_name : String) → String
unfolding print
mutant_to_identifying_key mutator_name replacement l relative_file_name =
    relative_file_name
    +s "@"
    +s print l.start.line
    +s ":"
    +s print l.start.column
    +s "-"
    +s print_line l.end.line
    +s ":"
    +s print l.end.column
    +s "\n"
    +s mutator_name
    +s ": "
    +s or_else replacement "undefined"

-- A test result has a start position, a test of a report a location.
unfoldable pub test_to_identifying_key :
    (name : String)
    → (start_position location_start : Option Position) → (relative_file_name : String) → String
unfolding print
test_to_identifying_key name start_position location_start relative_file_name =
    let start = or_else start_position (or_else location_start origin) in
    relative_file_name +s "@" +s print start.line +s ":" +s print start.column +s "\n" +s name

none_below : (n : ℕ) → n < 0 → ⊥
none_below n h = omega arith

-- Fuel beyond the number changes nothing.
pub print_ℕ_enough : (f g n : ℕ) → n < f → n < g → print_ℕ f n ≡ print_ℕ g n
unfolding print_ℕ
print_ℕ_enough (suc f) (suc g) n p q = elim (Bool-cases (ltb n 10)) [
  | inl e ↦ rw e
  | inr e ↦ rw (e, print_ℕ_enough f g (n / 10) (ground (arith, e, p)) (ground (arith, e, q)))
]
print_ℕ_enough (suc f) zero n p q = elim (none_below n q) [ ]
print_ℕ_enough zero g n p q = elim (none_below n p) [ ]

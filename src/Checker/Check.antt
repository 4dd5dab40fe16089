-- ===== src/Checker/Check.antt =====
-- typescript-checker.ts: `check`, `group` and `checkErrors`. The compiler is given: what it does with
-- mutants in its state, and how its diagnostics are printed.
use isep_mutation_levels.Prelude.{
  ℕ, zero, suc, String, Bool, true, false, not, List, [], ◌∷◌, ◌++◌, Option, none, some, ◌=s=◌,
  if◌then◌else◌, lookup, insert, any,
}
use isep_mutation_levels.Api.{Mutant}
use isep_mutation_levels.Checker.Graph.{Nodes}
use isep_mutation_levels.Checker.Groups.{node_of}
use isep_mutation_levels.Checker.Related.{get_mutants_with_reference_to_children_or_self}

pub record Diagnostic : Type 0 where
  pub file_name : Option String
  pub message_text : String

pub data CheckError : Type 0 where
  no_corresponding_file : (message_text : String) → CheckError
  unrelated_file : (message_text file_name : String) → CheckError
  out_of_fuel : CheckError

pub data Result {ℓ} (A : Type ℓ) : Type ℓ where
  ok : A → Result A
  err : CheckError → Result A

abbrev pub ErrorsMap : Type 0
ErrorsMap = List (String × List Diagnostic)

-- The errors that are put down to mutants, and the mutants that have to be tested alone.
pub record Blame : Type 0 where
  pub errors_map : ErrorsMap
  pub suspects : List Mutant

abbrev pub has_mutant : String → List Mutant → Bool
has_mutant id ms = any (λ m. m.id =s= id) ms

-- `add` on the set of mutants, which are told apart by their ids.
unfoldable pub add_mutant : Mutant → List Mutant → List Mutant
add_mutant m ms = if has_mutant m.id ms then ms else ms ++ m ∷ []

unfoldable pub add_mutants : List Mutant → List Mutant → List Mutant
unfolding add_mutant
add_mutants [] suspects = suspects
add_mutants (m ∷ ms) suspects = add_mutants ms (add_mutant m suspects)

abbrev pub errors_of : Option (List Diagnostic) → List Diagnostic
errors_of none = []
errors_of (some errors) = errors

unfoldable pub push_error : String → Diagnostic → ErrorsMap → ErrorsMap
push_error id error errors_map =
    insert id (errors_of (lookup id errors_map) ++ error ∷ []) errors_map

-- What one error says about the mutants that are related to it.
unfoldable pub blame_related : (mutants related : List Mutant) → Diagnostic → Blame → Blame
unfolding add_mutants push_error
blame_related mutants [] error b = record b { suspects = add_mutants mutants b.suspects }
blame_related mutants (m ∷ []) error b = record b {
  errors_map = push_error m.id error b.errors_map;
}
blame_related mutants (m ∷ n ∷ rest) error b = record b {
  suspects = add_mutants (m ∷ n ∷ rest) b.suspects;
}

unfoldable pub file_of : Diagnostic → Option String
file_of error = elim error.file_name [
  | none ↦ none
  | some name ↦ if name =s= "" then none else some name
]

-- The loop over the errors.
unfoldable pub blame_errors :
    Nodes → (mutants : List Mutant) → List Diagnostic → Blame → Result Blame
unfolding blame_related get_mutants_with_reference_to_children_or_self file_of
blame_errors nodes mutants [] b = ok b
blame_errors nodes mutants (error ∷ errors) b = elim (file_of error) [
  | none ↦ err (no_corresponding_file error.message_text)
  | some name ↦ elim (lookup name nodes) [
    | none ↦ err (unrelated_file error.message_text name)
    | some node ↦ blame_errors nodes mutants errors (
        blame_related mutants (get_mutants_with_reference_to_children_or_self nodes name mutants)
          error b)
  ]
]

abbrev pub is_some {ℓ} : {A : Type ℓ} → Option A → Bool
is_some none = false
is_some (some _) = true

-- A single mutant is to blame for every error.
abbrev pub only : List Mutant → List Diagnostic → Option Mutant
only (m ∷ []) (e ∷ es) = some m
only _ _ = none

-- The depth of the recursion: a group, and its mutants alone.
abbrev pub max_depth : ℕ
max_depth = 2

module _ {C : Type 0} (compile : List Mutant → C → List Diagnostic × C) (nodes : Nodes) where
  abbrev pub Answer : Type 0
  Answer = Result ErrorsMap × C

  -- An error ends the loop.
  abbrev pub bind : Answer → (ErrorsMap → C → Answer) → Answer
  bind (ok errors_map, c) f = f errors_map c
  bind (err e, c) f = (err e, c)

  -- Back to the original files, if a mutant has to be tested alone.
  abbrev pub reset : List Mutant → C → C
  reset [] c = c
  reset (m ∷ ms) c = (compile [] c).1

  -- The loop over the suspects; `one` is the call for a single mutant.
  unfoldable pub check_each :
      (one : Mutant → ErrorsMap → C → Answer) → List Mutant → ErrorsMap → C → Answer
  check_each one [] errors_map c = (ok errors_map, c)
  check_each one (m ∷ ms) errors_map c =
      let skipped = check_each one ms errors_map c in
      let checked = bind (one m errors_map c) (check_each one ms) in
      if is_some (lookup m.id errors_map) then skipped else checked

  -- The body behind the compiler's answer; `one` is the recursive call for a single mutant.
  unfoldable pub judge :
      (one : Mutant → ErrorsMap → C → Answer)
      → List Mutant
      → ErrorsMap
      → List Diagnostic × C
      → Answer
  unfolding blame_errors check_each
  judge one mutants errors_map (errors, c) = elim (only mutants errors) [
    | some m ↦ (ok (insert m.id errors errors_map), c)
    | none ↦
        elim (blame_errors nodes mutants errors
          (record { errors_map = errors_map; suspects = [] })) [
            | err e ↦ (err e, c)
            | ok b ↦ check_each one b.suspects b.errors_map (reset b.suspects c)
          ]
  ]

  unfoldable pub check_errors : (fuel : ℕ) → List Mutant → ErrorsMap → C → Answer
  unfolding judge
  check_errors zero mutants errors_map c = (err out_of_fuel, c)
  check_errors (suc fuel) mutants errors_map c =
      judge (λ m em d. check_errors fuel (m ∷ []) em d) mutants errors_map (compile mutants c)

pub data CheckResult : Type 0 where
  passed : CheckResult
  compile_error : (reason : String) → CheckResult

abbrev pub Results : Type 0
Results = List (String × CheckResult)

unfoldable pub all_passed : List Mutant → Results
all_passed [] = []
all_passed (m ∷ ms) = insert m.id passed (all_passed ms)

module _ {C : Type 0} (compile : List Mutant → C → List Diagnostic × C) (nodes : Nodes)
    (create_error_text : List Diagnostic → String) where
  unfoldable pub set_errors : ErrorsMap → Results → Results
  set_errors [] results = results
  set_errors ((id, errors) ∷ rest) results =
      set_errors rest (insert id (compile_error (create_error_text errors)) results)

  abbrev pub is_outside : Mutant → Bool
  is_outside m = not (is_some (lookup (node_of m) nodes))

  abbrev pub first_is_outside : List Mutant → Bool
  first_is_outside [] = false
  first_is_outside (m ∷ ms) = is_outside m

  abbrev pub with_errors : Results → Result ErrorsMap × C → Result Results × C
  with_errors results (ok errors_map, c) = (ok (set_errors errors_map results), c)
  with_errors results (err e, c) = (err e, c)

  -- For a group, which has at least one mutant.
  unfoldable pub check : List Mutant → C → Result Results × C
  unfolding check_errors all_passed set_errors
  check mutants c =
      if first_is_outside mutants
      then (ok (all_passed mutants), c)
      else with_errors (all_passed mutants) (check_errors compile nodes max_depth mutants [] c)

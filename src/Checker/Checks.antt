-- ===== src/Checker/Checks.antt =====
-- The project of the other samples, checked: a group whose error has one related mutant, or none.
use isep_mutation_levels.Prelude.{
  ℕ, ◌≡◌, refl, subst, ap, String, true, false, not, keep, List, [], ◌∷◌, ◌++◌, Option, none, some,
  ◌=s=◌, if◌then◌else◌, arith, eq_iff,
}
use isep_mutation_levels.Api.{Mutant}
use isep_mutation_levels.Differ.Positions.{Text, Location}
use isep_mutation_levels.Instrument.Collector.{codes}
use isep_mutation_levels.Checker.Graph.{get_all_child_references_including_self}
use isep_mutation_levels.Checker.Groups.{node_of}
use isep_mutation_levels.Checker.Related.{get_mutants_with_reference_to_children_or_self}
use isep_mutation_levels.Checker.Check.{
  Diagnostic, no_corresponding_file, ok, err, passed, compile_error, check, check_errors, max_depth,
  file_of, has_mutant,
}
use isep_mutation_levels.Checker.Blame.{as_entry}
use isep_mutation_levels.Checker.Suspects.{unseen}
use isep_mutation_levels.Checker.Alone.{Settled, single}
use isep_mutation_levels.Checker.Judgement.{check_errors-single, check_errors-first_bad}
use isep_mutation_levels.Checker.Verdicts.{verdict, check_errors-verdict}
use isep_mutation_levels.Checker.Check.{judge}
use isep_mutation_levels.Checker.Files.{ScriptFile, Ended, Compiler, compile_files}
use isep_mutation_levels.Checker.Rewritten.{if_some}
use isep_mutation_levels.Checker.Restored.{IsKept, AllKept}
use isep_mutation_levels.Checker.Watched.{content_of, original_text_of, compile_files-back}
use isep_mutation_levels.Checker.Imports.{SourceFiles}
use isep_mutation_levels.Checker.Grouping.{group, Grouped, group-Grouped}
use isep_mutation_levels.Checker.Samples.{project, mutants, mutant_in}

-- What the samples compute with.
program : Unit {0}
unfolding check node_of get_all_child_references_including_self compile_files codes
    get_mutants_with_reference_to_children_or_self check_errors group
program = tt

abbrev error_in : Option String → Diagnostic
error_in file = record { file_name = file; message_text = "wrong type" }

-- B and D have a type error each if they are mutated; the compiler keeps no state.
abbrev answers : List Mutant → List Diagnostic
answers [] = []
answers (m ∷ ms) =
    (if m.id =s= "b"
      then error_in (some "B.ts") ∷ []
      else if m.id =s= "d"
      then error_in (some "A.ts") ∷ []
      else [])
    ++ answers ms

abbrev compile : List Mutant → Unit {0} → List Diagnostic × Unit {0}
compile ms c = (answers ms, tt)

abbrev text_of : List Diagnostic → String
text_of errors = "compile error"

-- The error in A may come from any mutant: each is checked alone.
checked : check compile project text_of mutants tt ≡ (
  ok (
      ("d", compile_error "compile error")
      ∷ ("c", passed)
      ∷ ("b", compile_error "compile error")
      ∷ ("a", passed)
      ∷ []),
  tt,
)
unfolding program
checked = refl

check_errors-single_example :
    check_errors compile project 7 mutants [] tt
    ≡ judge compile project (single compile) mutants [] (compile mutants tt)
check_errors-single_example = check_errors-single compile project 5 mutants [] tt

abbrev broken : List Mutant → Unit {0} → List Diagnostic × Unit {0}
broken ms c = (error_in none ∷ [], tt)

check_errors-first_bad_example :
    check_errors broken project 2 mutants [] tt ≡ (err (no_corresponding_file "wrong type"), tt)
unfolding file_of
check_errors-first_bad_example =
    check_errors-first_bad broken project 1 mutants [] tt (no_corresponding_file "wrong type") refl
      refl

abbrev mutant_b : Mutant
mutant_b = mutant_in "b" "B.ts"

other : (m n : Mutant) → (m.id =s= n.id) ≡ false → m.id ≡ n.id → m ≡ n
other m n h e = ground (arith, h, e, eq_iff m.id n.id)

-- A compiler that does not notice the mutants of the check before.
abbrev noticing : List Mutant → List Mutant → List Diagnostic × List Mutant
noticing ms before = (answers (keep (λ m. not (has_mutant m.id before)) ms), ms)

keep-unseen :
    (before ms : List Mutant)
    → unseen before ms ≡ true
    → keep (λ m. not (has_mutant m.id before)) ms ≡ ms
keep-unseen before [] h = refl
keep-unseen before (m ∷ ms) h = ground (arith, keep-unseen before ms)

noticing-answers :
    (ms before : List Mutant) → unseen before ms ≡ true → (noticing ms before).0 ≡ answers ms
noticing-answers ms before h = ap answers (keep-unseen before ms h)

check_errors-verdict_example :
    Settled mutant_b (check_errors noticing project max_depth mutants [] []) (
      as_entry (
        verdict noticing project answers (λ c. c) (λ ms c. refl) noticing-answers mutants mutant_b))
unfolding file_of
check_errors-verdict_example =
    check_errors-verdict noticing project answers (λ c. c) (λ ms c. refl) noticing-answers mutants
      mutant_b []
      (
        other (mutant_in "a" "A.ts") mutant_b refl,
        (
          λ e. refl,
          (
            other (mutant_in "c" "C.ts") mutant_b refl,
            (other (mutant_in "d" "D.ts") mutant_b refl, tt),
          ),
        ),
      )
      refl refl refl

abbrev sources : SourceFiles
sources = ("A.ts", "B.ts" ∷ "lib.ts" ∷ []) ∷ ("B.ts", []) ∷ []

abbrev file_b : ScriptFile
file_b = record {
  content = codes "true;";
  original_content = codes "true;";
  source_file = none;
  is_watched = true;
}

abbrev start : Compiler
start = record { fs = λ name. if name =s= "B.ts" then some file_b else none; last_mutants = [] }

start-AllKept : AllKept start
start-AllKept name file h =
    subst (IsKept [] name) (if_some (name =s= "B.ts") file_b file h) (refl, λ e. refl)

abbrev offsets : Text → Location → ℕ × ℕ
offsets text location = (0, 4)

compiled :
    content_of ((compile_files offsets (mutant_b ∷ []) start).1.fs "B.ts") ≡ some (codes "false;")
unfolding program
compiled = refl

-- The file of the second mutant has no watcher.
abbrev half_watched : Compiler
half_watched = record start {
  fs = λ name.
      if name =s= "A.ts" then some (record file_b { is_watched = false }) else start.fs name;
}

abbrev stopped : Ended Compiler
stopped = compile_files offsets (mutant_b ∷ mutant_in "a" "A.ts" ∷ []) half_watched

-- The exception leaves the first mutant in its file, and the next check does not take it out.
exception_leaves_mutant :
    (stopped.0 ≡ false)
    × (stopped.1.last_mutants ≡ [])
    × (content_of (stopped.1.fs "B.ts") ≡ some (codes "false;"))
    × (content_of ((compile_files offsets [] stopped.1).1.fs "B.ts") ≡ some (codes "false;"))
unfolding program
exception_leaves_mutant = (refl, refl, refl, refl)

compile_files-back_example :
    (c' c'' : Compiler) × (compile_files offsets (mutant_b ∷ []) start ≡ (true, c'))
    × (compile_files offsets [] c' ≡ (true, c''))
    × ((name : String) → content_of (c''.fs name) ≡ original_text_of (start.fs name))
unfolding node_of
compile_files-back_example =
    compile_files-back offsets (mutant_b ∷ []) start start-AllKept refl refl

group-Grouped_example : Grouped mutants (group true mutants project)
group-Grouped_example = group-Grouped true mutants project

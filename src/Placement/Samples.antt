-- ===== src/Placement/Samples.antt =====
-- Two mutants on the expression `a`, and a small tree whose mutants move up to a statement.
use isep_mutation_levels.Prelude.{
  ℕ, ◌+◌, ◌≡◌, refl, String, true, false, List, [], ◌∷◌, Option, none, some,
}
use isep_mutation_levels.Syntax.{
  NodePath, nil, cons, identifier, block, switch_case, variable_declaration,
}
use isep_mutation_levels.Placement.Paths.{Babel, name_if_anonymous, is_valid_expression}
use isep_mutation_levels.Placement.Defs.{
  Applied, place_expression, place_statement, place_switch_case, expression_mutant_placer,
  statement_mutant_placer, consequent_of,
}
use isep_mutation_levels.Placement.Meaning.{
  Namespace, Language, normal, own, undefined, run, run_all, cover, is_active,
}
use isep_mutation_levels.Placement.Wrapping.{switched}
use isep_mutation_levels.Placement.Switching.{
  run-place_expression, run-place_statement, run-place_switch_case,
}
use isep_mutation_levels.Placement.Locations.{SourceLocation, entire, should_skip, should_mutate}
use isep_mutation_levels.Placement.Traversal as Traversal
use isep_mutation_levels.Placement.Traversal.{Tree, branch, Placed, transform_babel}
use isep_mutation_levels.Placement.Flow.{flow, transform_babel-flow}
use isep_mutation_levels.Placement.Once.{count_placed, collected, transform_babel-collected}

-- What the samples compute with.
program : Unit {0}
unfolding place_expression run cover is_active name_if_anonymous is_valid_expression transform_babel
program = tt

-- A program whose code consists of names.
abbrev names : Language (Unit {0}) String (Unit {0})
names = record {
  evaluate =
      λ n ns. elim n [ identifier name ↦ (normal (own name), ns) | _ ↦ (normal undefined, ns) ];
  truthy = λ _. true;
  enter = λ declared s. s;
  leave = λ outside inside. inside;
}

abbrev quiet : Babel
quiet = record {
  is_expression = λ _. true;
  is_statement = λ _. false;
  statement_parent = λ _. none;
}

abbrev path_a : NodePath
path_a = record { node = identifier "a"; ancestors = [] }

abbrev two : Applied
two = ("0", identifier "b") ∷ ("1", identifier "c") ∷ []

abbrev space : Option String → Namespace (Unit {0})
space active = record {
  active_mutant = active;
  hit_count = some 0;
  hit_limit = some 5;
  current_test_id = none;
  static = [];
  per_test = [];
  program = tt;
}

first_active :
    (run names (place_expression quiet path_a two) (space (some "0"))).0 ≡ normal (own "b")
unfolding program
first_active = refl

none_active :
    run names (place_expression quiet path_a two) (space none)
    ≡ (normal (own "a"), record (space none) { static = ("0", 1) ∷ ("1", 1) ∷ [] })
unfolding program
none_active = refl

run-place_expression_example :
    run names (place_expression quiet path_a two) (space (some "1"))
    ≡ switched names two (run names) (run names (name_if_anonymous quiet path_a)) (space (some "1"))
run-place_expression_example = run-place_expression names quiet path_a two (space (some "1"))

abbrev path_block : NodePath
path_block = record { node = block (cons (identifier "a") nil); ancestors = [] }

run-place_statement_example :
    run names (place_statement path_block two) (space none)
    ≡ switched names two (run names) (run names path_block.node) (space none)
run-place_statement_example = run-place_statement names path_block two (space none) refl refl

-- Names with the scopes that are open: a declaration adds one, and a name has the value of how many
-- there are.
abbrev scopes : Language ℕ ℕ (Unit {0})
scopes = record {
  evaluate = λ n ns. (normal (own ns.program), ns);
  truthy = λ _. true;
  enter = λ declared s. s + 1;
  leave = λ outside inside. outside;
}

-- A block with a declaration runs in a scope, which is closed behind it.
scope_of_block :
    run scopes
      (block (
        cons
          (block (cons (identifier "b") (cons (variable_declaration "let" nil) nil)))
          (cons (identifier "a") nil)))
      (record {
        active_mutant = none;
        hit_count = none;
        hit_limit = none;
        current_test_id = none;
        static = [];
        per_test = [];
        program = 0;
      })
    ≡ (
      normal (own 0),
      (record {
        active_mutant = none;
        hit_count = none;
        hit_limit = none;
        current_test_id = none;
        static = [];
        per_test = [];
        program = 0;
      }),
    )
unfolding program
scope_of_block = refl

abbrev emptied : Applied
emptied = ("0", switch_case nil nil) ∷ []

run-place_switch_case_example :
    run names (place_switch_case nil (cons (identifier "a") nil) emptied) (space (some "0"))
    ≡ switched names emptied
        (λ n. run_all names (consequent_of n) undefined)
        (run names (switch_case nil (cons (identifier "a") nil)))
        (space (some "0"))
run-place_switch_case_example =
    run-place_switch_case names nil (cons (identifier "a") nil) emptied (space (some "0")) refl refl

abbrev span : ℕ → ℕ → SourceLocation
span from to = record {
  start = record { line = from; column = 0 };
  end = record { line = to; column = 0 };
}

-- A statement that holds an expression, and in it a node that can hold no mutants.
abbrev file_tree : Tree
file_tree = branch 0 (span 1 9) false none [] (
    Traversal.cons
      (branch 1 (span 1 9) false (some statement_mutant_placer) ("0" ∷ []) (
        Traversal.cons (branch 2 (span 1 2) false (some expression_mutant_placer) [] Traversal.nil)
          (Traversal.cons (branch 3 (span 2 3) false none ("1" ∷ []) Traversal.nil) (
            Traversal.cons (branch 4 (span 3 4) true none ("2" ∷ []) Traversal.nil)
              Traversal.nil))))
      Traversal.nil)

abbrev file_placed : List Placed
file_placed = record { node = 1; placer = statement_mutant_placer; mutants = "0" ∷ "1" ∷ [] } ∷ []

file_runs : transform_babel (entire true) file_tree ≡ some file_placed
unfolding program
file_runs = refl

transform_babel-flow_example :
    transform_babel (entire true) file_tree ≡ some (flow (entire true) file_tree).0
unfolding should_skip should_mutate
transform_babel-flow_example = transform_babel-flow (entire true) file_tree

transform_babel-collected_example :
    count_placed "1" file_placed ≡ collected (entire true) "1" file_tree
transform_babel-collected_example =
    transform_babel-collected (entire true) file_tree file_placed file_runs "1"

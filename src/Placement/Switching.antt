-- ===== src/Placement/Switching.antt =====
-- What code that the placers of packages/instrumenter/src/mutant-placers have switched does when it runs.
use mathlib.Core.Path.{fun_ext}
use isep_mutation_levels.Prelude.{
  ◌≡◌, refl, ◌∙◌, true, false, not, all, [], ◌∷◌, inl, inr, Bool-cases,
}
use isep_mutation_levels.Syntax.{
  Node, Nodes, NodePath, nil, cons, block, switch_case, conditional, if_statement,
}
use isep_mutation_levels.Placement.Paths.{Babel, name_if_anonymous}
use isep_mutation_levels.Placement.Defs.{
  Applied, ids, mutant_test_expression, mutation_coverage_sequence_expression, wrap_expression,
  wrap_statement, wrap_consequence, place_expression, place_statement, place_switch_case,
  consequent_of, coverage_statement, body_of, is_block,
}
use isep_mutation_levels.Placement.Wrapping.{
  is_none, is_none-nil, false_of_not, switched, run_all_one, run-conditional, run-if_statement,
  run-wrap, runs_switched-switched, run-coverage, run-coverage_statement, run-block, run-block_one,
  run-body_of, switched-agree,
}
use isep_mutation_levels.Placement.Meaning.{
  Namespace, Outcome, Language, undefined, declares, declarations, run, run_all,
}

module _ {S V A : Type 0} (language : Language S V A) where
  -- An expression with any mutants placed on it runs as the mutated expression of its active mutant, with
  -- the hit counted and stopped at the limit. If none of them is active, the mutants are covered and the
  -- original expression (under its name, if it was anonymous) runs.
  pub run-place_expression :
      (babel : Babel) (path : NodePath) (applied : Applied) (ns : Namespace S)
      → run language (place_expression babel path applied) ns
        ≡ switched language applied (run language) (run language (name_if_anonymous babel path)) ns
  unfolding place_expression wrap_expression mutation_coverage_sequence_expression
  run-place_expression babel path applied ns =
      run-wrap language wrap_expression (run language) (λ e. refl)
        (λ id n e. conditional (mutant_test_expression id) n e) (λ id n rest e. refl)
        (run-conditional language) applied _ ns
      ∙ runs_switched-switched language wrap_expression (run language) applied _
          (run language (name_if_anonymous babel path)) ns
          (run-coverage language (ids applied) (cons (name_if_anonymous babel path) nil) ns
            ∙ run_all_one language _ _)

  run-wrap_statement :
      (n : Node) (applied : Applied) (ns : Namespace S)
      → declares n ≡ false
      → all (λ e. not (declares e.1)) applied ≡ true
      → run language
          (wrap_statement applied (block (cons (coverage_statement (ids applied)) (body_of n))))
          ns
        ≡ switched language applied (run language) (run language n) ns
  unfolding wrap_statement
  run-wrap_statement n applied ns still mutated_still =
      let in_block : Node → Namespace S → Outcome V A × Namespace S =
        λ m. run language (block (cons m nil)) in
      run-wrap language wrap_statement in_block (λ e. refl)
        (λ id n e. if_statement (mutant_test_expression id) (block (cons n nil)) (cons e nil))
        (λ id n rest e. refl) (λ id n e ns. run-if_statement language id (cons n nil) e ns) applied
        _ ns
      ∙ runs_switched-switched language wrap_statement in_block applied _ (run language n) ns (
          run-coverage_statement language (ids applied) (body_of n) ns
          ∙ run-body_of language n _ still)
      ∙ switched-agree language (λ m. not (declares m)) in_block (run language) (run language n)
          (λ m h. fun_ext (λ ns. run-block_one language m ns (false_of_not (declares m) h))) applied
          ns mutated_still

  -- Code under a switch declares nothing around it.
  declares-wrap_statement :
      (applied : Applied) (e : Node)
      → declares e ≡ false
      → declares (wrap_statement applied e) ≡ false
  unfolding wrap_statement
  declares-wrap_statement [] e h = h
  declares-wrap_statement ((id, n) ∷ rest) e h = declares-wrap_statement rest _ refl

  -- A statement, a block or not, with any mutants placed on it, runs as the mutated statement of its active
  -- mutant, with the hit counted and stopped at the limit. If none of them is active, the mutants are
  -- covered and the original statement runs. This holds where neither the statement nor a mutated one
  -- declares a name in the scope around it: the switch encloses each of them in a block.
  pub run-place_statement :
      (path : NodePath) (applied : Applied) (ns : Namespace S)
      → declares path.node ≡ false
      → all (λ e. not (declares e.1)) applied ≡ true
      → run language (place_statement path applied) ns
        ≡ switched language applied (run language) (run language path.node) ns
  unfolding place_statement
  run-place_statement path applied ns still mutated_still = elim (Bool-cases (is_block path.node)) [
    | inl whole ↦ rw whole (
        run-block_one language
          (wrap_statement applied
            (block (cons (coverage_statement (ids applied)) (body_of path.node))))
          ns (declares-wrap_statement applied _ refl)
        ∙ run-wrap_statement path.node applied ns still mutated_still)
    | inr inside ↦ rw inside (run-wrap_statement path.node applied ns still mutated_still)
  ]

  -- The consequent of a `case` with any mutants placed on it runs as the mutated consequent of its active
  -- mutant, with the hit counted and stopped at the limit. If none of them is active, the mutants are
  -- covered and the original consequent runs. This holds where neither the consequent nor a mutated one
  -- has a statement that declares a name in the scope of the `switch`: each of them is enclosed in a
  -- block.
  pub run-place_switch_case :
      (test consequent : Nodes) (applied : Applied) (ns : Namespace S)
      → declarations consequent ≡ nil
      → all (λ e. is_none (declarations (consequent_of e.1))) applied ≡ true
      → run language (place_switch_case test consequent applied) ns
        ≡ switched language applied
            (λ n. run_all language (consequent_of n) undefined)
            (run language (switch_case test consequent))
            ns
  unfolding place_switch_case wrap_consequence run
  run-place_switch_case test consequent applied ns still mutated_still =
      let consequence = block (cons (coverage_statement (ids applied)) consequent) in
      run_all_one language (wrap_consequence applied consequence) ns
      ∙ (run-wrap language wrap_consequence (λ n. run language (block (consequent_of n)))
            (λ e. refl)
            (λ id n e.
              if_statement (mutant_test_expression id) (block (consequent_of n)) (cons e nil))
            (λ id n rest e. refl) (λ id n e ns. run-if_statement language id (consequent_of n) e ns)
            applied consequence ns
          ∙ runs_switched-switched language wrap_consequence
              (λ n. run language (block (consequent_of n))) applied consequence
              (run language (switch_case test consequent)) ns
              (run-coverage_statement language (ids applied) consequent ns
                ∙ run-block language consequent _ still)
          ∙ switched-agree language (λ n. is_none (declarations (consequent_of n)))
              (λ n. run language (block (consequent_of n)))
              (λ n. run_all language (consequent_of n) undefined)
              (run language (switch_case test consequent))
              (λ n h. fun_ext (λ ns. run-block language (consequent_of n) ns (is_none-nil _ h)))
              applied ns mutated_still)

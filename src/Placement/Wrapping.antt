-- ===== src/Placement/Wrapping.antt =====
-- What a switch between mutated and original code does when it runs, and a block around code.
use isep_mutation_levels.Prelude.{
  ◌≡◌, refl, ap, ◌∙◌, String, Bool, true, false, not, all, List, [], ◌∷◌, Option, none, some, inl,
  inr, arith, if◌then◌else◌, Bool-cases, Option-cases,
}
use isep_mutation_levels.Syntax.{
  Node, Nodes, nil, cons, call, identifier, plain, sequence, block, conditional, if_statement,
}
use isep_mutation_levels.Placement.Defs.{
  Applied, ids, mutant_test_expression, mutation_coverage_sequence_expression, string_literals,
  cover_mutant_helper, coverage_statement, body_of,
}
use isep_mutation_levels.Placement.Meaning.{
  Namespace, Outcome, Language, normal, abrupt, hit_limit_reached, undefined, bind, is_truthy,
  strings, declares, declarations, scoped, current_test, is_active, is_active_id, count_active_hit,
  cover, run, run_all,
}

-- The node of the mutant that is active, if it is among those at the place. Of mutants with one id it
-- is the last, since that one stands outermost.
abbrev pub switched_to : Option String → Applied → Option Node
switched_to active [] = none
switched_to active ((id, n) ∷ rest) = elim (switched_to active rest) [
  | some later ↦ some later
  | none ↦ if is_active_id active id then some n else none
]

-- The mutated code that runs is one of those that are applied.
switched_to-all :
    (p : Node → Bool) (active : Option String) (applied : Applied) {n : Node}
    → all (λ e. p e.1) applied ≡ true
    → switched_to active applied ≡ some n
    → p n ≡ true
switched_to-all p active [] h e = cc
switched_to-all p active ((id, m) ∷ rest) {n} h e = elim (Option-cases (switched_to active rest)) [
  | inl off ↦ ground (arith, off)
  | inr (later, found) ↦
      switched_to-all p active rest {n = n} (ground arith) (found ∙ (rw found at e))
]

-- No node.
abbrev pub is_none : Nodes → Bool
is_none nil = true
is_none (cons _ _) = false

pub is_none-nil : (ns : Nodes) → is_none ns ≡ true → ns ≡ nil
is_none-nil nil h = refl
is_none-nil (cons n ns) h = ground arith

pub false_of_not : (b : Bool) → not b ≡ true → b ≡ false
false_of_not b h = ground arith

module _ {S V A : Type 0} where
  bind-normal : (r : Outcome V A × Namespace S) → bind r (λ v ns. (normal v, ns)) ≡ r
  bind-normal (normal v, ns) = refl
  bind-normal (abrupt a, ns) = refl
  bind-normal (hit_limit_reached n, ns) = refl

module _ {S V A : Type 0} (language : Language S V A) where
  -- The hit is counted, and the mutated code runs unless there have been too many.
  abbrev pub run_mutated :
      (Namespace S → Outcome V A × Namespace S) → Namespace S → Outcome V A × Namespace S
  run_mutated body ns = bind (count_active_hit ns) (λ _ ns'. body ns')

  -- What the code at a place does: with one of its mutants active, the hit is counted and the mutated
  -- node runs, or the hit limit stops it; else the mutants are covered and the original runs.
  abbrev pub switched :
      Applied
      → (mutated : Node → Namespace S → Outcome V A × Namespace S)
      → (original : Namespace S → Outcome V A × Namespace S) → Namespace S
      → Outcome V A × Namespace S
  switched applied mutated original ns = elim (switched_to ns.active_mutant applied) [
    | some n ↦ run_mutated (mutated n) ns
    | none ↦ original (cover (ids applied) ns)
  ]

  bind-count_active_hit :
      (f g : Namespace S → Outcome V A × Namespace S) (ns : Namespace S)
      → bind (count_active_hit ns) (λ v ns'. if is_truthy language.truthy v then f ns' else g ns')
        ≡ run_mutated f ns
  unfolding count_active_hit
  bind-count_active_hit f g ns = ground arith

  pub choose :
      (id : String) (f g : Namespace S → Outcome V A × Namespace S) (ns : Namespace S)
      → bind (is_active id ns) (λ v ns'. if is_truthy language.truthy v then f ns' else g ns')
        ≡ (if is_active_id ns.active_mutant id then run_mutated f ns else g ns)
  unfolding is_active
  choose id f g ns = elim (Bool-cases (is_active_id ns.active_mutant id)) [
    | inl on ↦ rw on (bind-count_active_hit f g ns)
    | inr off ↦ rw off
  ]

  pub run_all_one :
      (n : Node) (ns : Namespace S) → run_all language (cons n nil) undefined ns ≡ run language n ns
  unfolding run
  run_all_one n ns = bind-normal (run language n ns)

  -- What one mutant makes of the code behind it.
  pub run-conditional :
      (id : String) (n e : Node) (ns : Namespace S)
      → run language (conditional (mutant_test_expression id) n e) ns ≡ (
          if is_active_id ns.active_mutant id
          then run_mutated (run language n) ns
          else run language e ns)
  unfolding run mutant_test_expression
  run-conditional id n e ns = choose id (run language n) (run language e) ns

  pub run-if_statement :
      (id : String) (body : Nodes) (e : Node) (ns : Namespace S)
      → run language (if_statement (mutant_test_expression id) (block body) (cons e nil)) ns ≡ (
          if is_active_id ns.active_mutant id
          then run_mutated (run language (block body)) ns
          else run language e ns)
  unfolding run mutant_test_expression
  run-if_statement id body e ns =
      choose id (run language (block body)) (run_all language (cons e nil) undefined) ns
      ∙ rw (run_all_one e ns)

  -- Code that a switch of this kind has wrapped runs the mutated node of the active mutant, or `e`.
  module _ (wrap : Applied → Node → Node)
      (body : Node → Namespace S → Outcome V A × Namespace S) where
    abbrev runs_switched : Applied → Node → Namespace S → Outcome V A × Namespace S
    runs_switched applied e ns = elim (switched_to ns.active_mutant applied) [
      | some n ↦ run_mutated (body n) ns
      | none ↦ run language e ns
    ]

    pub run-wrap :
        ((e : Node) → wrap [] e ≡ e)
        → (one : String → Node → Node → Node)
        → ((id : String) (n : Node) (rest : Applied) (e : Node)
            → wrap ((id, n) ∷ rest) e ≡ wrap rest (one id n e))
        → ((id : String) (n e : Node) (ns : Namespace S)
            → run language (one id n e) ns ≡ (
                if is_active_id ns.active_mutant id
                then run_mutated (body n) ns
                else run language e ns))
        → (applied : Applied) (e : Node) (ns : Namespace S)
        → run language (wrap applied e) ns ≡ runs_switched applied e ns
    run-wrap at_nil one at_cons runs [] e ns = rw (at_nil e)
    run-wrap at_nil one at_cons runs ((id, n) ∷ rest) e ns =
        rw (at_cons id n rest e, run-wrap at_nil one at_cons runs rest (one id n e) ns)
          (elim (Option-cases (switched_to ns.active_mutant rest)) [
            | inl none_later ↦ rw (none_later, runs_switched) (runs id n e ns ∙ ground arith)
            | inr (later, found) ↦ rw (found, runs_switched) (refl)
          ])

  pub runs_switched-switched :
      (wrap : Applied → Node → Node) (body : Node → Namespace S → Outcome V A × Namespace S)
      (applied : Applied) (e : Node) (original : Namespace S → Outcome V A × Namespace S)
      (ns : Namespace S)
      → run language e ns ≡ original (cover (ids applied) ns)
      → runs_switched wrap body applied e ns ≡ switched applied body original ns
  runs_switched-switched wrap body applied e original ns h =
      elim (Option-cases (switched_to ns.active_mutant applied)) [
        | inl off ↦ rw (off, runs_switched, switched) h
        | inr (n, on) ↦ rw (on, runs_switched, switched) refl
      ]

  strings-string_literals : (mutants : List String) → strings (string_literals mutants) ≡ mutants
  strings-string_literals [] = refl
  strings-string_literals (id ∷ rest) = ap (λ l. id ∷ l) (strings-string_literals rest)

  pub run-coverage :
      (mutants : List String) (rest : Nodes) (ns : Namespace S)
      → run language
          (sequence
            (cons (call plain (identifier cover_mutant_helper) (string_literals mutants)) rest))
          ns
        ≡ run_all language rest undefined (cover mutants ns)
  unfolding run
  run-coverage mutants rest ns =
      ap (λ l. run_all language rest undefined (cover l ns)) (strings-string_literals mutants)

  -- The coverage is counted outside or inside of a scope.
  cover-scoped :
      (mutants : List String) (declared : Nodes) (body : Namespace S → Outcome V A × Namespace S)
      (ns : Namespace S)
      → scoped language declared (λ ns'. body (cover mutants ns')) ns
        ≡ scoped language declared body (cover mutants ns)
  unfolding cover
  cover-scoped mutants nil body ns = refl
  cover-scoped mutants (cons n rest) body ns =
      elim (Option-cases (current_test ns.current_test_id)) [
        | inl e ↦ rw (e, cover)
        | inr (test, e) ↦ rw (e, cover)
      ]

  pub run-coverage_statement :
      (mutants : List String) (rest : Nodes) (ns : Namespace S)
      → run language (block (cons (coverage_statement mutants) rest)) ns
        ≡ run language (block rest) (cover mutants ns)
  unfolding run mutation_coverage_sequence_expression
  run-coverage_statement mutants rest ns =
      ap
        (λ l.
          scoped language (declarations rest) (λ ns'. run_all language rest undefined (cover l ns'))
            ns)
        (strings-string_literals mutants)
      ∙ cover-scoped mutants (declarations rest) (run_all language rest undefined) ns

  -- A block in which nothing is declared runs as its statements.
  pub run-block :
      (body : Nodes) (ns : Namespace S)
      → declarations body ≡ nil
      → run language (block body) ns ≡ run_all language body undefined ns
  unfolding run
  run-block body ns h = rw h

  pub run-block_one :
      (n : Node) (ns : Namespace S)
      → declares n ≡ false
      → run language (block (cons n nil)) ns ≡ run language n ns
  run-block_one n ns h = run-block (cons n nil) ns (rw h) ∙ run_all_one n ns

  pub run-body_of :
      (n : Node) (ns : Namespace S)
      → declares n ≡ false
      → run language (block (body_of n)) ns ≡ run language n ns
  run-body_of (block body) ns h = refl
  run-body_of n ns h = run-block_one n ns h

  -- Two ways to run the mutated nodes, where they agree on those with a property.
  pub switched-agree :
      (p : Node → Bool) (f g : Node → Namespace S → Outcome V A × Namespace S)
      (original : Namespace S → Outcome V A × Namespace S)
      → ((n : Node) → p n ≡ true → f n ≡ g n)
      → (applied : Applied) (ns : Namespace S) → all (λ e. p e.1) applied ≡ true
      → switched applied f original ns ≡ switched applied g original ns
  switched-agree p f g original agree applied ns h =
      elim (Option-cases (switched_to ns.active_mutant applied)) [
        | inl off ↦ rw (off, switched)
        | inr (n, on) ↦
            rw (on, switched, agree n (switched_to-all p ns.active_mutant applied {n = n} h on))
      ]

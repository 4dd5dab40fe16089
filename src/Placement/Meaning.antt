-- ===== src/Placement/Meaning.antt =====
-- The helpers of the instrumentation header in packages/instrumenter/src/util/syntax-helpers.ts, as they
-- run in the instrumented program, and an evaluator of the code that the placers generate. A block is
-- the scope of what is declared in it. All other code keeps the meaning that the section's parameters
-- give it.
use isep_mutation_levels.Prelude.{
  ℕ, ◌+◌, String, Bool, true, false, not, List, [], ◌∷◌, Option, none, some, ltb, ◌=s=◌,
  if◌then◌else◌, lookup, insert, elem,
}
use isep_mutation_levels.Syntax.{
  Node, Nodes, nil, cons, identifier, string_literal, call, block, expression_statement,
  if_statement, switch_case, conditional, sequence, variable_declaration, other,
}
use isep_mutation_levels.Placement.Defs.{cover_mutant_helper, is_mutant_active_helper}

abbrev pub Counters : Type 0
Counters = List (String × ℕ)

-- The namespace `__stryker__`, with the state of the program beside it.
pub record Namespace (S : Type 0) : Type 0 where
  pub active_mutant : Option String
  pub hit_count : Option ℕ
  pub hit_limit : Option ℕ
  pub current_test_id : Option String
  pub static : Counters
  pub per_test : List (String × Counters)
  pub program : S

-- The value of an expression: those that the helpers give, and those of the program.
pub data Value (V : Type 0) : Type 0 where
  boolean : Bool → Value V
  undefined : Value V
  own : V → Value V

-- How the evaluation ends: the program's own abrupt completions (throw, return, break), or the error
-- 'Stryker: Hit count limit reached'.
pub data Outcome (V A : Type 0) : Type 0 where
  normal : Value V → Outcome V A
  abrupt : A → Outcome V A
  hit_limit_reached : (hit_count : ℕ) → Outcome V A

-- `c[a[i]] = (c[a[i]] || 0) + 1` for each of the ids.
unfoldable pub count_hits : List String → Counters → Counters
count_hits [] c = c
count_hits (id ∷ rest) c =
    count_hits rest (insert id (elim (lookup id c) [ none ↦ 1 | some n ↦ n + 1 ]) c)

abbrev pub is_nonempty : String → Bool
is_nonempty String.[] = false
is_nonempty (String.◌∷◌ _ _) = true

-- The test whose counters are written: an empty id counts as none.
abbrev pub current_test : Option String → Option String
current_test none = none
current_test (some id) = if is_nonempty id then some id else none

abbrev pub counters_of : Option Counters → Counters
counters_of none = []
counters_of (some c) = c

-- `++ns.hitCount > ns.hitLimit`: no number is greater than an absent limit.
abbrev pub exceeds : ℕ → Option ℕ → Bool
exceeds n none = false
exceeds n (some limit) = ltb limit n

-- `mutant === ns.activeMutant`.
abbrev pub is_active_id : Option String → String → Bool
is_active_id none id = false
is_active_id (some active) id = active =s= id

module _ {S : Type 0} where
  unfoldable pub cover : List String → Namespace S → Namespace S
  unfolding count_hits
  cover mutants ns = elim (current_test ns.current_test_id) [
    | none ↦ record ns { static = count_hits mutants ns.static }
    | some test ↦ record ns {
      per_test =
          insert test (count_hits mutants (counters_of (lookup test ns.per_test))) ns.per_test;
    }
  ]

  module _ {V A : Type 0} where
    -- `isActive` behind its test: the hit is counted, and the limit is looked at.
    unfoldable pub count_active_hit : Namespace S → Outcome V A × Namespace S
    count_active_hit ns = elim ns.hit_count [
      | none ↦ (normal (boolean true), ns)
      | some n ↦ (
        if exceeds (n + 1) ns.hit_limit then hit_limit_reached (n + 1) else normal (boolean true),
        record ns { hit_count = some (n + 1) },
      )
    ]

    unfoldable pub is_active : String → Namespace S → Outcome V A × Namespace S
    unfolding count_active_hit
    is_active id ns =
        if is_active_id ns.active_mutant id
        then count_active_hit ns
        else (normal (boolean false), ns)

    -- An abrupt completion ends the evaluation.
    abbrev pub bind :
        Outcome V A × Namespace S
        → (Value V → Namespace S → Outcome V A × Namespace S)
        → Outcome V A × Namespace S
    bind (normal v, ns) f = f v ns
    bind (abrupt a, ns) f = (abrupt a, ns)
    bind (hit_limit_reached n, ns) f = (hit_limit_reached n, ns)

-- A call of a helper, or any other call.
pub data Helper : Type 0 where
  tests : (id : String) → Helper
  covers : (mutants : List String) → Helper
  no_helper : Helper

abbrev pub strings : Nodes → List String
strings nil = []
strings (cons (string_literal s) ns) = s ∷ strings ns
strings (cons _ ns) = strings ns

abbrev pub first_string : Nodes → Helper
first_string (cons (string_literal s) nil) = tests s
first_string _ = no_helper

abbrev pub helper_of : Node → Nodes → Helper
helper_of (identifier name) args =
    if name =s= is_mutant_active_helper
    then first_string args
    else if name =s= cover_mutant_helper
    then covers (strings args)
    else no_helper
helper_of _ args = no_helper

abbrev pub is_truthy : {V : Type 0} → (V → Bool) → Value V → Bool
is_truthy truthy (boolean b) = b
is_truthy truthy undefined = false
is_truthy truthy (own v) = truthy v

-- The other types of statements that declare a name in the scope around them.
abbrev pub declaration_types : List String
declaration_types =
    "FunctionDeclaration" ∷ "ClassDeclaration" ∷ "TSEnumDeclaration" ∷ "TSModuleDeclaration"
    ∷ "ImportDeclaration" ∷ "TSImportEqualsDeclaration" ∷ "ExportNamedDeclaration"
    ∷ "ExportDefaultDeclaration" ∷ []

-- A statement that declares a name in the scope around it. A block is a scope of its own, so nothing
-- in it is declared around it, and a name that `var` declares belongs to the function. A function
-- declaration behind a label is not looked for.
abbrev pub declares : Node → Bool
declares (variable_declaration kind _) = not (kind =s= "var")
declares (other type _) = elem type declaration_types
declares _ = false

-- The statements of a block that declare something.
abbrev pub declarations : Nodes → Nodes
declarations nil = nil
declarations (cons n rest) = if declares n then cons n (declarations rest) else declarations rest

-- The meaning of the program's own code: what a node does, which values count as true, and how a block
-- opens the scope of its declarations and goes back to the scope outside.
pub record Language (S V A : Type 0) : Type 0 where
  pub evaluate : Node → Namespace S → Outcome V A × Namespace S
  pub truthy : V → Bool
  pub enter : (declared : Nodes) → S → S
  pub leave : (outside inside : S) → S

-- A body in the scope of its declarations, which ends with the body however the body ends. With no
-- declaration there is none.
abbrev pub scoped :
    {S V A : Type 0}
    → Language S V A
    → (declared : Nodes) → (Namespace S → Outcome V A × Namespace S)
    → Namespace S
    → Outcome V A × Namespace S
scoped language nil body ns = body ns
scoped language (cons n rest) body ns =
    let (outcome, ns') = body (record ns { program = language.enter (cons n rest) ns.program }) in
    (outcome, record ns' { program = language.leave ns.program ns'.program })

module _ {S V A : Type 0} (language : Language S V A) where
  unfoldable mutual
    unfolding is_active cover

    pub run : Node → Namespace S → Outcome V A × Namespace S
    run (call r f args) ns = elim (helper_of f args) [
      | tests id ↦ is_active id ns
      | covers mutants ↦ (normal undefined, cover mutants ns)
      | no_helper ↦ language.evaluate (call r f args) ns
    ]
    run (conditional t c a) ns =
        let consequent = run c in
        let alternate = run a in
        bind (run t ns)
          λ v ns'. if is_truthy language.truthy v then consequent ns' else alternate ns'
    run (if_statement t c a) ns =
        let consequent = run c in
        let alternate = run_all a undefined in
        bind (run t ns)
          λ v ns'. if is_truthy language.truthy v then consequent ns' else alternate ns'
    run (sequence es) ns = run_all es undefined ns
    run (block body) ns = scoped language (declarations body) (run_all body undefined) ns
    run (expression_statement e) ns = run e ns
    run (switch_case test consequent) ns = run_all consequent undefined ns
    run n ns = language.evaluate n ns

    -- One after the other, with the value of the last.
    pub run_all : Nodes → Value V → Namespace S → Outcome V A × Namespace S
    run_all nil last ns = (normal last, ns)
    run_all (cons n rest) last ns = bind (run n ns) (run_all rest)

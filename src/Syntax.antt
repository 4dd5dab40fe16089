-- ===== src/Syntax.antt =====
-- The Babel syntax trees that packages/instrumenter/src/mutators read and build. A constructor
-- stands for a node type that a mutator looks at; `other` is any further type, with its children.
-- Where the source compares nodes by identity (`parent.test === node`), a path says under which
-- property of its parent its node stands.
use isep_mutation_levels.Prelude.{
  ℕ, suc, ◌+◌, ◌<◌, ◌≢◌, ap, String, Bool, true, false, List, [], ◌∷◌, Option, none, some, arith,
}

pub data Regularity : Type 0 where
  plain : Regularity
  in_chain : (optional : Bool) → Regularity

pub data LoopKind : Type 0 where
  while_loop do_while_loop : LoopKind

mutual
  pub data Node : Type 0 where
    identifier : (name : String) → Node
    string_literal : (value : String) → Node
    boolean_literal : (value : Bool) → Node
    reg_exp_literal : (pattern flags : String) → Node
    template_literal : (quasis : List String) → (expressions : Nodes) → Node
    binary : (operator : String) → (left right : Node) → Node
    logical : (operator : String) → (left right : Node) → Node
    assignment : (operator : String) → (left right : Node) → Node
    unary : (operator : String) → (prefixed : Bool) → (argument : Node) → Node
    update : (operator : String) → (prefixed : Bool) → (argument : Node) → Node
    array : (elements : Nodes) → Node
    object : (properties : Nodes) → Node
    arrow_function : (params : Nodes) → (body : Node) → Node
    call : Regularity → (callee : Node) → (args : Nodes) → Node
    new_expression : (callee : Node) → (args : Nodes) → Node
    member : Regularity → (target property : Node) → (computed : Bool) → Node
    block : (body : Nodes) → Node
    expression_statement : (expression : Node) → Node
    if_statement : (test consequent : Node) → (alternate : Nodes) → Node
    loop : LoopKind → (test body : Node) → Node
    for_statement : (init test update : Nodes) → (body : Node) → Node
    switch_case : (test : Nodes) → (consequent : Nodes) → Node
    class_method : (kind : String) → (params : Nodes) → (body : Node) → Node
    class_property : (key : Node) → (value : Nodes) → Node
    class_body : (body : Nodes) → Node
    object_property : (key value : Node) → Node
    conditional : (test consequent alternate : Node) → Node
    sequence : (expressions : Nodes) → Node
    function_expression : (id params : Nodes) → (body : Node) → Node
    class_expression : (id : Nodes) → (body : Node) → Node
    variable_declaration : (kind : String) → (declarations : Nodes) → Node
    variable_declarator : (id : Node) → (init : Nodes) → Node
    return_statement : (argument : Nodes) → Node
    non_null : (expression : Node) → Node
    tagged_template : (tag quasi : Node) → Node
    super_node : Node
    other : (type : String) → (children : Nodes) → Node

  -- A property that may be absent holds at most one node.
  pub data Nodes : Type 0 where
    nil : Nodes
    cons : Node → Nodes → Nodes

-- The size tells a node from each of its parts.
unfoldable mutual
  pub size : Node → ℕ
  size (template_literal _ es) = suc (sizes es)
  size (binary _ l r) = suc (size l + size r)
  size (logical _ l r) = suc (size l + size r)
  size (assignment _ l r) = suc (size l + size r)
  size (unary _ _ a) = suc (size a)
  size (update _ _ a) = suc (size a)
  size (array es) = suc (sizes es)
  size (object ps) = suc (sizes ps)
  size (arrow_function ps b) = suc (sizes ps + size b)
  size (call _ c as') = suc (size c + sizes as')
  size (new_expression c as') = suc (size c + sizes as')
  size (member _ t p _) = suc (size t + size p)
  size (block b) = suc (sizes b)
  size (expression_statement e) = suc (size e)
  size (if_statement t c a) = suc (size t + size c + sizes a)
  size (loop _ t b) = suc (size t + size b)
  size (for_statement i t u b) = suc (sizes i + sizes t + sizes u + size b)
  size (switch_case t c) = suc (sizes t + sizes c)
  size (class_method _ ps b) = suc (sizes ps + size b)
  size (class_property k v) = suc (size k + sizes v)
  size (class_body b) = suc (sizes b)
  size (object_property k v) = suc (size k + size v)
  size (conditional t c a) = suc (size t + size c + size a)
  size (sequence es) = suc (sizes es)
  size (function_expression i ps b) = suc (sizes i + sizes ps + size b)
  size (class_expression i b) = suc (sizes i + size b)
  size (variable_declaration _ ds) = suc (sizes ds)
  size (variable_declarator i v) = suc (size i + sizes v)
  size (return_statement a) = suc (sizes a)
  size (non_null e) = suc (size e)
  size (tagged_template t q) = suc (size t + size q)
  size (other _ cs) = suc (sizes cs)
  size _ = 1

  pub sizes : Nodes → ℕ
  sizes nil = 0
  sizes (cons n ns) = size n + sizes ns

abbrev pub count : Nodes → ℕ
count nil = 0
count (cons _ ns) = suc (count ns)

abbrev pub first : Nodes → Option Node
first nil = none
first (cons n _) = some n

abbrev pub any_node : (Node → Bool) → Nodes → Bool
any_node p nil = false
any_node p (cons n ns) = elim (p n) [ true ↦ true | false ↦ any_node p ns ]

-- The property of the parent that holds the node.
pub data Slot : Type 0 where
  as_test as_key as_first_argument as_callee as_property as_other : Slot

pub record Ancestor : Type 0 where
  pub node : Node
  pub slot : Slot

-- `NodePath`: the node and its ancestors, the nearest first.
pub record NodePath : Type 0 where
  pub node : Node
  pub ancestors : List Ancestor

abbrev pub parent : NodePath → Option Ancestor
parent p = elim p.ancestors [ [] ↦ none | a ∷ _ ↦ some a ]

pub size_ne : (a b : Node) → size a < size b → a ≢ b
size_ne a b h e = absurd (omega (arith, ap size e))

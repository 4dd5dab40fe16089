-- ===== src/Instrument/Ignorers.antt =====
-- What the ignorers do to the mutants of a tree.
use isep_mutation_levels.Prelude.{
  ℕ, ◌≡◌, refl, Bool, true, not, ◌&&◌, List, [], ◌∷◌, ◌++◌, Option, none, some, arith, ◌==◌,
  Option-cases, inl, inr,
}
use isep_mutation_levels.Differ.Positions.{Text}
use isep_mutation_levels.Instrument.Collector.{
  ActiveIgnored, last_message, enter_node, leave_node, Tree, branch, Trees, nil, cons, message_of,
  traverse, traverse_all,
}

-- The node is none of the tree.
abbrev mutual
  pub absent : ℕ → Tree → Bool
  absent k (branch node answers children) = not (k == node) && absent_all k children

  pub absent_all : ℕ → Trees → Bool
  absent_all k nil = true
  absent_all k (cons tree trees) = absent k tree && absent_all k trees

-- No node stands below itself.
abbrev mutual
  pub is_proper : Tree → Bool
  is_proper (branch node answers children) = absent_all node children && all_proper children

  pub all_proper : Trees → Bool
  all_proper nil = true
  all_proper (cons tree trees) = is_proper tree && all_proper trees

-- The message at each node: that of the outermost node above it, itself included, for which an
-- ignorer has one; of several ignorers the last.
abbrev pub inherited : Option Text → List (Option Text) → Option Text
inherited (some message) answers = some message
inherited none answers = last_message answers none

abbrev mutual
  pub messages_in : Option Text → Tree → List (ℕ × Option Text)
  messages_in above (branch node answers children) =
      let message = inherited above answers in (node, message) ∷ messages_in_all message children

  pub messages_in_all : Option Text → Trees → List (ℕ × Option Text)
  messages_in_all above nil = []
  messages_in_all above (cons tree trees) = messages_in above tree ++ messages_in_all above trees

abbrev pub outside : Option ActiveIgnored → Tree → Bool
outside none tree = true
outside (some active) tree = absent active.node tree

abbrev pub outside_all : Option ActiveIgnored → Trees → Bool
outside_all none trees = true
outside_all (some active) trees = absent_all active.node trees

message-enter :
    (node : ℕ) (answers : List (Option Text)) (active : Option ActiveIgnored)
    → message_of (enter_node node answers active) ≡ inherited (message_of active) answers
unfolding enter_node
message-enter node answers none = ground arith
message-enter node answers (some a) = refl

outside-enter :
    (node : ℕ) (answers : List (Option Text)) (active : Option ActiveIgnored) (children : Trees)
    → is_proper (branch node answers children) ≡ true
    → outside active (branch node answers children) ≡ true
    → outside_all (enter_node node answers active) children ≡ true
unfolding enter_node
outside-enter node answers none children proper out =
    elim (Option-cases (last_message answers none)) [
      | inl e ↦ rw (e, enter_node)
      | inr (message, e) ↦ rw (e, enter_node) (ground (arith, proper))
    ]
outside-enter node answers (some a) children proper out = ground (arith, out)

leave-enter :
    (node : ℕ) (answers : List (Option Text)) (active : Option ActiveIgnored) (children : Trees)
    → outside active (branch node answers children) ≡ true
    → leave_node node (enter_node node answers active) ≡ active
unfolding enter_node leave_node
leave-enter node answers none children out = elim (Option-cases (last_message answers none)) [
  | inl e ↦ rw (e, enter_node)
  | inr (message, e) ↦ rw (e, enter_node) (ground arith)
]
leave-enter node answers (some a) children out = ground (arith, out)

outside_first :
    (active : Option ActiveIgnored) (tree : Tree) (trees : Trees)
    → outside_all active (cons tree trees) ≡ true
    → outside active tree ≡ true
outside_first none tree trees out = refl
outside_first (some a) tree trees out = ground (arith, out)

outside_rest :
    (active : Option ActiveIgnored) (tree : Tree) (trees : Trees)
    → outside_all active (cons tree trees) ≡ true
    → outside_all active trees ≡ true
outside_rest none tree trees out = refl
outside_rest (some a) tree trees out = ground (arith, out)

mutual
  unfolding traverse

  traverse_tree :
      (tree : Tree) (active : Option ActiveIgnored)
      → is_proper tree ≡ true
      → outside active tree ≡ true
      → traverse tree active ≡ (messages_in (message_of active) tree, active)
  traverse_tree (branch node answers children) active proper out = rw (
    traverse_trees children (enter_node node answers active) (ground (arith, proper))
        (outside-enter node answers active children proper out),
    message-enter node answers active,
    leave-enter node answers active children out,
  )

  traverse_trees :
      (trees : Trees) (active : Option ActiveIgnored)
      → all_proper trees ≡ true
      → outside_all active trees ≡ true
      → traverse_all trees active ≡ (messages_in_all (message_of active) trees, active)
  traverse_trees nil active proper out = refl
  traverse_trees (cons tree trees) active proper out = rw (
    traverse_tree tree active (ground (arith, proper)) (outside_first active tree trees out),
    traverse_trees trees active (ground (arith, proper)) (outside_rest active tree trees out),
  )

-- The traversal of a tree in which no node stands below itself gives each node the message of the
-- outermost node above it that an ignorer speaks for, itself included, and leaves the bookkeeper
-- as it found it.
pub traverse-messages :
    (tree : Tree) (active : Option ActiveIgnored)
    → is_proper tree ≡ true
    → outside active tree ≡ true
    → traverse tree active ≡ (messages_in (message_of active) tree, active)
traverse-messages tree active proper out = traverse_tree tree active proper out

-- ===== src/Differ/Reuse.antt =====
-- incremental-differ.ts: `diffTestCoverage` and `mutantCanBeReused`.
use isep_mutation_levels.Prelude.{
  String, Bool, true, false, not, ◌&&◌, List, [], ◌∷◌, Option, none, some, any, elem, lookup,
  insert, or_else, if◌then◌else◌,
}
use isep_mutation_levels.Api.{MutantStatus, killed, ignored}

pub data DiffAction : Type 0 where
  added removed same : DiffAction

abbrev pub Actions : Type 0
Actions = List (String × DiffAction)

abbrev pub is_same : Option DiffAction → Bool
is_same (some same) = true
is_same _ = false

abbrev pub is_added : DiffAction → Bool
is_added added = true
is_added _ = false

-- The keys of the tests that cover the mutant now.
unfoldable pub mark_new : (old new : List String) → Actions → Actions
mark_new old [] acc = acc
mark_new old (key ∷ new) acc =
    mark_new old new (insert key (if elem key old then same else added) acc)

abbrev pub is_there : Option DiffAction → Bool
is_there none = false
is_there (some _) = true

-- The keys of the tests that covered it.
unfoldable pub mark_old : (is_static : Bool) → (new_test_keys old : List String) → Actions → Actions
mark_old is_static new_test_keys [] acc = acc
mark_old is_static new_test_keys (key ∷ old) acc = mark_old is_static new_test_keys old (
    if is_there (lookup key acc)
    then acc
    else insert key (if is_static && elem key new_test_keys then same else removed) acc)

-- `none` stands for `undefined`.
unfoldable pub diff_test_coverage :
    (is_static : Bool)
    → (new_test_keys : List String)
    → (old_covering_test_keys new_covering_test_keys : Option (List String)) → Actions
unfolding mark_new mark_old
diff_test_coverage is_static new_test_keys old new =
    mark_old is_static new_test_keys (or_else old [])
      (mark_new (or_else old []) (or_else new []) [])

-- Whether the mutant is `Ignored` or `Killed`.
abbrev pub is_ignored : MutantStatus → Bool
is_ignored ignored = true
is_ignored _ = false

abbrev pub is_killed : MutantStatus → Bool
is_killed killed = true
is_killed _ = false

unfoldable pub mutant_can_be_reused :
    (has_coverage : Bool)
    → (old_status : MutantStatus) → (tests_diff : Actions)
    → (old_killing_tests : Option (List String)) → Bool
mutant_can_be_reused has_coverage old_status tests_diff old_killing_tests =
    if not has_coverage
    then true
    else if is_ignored old_status
    then false
    else if is_killed old_status
    then any (λ test. is_same (lookup test tests_diff)) (or_else old_killing_tests [])
    else not (any (λ e. is_added e.1) tests_diff)

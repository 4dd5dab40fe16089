-- ===== src/Levels/Update.antt =====
-- babel-transformer.ts: `createRunLevel`, `updateRunLevel` and `findExcludedMutatorIgnoreReason`.
-- `none` of an update is the TypeError of a read from a group that the level lacks.
use Prim.Native.String.{◌++◌ as concat}
use package.text.Mathlib.Text.{starts_with}
use isep_mutation_levels.Prelude.{
  String, Bool, true, false, not, ◌&&◌, ◌||◌, List, [], ◌∷◌, ◌++◌, map, Option, none, some, lookup,
  insert, keys, elem, keep, find_first, ◌=s=◌, if◌then◌else◌,
}
use isep_mutation_levels.Mutators.Defs.{NodeMutator, operator_names}
use isep_mutation_levels.Levels.Defs.{Groups, MutatorOptions, default_mutation_levels}

-- `String.prototype.includes`.
unfoldable pub includes : String → String → Bool
includes String.[] t = starts_with "" t
includes (String.◌∷◌ c s) t = starts_with (String.◌∷◌ c s) t || includes s t

-- `updateFunc`, on the values that it is handed behind the list. Both functions have a parameter for
-- the first of them only. No call of the source hands over none.
unfoldable pub update_group : (include : Bool) → List String → List String → List String
update_group true (to_add ∷ _) list = list ++ to_add ∷ []
update_group false (to_remove ∷ _) list = keep (λ m. not (includes to_remove m)) list
update_group _ [] list = list

-- One call of `updateFunc`: the group and the values.
abbrev pub Update : Type 0
Update = String × List String

unfoldable pub update_level : (include : Bool) → List Update → Groups → Option Groups
update_level include [] level = some level
update_level include ((key, values) ∷ rest) level = elim (lookup key level) [
  | none ↦ none
  | some list ↦ update_level include rest (insert key (update_group include values list) level)
]

abbrev pub has_operator : String → NodeMutator → Bool
has_operator operator m = elem operator (operator_names m.operators)

abbrev pub named : String → NodeMutator → Bool
named name m = m.name =s= name

-- What a specification stands for: a default level, a group of operators or one operator. `none`
-- is the case that is only warned about. `names` are the keys of the level. A default level hands
-- over all operators of each of its groups.
unfoldable pub resolve_operator : List NodeMutator → String → Option (List Update)
resolve_operator mutators spec = elim (find_first (has_operator spec) mutators) [
  | none ↦ none
  | some m ↦ some ((m.name, spec ∷ []) ∷ [])
]

unfoldable pub resolve_group :
    List NodeMutator → (names : List String) → String → Option (List Update)
unfolding resolve_operator
resolve_group mutators names spec =
    elim (find_first (λ key. not (key =s= "name") && (concat "@" key =s= spec)) names) [
      | none ↦ resolve_operator mutators spec
      | some name ↦ elim (find_first (named name) mutators) [
        | none ↦ resolve_operator mutators spec
        | some m ↦ some (map (λ operator. (name, operator ∷ [])) (operator_names m.operators))
      ]
    ]

unfoldable pub resolve : List NodeMutator → (names : List String) → String → Option (List Update)
unfolding resolve_group
resolve mutators names spec =
    elim (find_first (λ l. concat "@" l.name =s= spec) default_mutation_levels) [
      | none ↦ resolve_group mutators names spec
      | some l ↦ some l.groups
    ]

-- The loop over the specifications.
unfoldable pub update_run_level :
    List NodeMutator → (include : Bool) → List String → Groups → Option Groups
update_run_level mutators include [] level = some level
update_run_level mutators include (spec ∷ specs) level = elim (resolve mutators (keys level) spec) [
  | none ↦ update_run_level mutators include specs level
  | some updates ↦ elim (update_level include updates level) [
    | none ↦ none
    | some level' ↦ update_run_level mutators include specs level'
  ]
]

-- A list that is undefined is skipped.
abbrev pub listed : Option (List String) → List String
listed none = []
listed (some specs) = specs

abbrev pub empty_level : List NodeMutator → Groups → Groups
empty_level [] level = level
empty_level (m ∷ ms) level = empty_level ms (insert m.name [] level)

-- Every operator of every mutator is pushed onto its group.
abbrev pub all_updates : List NodeMutator → List Update
all_updates [] = []
all_updates (m ∷ ms) = map (λ o. (m.name, o ∷ [])) (operator_names m.operators) ++ all_updates ms

abbrev pub is_given : Option (List String) → Bool
is_given none = false
is_given (some _) = true

abbrev pub is_empty : List String → Bool
is_empty [] = true
is_empty (_ ∷ _) = false

abbrev pub and_then : Option Groups → (Groups → Option Groups) → Option Groups
and_then none f = none
and_then (some level) f = f level

-- The level to begin with: empty, or complete where nothing is included.
unfoldable pub start_level : List NodeMutator → MutatorOptions → Option Groups
start_level mutators options =
    if is_empty (listed options.included_mutations)
    then update_level true (all_updates mutators) (empty_level mutators [])
    else some (empty_level mutators [])

unfoldable pub specified_level : List NodeMutator → MutatorOptions → Option Groups
specified_level mutators options = and_then (start_level mutators options) λ start.
    and_then (update_run_level mutators true (listed options.included_mutations) start)
      (update_run_level mutators false (listed options.excluded_mutations))

-- `undefined`, for no restriction, or a level.
pub data RunLevel : Type 0 where
  unrestricted : RunLevel
  restricted : Groups → RunLevel

abbrev pub restrict : Option Groups → Option RunLevel
restrict none = none
restrict (some level) = some (restricted level)

unfoldable pub create_run_level : List NodeMutator → MutatorOptions → Option RunLevel
create_run_level mutators options =
    if is_empty (listed options.included_mutations) && not (is_given options.excluded_mutations)
    then some unrestricted
    else restrict (specified_level mutators options)

-- Why a mutation is left out of the run, and `none` where it is not.
unfoldable pub find_excluded_ignore_reason :
    RunLevel → (mutator_name mutation_operator : String) → Option String
find_excluded_ignore_reason unrestricted name operator = none
find_excluded_ignore_reason (restricted level) name operator = elim (lookup name level) [
  | none ↦ some (concat "Ignored because \"" (concat name "\" is not recognised as a mutator"))
  | some list ↦
      if elem operator list
      then none
      else some (
          concat "Ignored because the operator \""
            (concat operator "\" is excluded from the mutation run"))
]

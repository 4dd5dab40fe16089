-- ===== src/Placement/Locations.antt =====
-- packages/instrumenter/src/util/syntax-helpers.ts and babel-transformer.ts: locations in a source file,
-- and which nodes the traversal skips or mutates.
use isep_mutation_levels.Prelude.{
  ℕ, ◌≡◌, Bool, true, false, not, ◌&&◌, ◌||◌, List, [], ◌∷◌, any, all, ltb, leb, ◌==◌, arith,
}

pub record SourcePosition : Type 0 where
  pub line : ℕ
  pub column : ℕ

pub record SourceLocation : Type 0 where
  pub start : SourcePosition
  pub end : SourcePosition

-- `eqLocation`.
unfoldable pub eq_location : SourceLocation → SourceLocation → Bool
eq_location a b =
    ((a.start.column == b.start.column) && (a.start.line == b.start.line))
    && ((a.end.column == b.end.column) && (a.end.line == b.end.line))

unfoldable pub location_included : (haystack needle : SourceLocation) → Bool
location_included haystack needle =
    let start_included =
      ltb haystack.start.line needle.start.line
      || ((haystack.start.line == needle.start.line)
          && leb haystack.start.column needle.start.column) in
    let end_included =
      ltb needle.end.line haystack.end.line
      || ((haystack.end.line == needle.end.line) && leb needle.end.column haystack.end.column) in
    start_included && end_included

unfoldable pub location_overlaps : (a b : SourceLocation) → Bool
location_overlaps a b =
    let start_included =
      ltb a.start.line b.end.line
      || ((a.start.line == b.end.line) && leb a.start.column b.end.column) in
    let end_included =
      ltb b.start.line a.end.line
      || ((a.end.line == b.start.line) && leb b.start.column a.end.column) in
    start_included && end_included

-- `MutateDescription`, with ranges in the lines of the syntax tree.
pub data MutateRanges : Type 0 where
  entire : Bool → MutateRanges
  ranges : List SourceLocation → MutateRanges

-- `is_leaf_kind` says that the node is a type, an import or a decorator.
unfoldable pub should_skip : MutateRanges → (is_leaf_kind : Bool) → SourceLocation → Bool
unfolding location_overlaps
should_skip (entire mutate) is_leaf_kind loc = is_leaf_kind || not mutate
should_skip (ranges rs) is_leaf_kind loc =
    is_leaf_kind || all (λ range. not (location_overlaps range loc)) rs

unfoldable pub should_mutate : MutateRanges → SourceLocation → Bool
unfolding location_included
should_mutate (entire mutate) loc = mutate
should_mutate (ranges rs) loc = any (λ range. location_included range loc) rs

-- A location ends no sooner than it starts.
abbrev pub is_ordered : SourceLocation → Bool
is_ordered loc =
    ltb loc.start.line loc.end.line
    || ((loc.start.line == loc.end.line) && leb loc.start.column loc.end.column)

pub location_overlaps_of_included :
    (range outer loc : SourceLocation)
    → is_ordered loc ≡ true
    → location_included range loc ≡ true
    → location_included outer loc ≡ true
    → location_overlaps range outer ≡ true
unfolding location_included location_overlaps
location_overlaps_of_included range outer loc ordered h k = ground arith

any_overlaps :
    (rs : List SourceLocation) (outer loc : SourceLocation)
    → is_ordered loc ≡ true
    → any (λ range. location_included range loc) rs ≡ true
    → location_included outer loc ≡ true
    → all (λ range. not (location_overlaps range outer)) rs ≡ false
any_overlaps [] outer loc ordered h k = cc
any_overlaps (range ∷ rs) outer loc ordered h k = ground (
  arith,
  location_overlaps_of_included range outer loc ordered,
  any_overlaps rs outer loc ordered,
)

-- A node that is to be mutated is reached: neither the node nor any node around it is skipped, unless
-- that is a type, an import or a decorator.
pub should_mutate-should_skip :
    (mutate : MutateRanges) (outer loc : SourceLocation)
    → is_ordered loc ≡ true
    → location_included outer loc ≡ true
    → should_mutate mutate loc ≡ true
    → should_skip mutate false outer ≡ false
unfolding should_mutate should_skip
should_mutate-should_skip (entire mutate) outer loc ordered inside h = ground arith
should_mutate-should_skip (ranges rs) outer loc ordered inside h =
    any_overlaps rs outer loc ordered h inside

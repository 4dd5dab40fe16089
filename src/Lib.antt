-- ===== src/Lib.antt =====
-- StrykerJS, a mutation testing framework for JavaScript: a model of the parts that decide which
-- mutants there are, which of them are run, and what of an earlier run is kept.
--
-- How a run goes. The instrumenter (packages/instrumenter) asks every mutator for the mutations of
-- each syntax node and marks as ignored those that the run's mutation level excludes. A dry run of
-- the tests gives the coverage from which packages/core/src/mutants plans a test run for each mutant;
-- an incremental run first compares the files with those of the earlier report. The mutants are placed
-- in the code behind switches, the files are put in a sandbox, checkers drop the mutants that do not
-- compile, and pools of checkers and test runners take up the work.
--
-- Which file models what:
-- - Syntax: the syntax nodes that the mutators read. The nodes are those of the Babel package, of
--   which the model has the constructors and fields that the program inspects.
-- - Mutators: packages/instrumenter/src/mutators. Mutators/Exchange has the mutators that exchange an
--   operator, Literals, Calls and Statements the others, All the list `allMutators`. A mutator's
--   `mutate` generator is the list of what it yields. The mutants of a regular expression
--   (weapon-regex) are a parameter.
-- - Instrument: directive-bookkeeper.ts, ignorer-bookkeeper.ts and mutant-collector.ts of
--   packages/instrumenter/src/transformers, mutant.ts, and the functions mutate and collectMutants of
--   babel-transformer.ts. The regular expression of the directives is a function on the characters'
--   codes; a tree has a number for each node and the ignorers' answers.
-- - Levels: packages/instrumenter/src/mutation-level and the run level of
--   transformers/babel-transformer.ts (createRunLevel, updateRunLevel,
--   findExcludedMutatorIgnoreReason). Levels/Update has the functions, Sequence the level as one sequence
--   of updates, Selected and Membership what the specifications mean without any level. `none` is the
--   exception of a push to a group that is not there.
-- - Api: packages/api/src/core/mutant.ts.
-- - Differ: packages/core/src/mutants/incremental-differ.ts. Positions and FileDiff have
--   performFileDiff and its arithmetic, Keys the identifying keys, Closing closeLocations, Reuse
--   diffTestCoverage and mutantCanBeReused, Report and Collect what is read of the earlier report,
--   Diff the method diff, which returns the test coverage that it changes; Statistics is
--   diff-statistics-collector.ts. What diff-match-patch answers is a parameter, as the paths of the
--   platform are.
-- - Coverage: packages/core/src/mutants/test-coverage.ts.
-- - Planner: packages/core/src/mutants/mutant-test-planner.ts. The timeout factor is a float, so that
--   the multiplication by it is a parameter, as the path of a file in the sandbox is.
-- - Placement: packages/instrumenter/src/mutant-placers, the helpers of util/syntax-helpers.ts and the
--   traversal of transformers/babel-transformer.ts. Placement/Paths and Defs have the placers, Meaning
--   the helpers of the instrumentation header as they run in the instrumented program, with an evaluator
--   of the code that is placed: a block is the scope of the lexical declarations in it, and all other code
--   has the meaning that a parameter gives it. Wrapping has what a switch in the code does, Locations which
--   nodes are skipped or mutated, Traversal the placement map over trees that carry what Babel's
--   predicates and collectMutants answer.
-- - Checker: packages/typescript-checker/src. Graph, Groups, Partition, Closure and References have
--   grouping/; Related the walk from an error to its mutants; Check the methods check and checkErrors of
--   typescript-checker.ts, Grouping its method group; Files has fs/ and the compiler's check; Imports its
--   graph of nodes. A node is known by its file name. The walks over the references have the number of
--   nodes as fuel (Checker/Closure: enough, since each call below another has visited one node more), the
--   loop over the mutants their number, and checkErrors the depth 2 (enough, since a call for a single
--   mutant makes no further call). What the compiler answers to mutants in its state is a parameter, and
--   so is where a location is in a text; where its answer to a mutant is assumed to be known, the mutant is
--   not one of those that it compiled last. An exception in the compiler's check leaves the files that were
--   changed before it.
-- - Concurrent: packages/core/src/concurrent. State and Defs are pool.ts: its state, and a function for
--   each event of its streams; Provider is concurrency-token-provider.ts. Resources and work items are
--   numbered in the order in which they are made.
-- - Sandbox: packages/core/src/fs/project-file.ts (Files) and sandbox/sandbox.ts (Filling), with
--   moveDirectoryRecursiveSync of utils/file-utils.ts. The directories are maps from names that are
--   relative to them. The files are put in their places in steps that are taken in any order, as far as
--   an exit lets them.
-- - Runner: the decorators of packages/core/src/test-runner and run-result-helpers.ts of
--   packages/api/src/test-runner. The decorated runner is any world with its calls; Runner/Environment
--   has the calls of the reload decorator as a step relation, also those that are rejected and made again,
--   Runner/Shared the reload decorator under the retry decorator, with the options that they share. A
--   recovery is taken to be resolved.
-- - Executor: packages/core/src/process/4-mutation-test-executor.ts, and of
--   packages/core/src/reporters/mutation-test-report-helper.ts (Report has a mutant's result, Reports the
--   report of all of them and the exit code). A stream is the list of what it emits; the checkers, the
--   test runners and the buffers are parameters, as the paths and the metrics of a report are.
--   Executor/Facade has packages/core/src/checker/checker-facade.ts.
--
-- Maps and objects are association lists in insertion order; sets are lists without duplicates.
-- All other loops are structural recursion, or have what is left to print for fuel (Differ/Keys).
--
-- Not modelled: logging, reports to the terminal, network access, child processes, the reading of the
-- configuration and of the project's files, the start of the TypeScript compiler, and the glue to
-- third-party parsers, printers and test frameworks.
mod Prelude
pub mod Syntax
pub mod Mutators
pub mod Executor
pub mod Concurrent
pub mod Sandbox
pub mod Instrument
pub mod Placement
pub mod Levels
pub mod Api
pub mod Differ
pub mod Checker
pub mod Coverage
pub mod Planner
pub mod Runner

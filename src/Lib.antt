-- ===== src/Lib.antt =====
-- commiter-cli: a command that groups the changes of a Git repository into commits with the help of
-- a language model. This library models the parts of it that decide what is read, what is committed
-- and what is accepted, and proves what they promise.
--
-- The parts, and how they interact:
--   * Gitstate reads the status of the repository, selects and classifies the changed paths, and builds
--     a snapshot of changes, each with an ID and a hash.
--   * Context chooses the context window for the planning prompt over those changes.
--   * Planning generates a plan, commits that assign the IDs of the changes, by three requests to a
--     language model, and validates every plan.
--   * Commitexec executes an approved plan: it checks the hashes again, stages and commits the paths of
--     each commit, checks the commit that Git made, and restores the index on an error.
--   * Trust remembers which verification commands the user approved for a repository, Updatecheck
--     compares versions, Metrics adds up the durations of a run, Output escapes text, and Interaction
--     asks the user, finds where the commits are pushed and pushes them.
--   * Config resolves the settings that decide all this, from the defaults, the user's file, the
--     repository's file and the command line.
--   * Verification resolves the commands that check the changes, asks for their approval through
--     Trust, runs them, and compares the states of the repository before and after each.
--   * Relation builds the graph of candidates, by which changes are grouped, from the relations that
--     were found between them.
--   * Cli runs the whole: a cycle takes a snapshot, has it planned, asks for consent, verifies, looks
--     again, commits and pushes, and may start over.
--   * Repository plans and applies the initialization of a repository and of its .gitignore.
--
-- Files and code:
--   * Base: shared names; strings as lists of bytes or code points (Base/Str) with the functions of
--     package strings that the program calls, decidable equality, sets as lists without repetition.
--   * Planning/Types, Planning/Sensitive, Planning/Assignment, Planning/Validate:
--     internal/planning/types.go, schema.go (the allowed types), sensitive.go (the container) and
--     validate.go. `validate` is `Validate`; Planning/Validate/Accepts is about what it accepts.
--     Planning/ThreePhase is three_phase.go, `Generate`, with the check of the IDs of schema.go; its
--     requests are Planning/Invoke, a monad over the world and the counts of the result, with the
--     errors of Planning/Attempt. Planning/Grouping has the files, their order (harness004.go) and
--     the groups, Planning/Evidence the evidence of breaking changes and the commits, Planning/Strict
--     the check of the keys of an answer, and Planning/Telemetry the telemetry of generator.go.
--   * Context/Budget: internal/contextinput/budget.go. `select_context` is `SelectContext`.
--     Context/Chunk: internal/contextinput/chunk.go, the lines of a diff and `truncateUTF8` over bytes;
--     Base/Utf8 is utf8.ValidString.
--   * Gitstate/Types, Errors, Status, RepoPath, Sensitive, Snapshot, Collect: internal/gitstate, by
--     types.go, status.go, sensitive.go, snapshot.go and collect.go. `parse_status` is `readStatus`
--     behind the command, `build_change` is `buildChange`, `collect` is `Collect` between its lock
--     and its last look at the repository.
--   * Output: internal/output/output.go, `Escape` over strconv.Quote.
--   * Commitexec: internal/commitexec/executor.go. Host is the interface of Git, the index file, the
--     collection and the context; Run is the state of `Execute` (the world, the hashes, whether a commit
--     was created, the committed paths, the assigned IDs) and its error values; Paths, Index, Checks and
--     Execute hold the functions. The rest is proofs.
--   * Trust/Store: internal/trust/store.go over an interface of the file.
--   * Updatecheck/Version: internal/updatecheck/updatecheck.go, the parsing and the order of versions.
--   * Metrics/Recorder: internal/metrics/metrics.go, the recorder and its setters.
--   * Interaction/PushTarget: internal/interaction/interaction.go, `ResolvePushTarget`;
--     Interaction/Review: `ReviewContext` there, over the list of what its reads give; Interaction/Push:
--     internal/pushexec/executor.go.
--   * Config: internal/config/config.go. Values holds the settings, the schema and `Defaults`, Toml the
--     decoded table and its flattening, Apply `applyValue`, `applyFile` and `applyCLI`, Check
--     `validateValues`, and Resolve `Resolve`. The map of the sources is a function. Layers is the
--     abstract view: a configuration is a stack of layers.
--   * Verification: internal/verification. Definition is definition.go up to the encoding of the
--     canonical value as JSON, Definition/Autodetect the commands of a package.json and `Resolve`;
--     Approval is `Authorize` over Trust/Store; State is state.go, the records of the status and what
--     `ChangedPaths` compares; Runner is `Run` over a world of processes, where a round of the loop is
--     `round`. The deadline is a question to that world.
--   * Repository/Init: internal/repository/init.go, over an interface of Git; the file .gitignore of a
--     directory is a part of the state, and a write to it succeeds as a whole.
--   * Relation: internal/relation, the data of extract.go and `BuildGraph` of graph.go up to its
--     components and statistics; Order holds the orders that its lists are sorted by.
--   * Cli: internal/cli and internal/exitcode. Options is the command line of cli.go; Cycle is
--     `runCollectionCycle` and `runCollection` of collection.go, in the parts Prepare, Consent (with
--     verification.go), Verify and Finish. Host has the components that a cycle calls, as functions
--     on a world, and the steps of a cycle, which record the calls that they make; Snapshots the pure
--     functions. Cycle/Allowed says what a commit and a push need to have behind them.
--   * The Tests modules run the code on small inputs and apply each theorem to one.
--
-- Bounds: every loop is structural recursion on a list, but the search for metadata in Repository,
-- which takes its parents on fuel, two more than the length of the path, and the two loops of Cli that
-- a user may keep going, on a number of rounds and of cycles, and the
-- comparison of paths in Planning/Grouping, on the length of the first. Sizes and token counts
-- are natural numbers; durations and the number of summaries are bit patterns of 64 bits whose sum
-- wraps around, as do the counts of the telemetry; strconv.Atoi rejects what does not fit 64 bits.
--
-- Not modelled: the commands but the main one, the clients of model servers, the texts of the
-- prompts, the ranking and the stages of the compression of context, the extraction of relations
-- and the components of their graph, syntax analysis, history attribution, and the process
-- groups of verification commands. Git, the file system, encoding/json, the TOML decoder, the
-- Unicode tables, hashes, glob patterns and the file classifiers are parameters. Cancellation is
-- a question to the host in Commitexec and left out in Gitstate.
pub mod Base
pub mod Planning
pub mod Context
pub mod Gitstate
pub mod Output
pub mod Commitexec
pub mod Trust
pub mod Updatecheck
pub mod Metrics
pub mod Interaction
pub mod Config
pub mod Verification
pub mod Repository
pub mod Relation
pub mod Cli

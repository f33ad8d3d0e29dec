-- ===== src/Lib.antt =====
-- recon, a configuration registry for Go: layers of sources, overrides and defaults are resolved
-- into a snapshot of key paths and values.
--
-- The parts and the files that model them:
--   * KeyPath (path.go): key paths, ParsePath and Path.String with the bracket escapes, the order of
--     paths, the delimiters of a text, and the prefix operations.
--   * Alias (alias.go): resolveAliasChain and validateNoAliasCycle on the map of aliases.
--   * Value (value.go): Value, NewValue and unwrapValueDeep. Value/Decimal has the decimal texts of
--     strconv that they use, Value/Access the accessors AsString to AsRaw,
--     Value/Text the method String.
--   * Precedence (precedence.go, source.go): resolveKey with its layers, the two merge strategies,
--     and mergeValues (Precedence/Merge).
--   * Snapshot (snapshot.go): flattenLayer, invertAliases and collectCandidateKeys
--     (Snapshot/Layers, Snapshot/Resolve), the loops of buildSnapshot that resolve the candidates and
--     stamp the aliases (Snapshot/Resolve), its key lists (Snapshot/Views), the reads of a snapshot
--     (Snapshot/Reads), and the secret matcher (Snapshot/Secrets).
--   * Registry (registry.go, registry_set.go, registry_sub.go, and valuesEqual of watch.go): the
--     state of a registry, the rebuild with its checks, and the writes with their rollback. The
--     lock makes each write one step from state to state. Registry/Lifecycle has its construction,
--     Close, Reload and Validate (registry.go), Registry/Reads the typed getters (registry_get.go)
--     and Registry/Generic the generic Get, Registry/PerSource the view of each source of a key
--     (per_source.go), Registry/Immutable the baselines of immutable keys, Registry/Same what it
--     means that two values are equal, and Registry/Warnings the queue of warnings, with
--     appendNewWarnings (live.go).
--   * Sources: the key transforms (Sources/Transforms, transforms.go) and the sources of a map
--     (Sources/MapSource, source_map.go), of the environment (Sources/Environment, source_env.go),
--     of families of variables (Sources/Family, source_envfamily.go) and of flags (Sources/Flags,
--     source_flag.go).
--   * Watch (watch.go, events.go): the diff of two snapshots (Watch/Diff), the engine that debounces
--     changes and sends events (Watch/Engine), and its runs as sequences of steps (Watch/Steps).
--   * Codecs (codec.go, format.go): the table of codecs with its lookup by name and extension.
--   * Configs (configs.go): the set of registries with its order and its forwarders.
--   * Backend (remote_inmemory.go): the in-memory backend with its subscriptions.
--   * Binding: the expansion of paths (Binding/Expansion, path_expansion.go), the struct tags
--     (Binding/Tags, tags.go) and the references between keys (Binding/References, expand.go).
--   * Examples: the theorems on concrete inputs.
--   * Prelude: lists, texts as lists of bytes, maps as association lists, and Boolean tests.
--
-- How they interact: the registry hands its sources, layers, aliases and pins (SnapshotInputs) to
-- the build of a snapshot, which flattens the layers, collects the candidate keys, follows each to
-- its canonical key (Alias), and resolves that (Precedence), each source being asked for the path
-- (KeyPath) and then for its aliases. For the registry a source is a record with its name and the
-- functions Get, Keys and NativeKey at the time of the build; the sources modelled here fill Get
-- and Keys. The typed getters read the snapshot that the registry holds. The watch engine answers
-- the changes of sources with a reload of the registry and sends the difference of the two
-- snapshots; the set of registries collects such events from each of its members.
--
-- A Go map is an association list in the order in which it is ranged over, so a theorem about a
-- loop over a map holds for every order. A text is the list of its bytes, and an index into it is
-- the rest of the text. A float64 is its bit pattern; the conversion of a text to it is a part of
-- the text's Go value.
--
-- Parameters of the model: the process environment, the flag parser, the readings of times and
-- durations, the conversion of integers to floats, the texts of floats and times, fmt.Sprint, the
-- codecs, the sources handed to a registry, and the home directories. The locks are not modelled:
-- an operation under its lock is one step.
--
-- Not modelled: the file, standard input and remote sources, the codecs and the watchers of files,
-- which are input and output or wrap other libraries; the validators; the walk of binding over
-- struct fields, coercion and describing, which are reflection for the most part; saving; and the
-- rendering of messages. strings.ToUpper, strings.ToLower and strings.EqualFold are modelled on ASCII
-- texts; of other texts they map or fold the letters of Unicode, and the model leaves those as they
-- are. A nil path and an empty one are the same path. The counter of the codec table has no bound,
-- where it wraps around after 2^64 registrations.
--
-- Bounds and fuel: the loops of ParsePath, topLevelDelims, expandVars and expandValueRefs have the
-- length of the text as fuel, and consume at least a byte in each round, as do those of ParseTag;
-- alias chains have the budget of 32 rounds of the code; a decimal text of 64 bits has at most 20
-- digits.
pub mod Prelude
pub mod KeyPath
pub mod Alias
pub mod Value
pub mod Precedence
pub mod Snapshot
pub mod Sources
pub mod Registry
pub mod Watch
pub mod Codecs
pub mod Configs
pub mod Binding
pub mod Backend
pub mod Examples

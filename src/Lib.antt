-- ===== src/Lib.antt =====
-- A model of azldev, the developer tool of Azure Linux, with the theorems that make its core correct.
--
-- azldev keeps a project of RPM components in a git repository: a configuration names the
-- components, a lock file pins the upstream commit of each, and the spec files are rendered, edited
-- and built. Modelled are the parts that decide, without the processes and the network around them.
--
-- Which file models what (paths from the repository's root):
--   FilePath                   internal/utils/fileutils/file.go (ValidateFilename, with its proof in
--                              Valid, and ValidateRelPath, in Relative), and path/filepath in Clean
--   FileSystem                 internal/global/opctx/interfaces.go (FS), as an interface with laws
--   Lockfile                   internal/lockfile/lockfile.go: LockPath, Parse, Load, Save, Exists,
--                              Remove, ValidateUpstreamCommit; Lockfile.Orphans has
--                              FindOrphanLockFiles and validateConsistency
--   Lockfile.Store             internal/lockfile/store.go: the cached store and its methods
--   UpstreamCommit             internal/upstreamcommit/store.go: the generated upstream commit files
--   RpmVersion                 internal/rpm/version.go: the validation of version strings
--   Retry                      internal/utils/retry/retry.go: Do, and the defaults of its Config
--   Spec.Lines                 internal/rpm/spec/spec.go, edit.go: section table, headers, directives
--   Spec.Macro                 internal/rpm/spec/tree.go: the lexers that find the end of a %define
--   Spec.Tree                  internal/rpm/spec/tree.go: parseTree, with serializeTree in
--                              Spec.Tree.Shape, the scans over all lines in Spec.Tree.Pairs, and the
--                              second pass in Spec.Tree.Build. The proofs: Nesting, Runs and Collected
--                              on the pairs, Bodies and Branches on else lines, Ranges on ranges of
--                              lines, Kept, Cases and RoundTrip on the lines
--                              that the second pass keeps, Fuel and InTime on its fuel
--   Spec.Parsed                internal/rpm/spec/spec.go: parseSpecLine, with tags and section headers
--   Spec.Visit                 internal/rpm/spec/spec.go: the lines of a Spec, the edits of a Context, and
--                              Visit. The proofs: Readers on visitors that change nothing, Moves,
--                              Movers, Rounds and Ends on visitors that insert, replace or remove lines,
--                              Quiet on the steps of visitors that do not fail, Walk with Runs, Passes and
--                              Succeeds on a visit as one pass over the lines
--   Spec.Edit                  internal/rpm/spec/edit.go: the edits of sections; Tags, Insertion and Patches
--                              have those of tags and patches. The proofs: Calls and Outcomes on the
--                              calls of a visitor, Appended, Rewritten, Dropped, SetTag, Inserted, PatchVisits and
--                              PatchesRemoved and PatchesAdded on whole specs; Actions, Walks and PatchWalks
--                              on edits as passes over the lines; PatchNumbers and PatchesNumbered on the
--                              number of a new patch; Prepended with Headers, Calls, Inserting, Rounds and
--                              Endless on lines inserted after a header
--   Spec.Balance               internal/rpm/spec/edit.go: balanceRange, with RemoveSection and
--                              RemoveSubpackage in Spec.Balance.Remove. The proofs: Straddle on a balanced
--                              range, Depth, Segments, Removal and Removed on the depth of conditionals
--                              without it, Scan and Sections on the ranges of a whole spec
--   ParMap                     internal/utils/parmap/parmap.go: Map as steps in any order. The proofs: Slots
--                              on one changed place, Invariant on what each step keeps, Laws and Progress
--                              on runs
--   Archive                    internal/utils/archive/archive.go: DetectCompression, IsArchiveName
--   ProjectConfig.Overlay      internal/projectconfig/overlay.go: overlays and their Validate, with the
--                              metadata of overlay_metadata.go in ProjectConfig.Metadata
--   ProjectConfig.Sources      internal/projectconfig/component.go: source files, ValidateArchiveOverlays
--   ProjectConfig.Publish      internal/projectconfig/component.go, package.go, project.go: publish
--                              channels and package groups; Segments has the names of debuginfo packages,
--                              Channels the order of the channels
--   ProjectConfig.Repos        internal/projectconfig/resources.go: repositories, with URIs and keys in Uris,
--                              templates and sets in Sets, EffectiveRpmRepos in Expansion and
--                              effectiveInputRepos in Inputs. The proofs: Keys, Merge, Expansion.Entries,
--                              Expansion.Union and Inputs.Produced
--   ProjectConfig.Project      internal/projectconfig/project.go: the part of validate that is about
--                              resources. The proofs: Project.Consistent
--   Prelude, Text              shared types, lists and Go strings
--
-- How the code corresponds: a function that returns `(T, error)` returns a `Result`, whose error
-- keeps the format texts and their nesting but not the formatted arguments. A method that changes
-- its receiver or the file system takes the state and returns the new one, also when it fails. Maps
-- are association lists in some iteration order. Strings are lists of code points.
-- strings.ToLower is exact where it gives ASCII letters and leaves other letters as they are, so tags that
-- differ only in the case of such letters are different tags in the model. A path names a file by its
-- text: the store and the locks use joined, cleaned paths only.
--
-- Loops are structural recursions on the lines or on the rounds that are left. The two parsers of
-- the spec tree that call each other take fuel: two units for each line, and one, since each call
-- moves on by a line or goes over from the branches of a conditional to their blocks. A visit of n
-- lines takes (n + 1) * (k + 3) + 1 rounds if no call inserts more than k lines, and none inserts lines
-- after a header that end in one: a visited line, and the lines before it that are parsed again.
--
-- Outside the model: logging, the text of formatted arguments, and concurrency inside the lock store
-- (a `sync.Map`), whose calls are taken one at a time. The file system (afero) and the TOML codec
-- (go-toml) are parameters, and so are the regular expressions of SearchAndReplace and the glob matcher
-- of RemovePatchEntry and of overlays, the URL parser of Go and its quoting verb, and the check of structs
-- by their tags; FileSystem.IsLawful, Lockfile.Codec.IsCodec and
-- UpstreamCommit.Laws.IsConfigCodec say what is assumed of them, and the tests give an
-- instance of each.
--
-- Not modelled: the commands, the preparation of sources, the resolution of components, the queries of
-- repositories and the images, which drive git, dnf, mock and the other tools around the parts above;
-- the hashes of fingerprints and the diff of texts, which are libraries'; of the configuration the
-- merge of its files (the library mergo), images and tests; of the spec tree the transactions of its
-- structural interface.
pub mod Prelude
pub mod Text
pub mod FilePath
pub mod FileSystem
pub mod Lockfile
pub mod Archive
pub mod ParMap
pub mod ProjectConfig
pub mod Retry
pub mod RpmVersion
pub mod Spec
pub mod UpstreamCommit

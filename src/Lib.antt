-- ===== src/Lib.antt =====
-- MDRack retrieves text units and resources by fusing ranked lists from lexical and vector search.
-- This library models its provider-free core, packages/mdrack-core/src/mdrack_core, the
-- identifiers, records and timed grouping of packages/mdrack-media/src/mdrack_media, and the change
-- detection and rank fusion of the host application. The paths of the two packages are left out
-- below.
--
-- The parts, and the files that model them:
-- - Base: what every part shares. Tests and Lists hold Boolean tests and list lemmas over the
--   native numbers, Order a stable sort by a Boolean order (Python's `sorted`), Dict a `dict` as an
--   association list in insertion order, Places the place of a text in a list, Text a `str` as its code points, Int the integers, Results
--   what a call returns or raises, Floats Python's `float` as a parameter.
-- - Core.Errors is domain/errors.py; Core.Common, Core.RequestId and Core.Json are
--   domain/common.py; Core.Records the records of domain/resources.py, domain/vectors.py and
--   domain/batches.py; Core.Search those of domain/search.py and domain/results.py, with what
--   their `__post_init__` methods accept.
-- - Core.Fusion is application/fusion.py: `weighted_rrf` over its dicts and ordinals. Its children
--   state what the result holds: Ids, Scores, Total, Ranking, Evidence. Rounds gives the loops in the
--   case that no division overflows, FirstSeen the ordinals.
-- - Core.Retrieval is application/retrieval.py: Scoping the narrowing of a scope by a branch,
--   Branches the call of a search port and the check of its answer, Units the grouping of
--   candidates, Service `RetrievalService.search`, which runs the branches one after the other,
--   collects candidates, degradations and failures, fuses, and projects the items.
-- - Core.Discovery is `ResourceDiscoveryService` of the same file: duplicates by content hash, and
--   in Similar the neighbours of a whole resource, whose loop doubles its candidate limit. Hits and
--   Duplicates state what they find.
-- - Core.Freeze is the freezing of JSON values of domain/common.py, with its Size, Core.Validation the
--   `_BatchValidator` of application/validation.py, and Core.Validation.Graphs what it accepts.
--   Core.Checks holds what the constructors of the resource records accept.
-- - Core.Publication is domain/publication.py, Core.Indexing application/indexing.py: a write port
--   is a function of a store, which each call passes on; Writes states what reaches the store.
-- - Media.Common is common.py of the media package, Media.Identifiers identifiers.py and
--   fingerprints.py, Media.Policies policies.py, Media.Records records.py, with its frame captions
--   in the child Frames. Media.Grouper is grouper.py: the file itself holds texts, scores and the
--   choice among candidates, Boundary `_find_boundary`, Input the validation and the fingerprint
--   payload, Metrics `_build_metrics`, Run `group_timed_atoms`, Variants the policy variants. The
--   others prove: Outcomes has the rules for steps that may raise, Texts, Candidates, Places,
--   Rounds and Find follow `_find_boundary`, Passages, Payload, Cover and Total the rest; Grouped,
--   Select and Transcripts state what the grouper promises.
-- - Host.Changes is src/mdrack/indexing/change_detector.py, from the rows of its query on.
-- - Host.Scoring is src/mdrack/search/scoring.py; its Ranks states what the
--   fused list holds, Total when it returns.
-- - Samples runs the definitions on concrete values.
--
-- How it is modelled:
-- - A method that may raise returns a `Result PyError`: `except` clauses are matches on it. The
--   arguments have the types that the annotations name, so the `isinstance` tests on them are left
--   out; the answers of a port are not trusted and keep theirs.
-- - A search port is a pure function of branch and scope for each of its methods. The branches of
--   a request have different ids, so a port that answers each call differently is covered.
-- - A `float` is a value of the parameter `Floats`; what a theorem needs of IEEE 754 is the record
--   `IsIeee`, asked of values that are not NaN and not negative.
-- - `x / n` first makes a `float` of the `int` n, which raises `OverflowError` for an n that is too
--   large: `Floats.fits_float` says for which it does not.
-- - A conditional write may answer with any value: `PublishAnswer` tells apart a result, `None` and
--   other values, which have an attribute `applied` or not.
-- - A set is a list that is only asked for membership, a tuple is a list.
-- - `str(uuid.UUID(value))` lowers the digits of a text that the pattern accepts.
-- - The loops are recursion on the lists that they read, but for the `while True` of `similar`,
--   which takes fuel: a port with finitely many hits ends it within one round more than its hits,
--   as each round at least adds one to a positive limit. The freezing of JSON values descends on
--   the levels that `MAX_JSON_DEPTH` leaves.
-- - In the grouper, `atoms` is the slice from `start_index` on, and an index counts from its start.
--   Its outer loop takes as many rounds as there are atoms, which suffice as each passage takes at
--   least one atom; the loop of `_find_boundary` is recursion on the atoms. The token counter is a
--   function of the text that raises nothing; a count that is no natural number is `none`.
-- - `json.dumps`, SHA-256 and `str` of a JSON value are the parameter `Codec`; `IsSha256` says that
--   a digest is written as 64 hexadecimal digits in lower case.
-- - `json.dumps` is a parameter of the validator. A value to be frozen is a value of the JSON
--   grammar, with the keys of a mapping as texts.
--
-- Not modelled: log events (they change no result), the timing of calls, the dictionary forms of
-- the media records and the rest of that package (builders, locators, audio and frames), and the
-- other packages: SQLite stores, vector extension, the rest of the host application under
-- src/mdrack and its command line, which read and write files and databases.
pub mod Base
pub mod Core
pub mod Media
pub mod Host
mod Samples

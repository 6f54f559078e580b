-- ===== src/Lib.antt =====
-- Patsquire PLR builds patent landscape reports: sources are searched and looked up, each record is
-- stored raw and normalised into one canonical form, copies and families are cleaned into a dataset,
-- and language models classify what it holds, through one gateway that caches and logs every call.
-- This library models the program's core logic as functions, and proves what makes it correct.
--
-- The parts, the files that model them, and the code they follow (paths from the repository's root):
--
-- - Publication.antt: `PublicationNumber` and `normalize_publication_number` of
--   src/patsquire_plr/domain/patent.py. The regular expression is the search that it makes, and the
--   Unicode tables for upper case and white space beyond ASCII are a parameter (`Unicode`). The
--   other parts use its `text` as the key of a publication. Match: the search. Normal: its promises.
-- - Patent.antt: the canonical record `PatentDocument` and every validator of it in the same file.
--   A date is its day number. Fields: the fields and the parts. Conditions, Parts and Validity: what the validators decide.
-- - Clean/Copies.antt: `_choose_copies` and `_conflicts` of src/patsquire_plr/clean/dataset.py, on
--   the records of Patent. A time is its instant as a number, and what `model_dump` and `json.dumps`
--   make of a document is a parameter. Partition: what is decided. Groups and Latest: what is kept.
-- - Clean/Families.antt: `_asymmetric_statements` of the same file, on the selected documents.
-- - Clean/Union.antt and Clean/Grouping.antt: `_UnionFind` and `_group_families` of the same file. A loop
--   of `find` has as many rounds as there are nodes, which is enough in every state that calls reach.
--   Forest, Steps, Roots and Linked: what the calls do. Nodes and Components: what is grouped.
-- - Discovery.antt: `_identity`, `_links` and `_choose` of src/patsquire_plr/landscape/discovery.py,
--   which expand a frontier of records by their citations. The rows that the database returns are
--   arguments. Choose, Best and Count: what is counted, picked and linked.
-- - Ingest.antt: src/patsquire_plr/ingest/runner.py, on the rows of one batch. Model: the rows of
--   src/patsquire_plr/db/models.py and the records of src/patsquire_plr/ingest/sources.py. Batch:
--   `_dedupe`, `start_lookup_batch`, `_prepare`, `_abort`. Record: `_record`, which is one transaction:
--   it returns a new store or raises and leaves it. Reconcile: `_reconcile` and `batch_summary`. Run:
--   `run_lookup_batch`. The source and the object storage are parameters, and so is whether the
--   advisory lock is obtained; items are in the order of their commits, raw records are identified
--   by their place, and the one database constraint is that a batch has one raw record for a key.
--   Of the states below Run, Reachable has those that starting and running a batch lead to.
-- - Audit.antt: the hash chain of src/patsquire_plr/db/audit.py. The hash of a content, canonical JSON
--   and then SHA-256, is a parameter; that it is never empty or that no two contents share one are
--   hypotheses of the theorems that use them. Appends are sequential, as the advisory lock makes them.
-- - RateLimit.antt: the token bucket of src/patsquire_plr/ratelimit.py, whose floats are a parameter. A round
--   of `acquire` is one step under the lock, so that a list of rounds is any interleaving of threads.
-- - Gateway.antt, with Model, Retry, Prompt, Key and Chat below it: `ModelGateway` of
--   src/patsquire_plr/gateway/gateway.py with gateway/prompts.py, gateway/store.py and
--   gateway/errors.py: retries, caching, and replies that are validated and repaired. A call is
--   explicit state passing on a `World`, which holds the call log, the cache, the sleeps and the
--   numbers of calls and rate-limited waits. The provider, the schema's validation and the hash of a
--   cache key are parameters: the provider's n-th call does what a function of n says.
-- - Cpc.antt: src/patsquire_plr/classification/cpc.py. Code: symbols, with
--   `normalize_classification_code` of domain/patent.py. Scheme and Within: the class `CpcScheme`. Titles:
--   `parse_title_list` with `_parse_section` and `_entry`; the zip archive is a parameter. Search: the
--   title search. Placed, Listed, Entries and Apart: what the reader keeps true. Paths, Children,
--   Below, Descent and Found: what it gives. A path has as many rounds as the scheme has entries, and
--   as many more as the entry is deep, and `descendants` as many as the scheme has entries; this is
--   enough for every scheme that was read.
-- - Query.antt: `LocalMatcher` of src/patsquire_plr/landscape/queries.py, which says of stored records
--   whether they match a query. Pattern: the phrases' regular expression as the search that it makes.
--   Matcher: the evaluation. Meaning, with
--   Kleene: what a query means. Render: the query in the syntax of the EPO
--   and of BigQuery, where how a date is written and `re.escape` are parameters.
-- - Taxonomy.antt: the drafting of a taxonomy in src/patsquire_plr/landscape/taxonomy.py, which uses the
--   title search and two structured calls of the gateway; what these answer is a parameter. Spec:
--   the data and its validators. Ids, Segment, Pick, Hints and Draft: `segment_id`, `_segment_from_draft`,
--   `_accept_picks`, `draft_taxonomy`. Edit: `content_from_edit`. Fresh: identifiers. Offers, Picked, Drafted,
--   Errors and Content: what is accepted. Replaced and Edited: what an edit becomes. What the Unicode
--   database says of letters is a parameter here and in the two above.
-- - Health.antt: `run_checks` of src/patsquire_plr/health/runner.py.
--
-- Base.antt holds what they share: lists and Boolean tests on native numbers, text with its order
-- (Text), dictionaries in insertion order (Dict), `sorted` (Sort), returning or raising (Result).
--
-- The loops of the code are structural recursion: over a range, the retry loops count what is left of
-- `max_retries + 1` and `max_schema_retries + 1` rounds, which are all there are; `acquire` recurs on
-- the clock readings of its rounds; that it returns is not proved, since with floats a sleep may end
-- before a token is there.
--
-- Not modelled: the database, object storage, the sources that are read over HTTP, the vendors'
-- adapters, the command line and logging, which are input and output; embeddings, names,
-- canonical JSON with the queries that are written in it, and reading and writing taxonomies as YAML.
pub mod Base
pub mod Publication
pub mod Patent
pub mod Clean
pub mod Health
pub mod Discovery
pub mod Ingest
pub mod Audit
pub mod RateLimit
pub mod Gateway
pub mod Cpc
pub mod Query
pub mod Taxonomy

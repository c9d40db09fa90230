-- ===== src/Lib.antt =====
-- Verification of wordsworth, the document pipeline that anonymises, indexes and audits government
-- documents (src/wordsworth of the repository).
--
-- Prelude: what every module shares: equality tests, lists, the monad for code that changes a
--   world and may raise (`Exec`), and the rules for invariants of such code (`Keeps`).
-- Text, Json: the string methods and `json.dumps` as the program uses them.
-- States (src/wordsworth/states.py): the document states and the table of edges.
-- World (src/wordsworth/models.py): the rows, stores and services that one session works on.
-- Audit (audit.py, hashing.py): the hash chain and `verify_chain`; Host is what the code takes from
--   its host, sha256 first.
-- Index, Objects (search_index.py, object_store.py, originals_io.py): the two in-memory stores
--   behind the seams.
-- Dossiers (dossiers.py, dossier_events.py): membership, whose insert the keys of its table may
--   refuse, and the record of each change. View is what a client sees of it, membership as a
--   relation, without the order of the rows.
-- Retry (retry.py): the bounded retry; the loop recurses on the rounds that are left, which are
--   `max(1, attempts)` at its start, as `range` gives them.
-- Tokens (pseudonymizer.py, pseudonym_registry.py): pseudonym tokens in texts, their register, and
--   `_reveal` with the cipher and the key provider as the parameter Vault.
-- Passages (passages.py): word windows.
-- Pipeline (pipeline.py): transitions, registration, ingest, and `process` with the PDF library, the
--   anonymiser, the embedder and the index service as the parameter Services.
-- Deletion (deletion.py): a document's content is removed, step by step; the index answers or fails
--   at each call.
-- Supersession (supersession.py): a copy of an object gives way to the survivor.
-- Recovery (recovery.py): a scanned document gets a text layer and is put back among those to be
--   processed; the OCR engine is an argument.
-- Keys (keys.py, mapping_store.py, crypto.py, escrow.py, key_lifecycle.py, and `Pseudonymizer` of
--   pseudonymizer.py): scopes and their current keys, mappings, escrow and rotation over one
--   `Keystore`. The ciphers, the random draws and the age exchange are the parameters Crypto and
--   Sealing; escrow and rotation take the draws from the counters of the state.
-- Normalization (normalization.py): the canonical form of a value before it is pseudonymised; the
--   Unicode tables and strptime are the parameter Unicode.
-- Originals (originals_envelope.py, document_keys.py, originals_store.py): the sealed format of an
--   original, its wrapped key with the cache of unwrapped ones, and put and get over both. AESGCM is
--   the parameter Sealer, the key service and the draws KeyService.
-- Access (access_identity.py): `email_from`, check by check; reading JSON and base64, and the RSA
--   signature, are the parameter Decoder.
-- DossierDeletion (dossier_deletion.py): a dossier goes, with the documents that it alone holds.
-- ReleaseDeleted (release_deleted.py): the keys of documents that were deleted long ago are released;
--   the loop of `run` is over what it found at its start.
-- Grants (grants.py): what a grant permits at the moment of a reveal.
-- Cache (cache.py): the LRU cache, its entries listed from the oldest; `cached_query`, and the
--   caching embedder with its inner embedder as an argument.
-- RateLimit (rate_limit.py): the token bucket, in whole ticks and units; `unit` is a request's cost.
-- Rag (rag.py, generator.py): the guard that checks an answer's citations.
-- Examples: test runs, and the theorems applied to concrete inputs.
--
-- A world is what one session sees. Other sessions act where the code gives them room: an argument
-- `meanwhile` is what they commit between a look-up and an insert. A savepoint restores the tables;
-- sequences, the clock and the outside services go on.
--
-- Not modelled: HTTP, the console, configuration, the PDF geometry, the ranking of search results,
-- the detectors, the shared stores of keys and rate limits over SQL, and the other command-line jobs.
-- Exceptions carry no message. Upper and lower case are those of the letters A to Z.
pub mod Prelude
pub mod Supersession
pub mod Recovery
pub mod Text
pub mod Json
pub mod States
pub mod World
pub mod Audit
pub mod Index
pub mod Objects
pub mod Dossiers
pub mod Retry
pub mod Tokens
pub mod Passages
pub mod Pipeline
pub mod Deletion
pub mod Originals
pub mod Normalization
pub mod Keys
pub mod Grants
pub mod Access
pub mod Cache
pub mod RateLimit
pub mod Rag
pub mod Examples
pub mod DossierDeletion
pub mod ReleaseDeleted

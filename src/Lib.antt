-- ===== src/Lib.antt =====
-- deltaswamp routes each operation on a Delta table to one of several engines (the native kernel,
-- delta-rs, a SQL warehouse, Delta Sharing, Iceberg). This library models how it decides, how it
-- reads table references, what its metadata-only commits do to protocol and schema, and how it
-- hands out the values of identity columns.
--
-- The parts, and how they interact:
--   Capability (python/deltaswamp/capability.py): the enumerations Engine, Support, FeatureKind,
--     Operation and TableFeature (Names), FEATURE_SUPPORT and FEATURE_DEPENDENCIES (Matrix), the
--     tables of operations (Routing), wire names and the features that legacy versions imply
--     (Wire).
--   Table (python/deltaswamp/catalog/base.py, identity.py): ResolvedTable as the catalog
--     describes a table, with the properties that routing reads.
--   Router (python/deltaswamp/router.py): the decision. Router.capability first asks
--     `_catalog_level_block` (Catalog), then the request's own refusals, then each engine in the
--     order of `_preference` (Preference), every turn checked by the gates of `_capability`
--     (Choose), which call `_direct_refusal`, `_vendable` and `_operation_blocker` (Refusals),
--     `_strands_legacy_table` and `_features_added` (Features), `_calendar_refusal` and
--     `_footerless_rewrite` (Calendar). Router.engine_for (EngineFor) turns the answer into an
--     engine or an error. Guarantees and Answers collect what an answer was checked for, by the
--     loop or by the sharing engine; the promises to the caller rest on them.
--   IdentityColumn (python/deltaswamp/engine/values.py): IdentitySpec, IdentityBlock.slot,
--     IdentityCursor.take and reserve_identity.
--   Reference (python/deltaswamp/identity.py): split_identifier, `_quote` and TableRef.full_name
--     (Split), `_parse_name` and what tells a path from a name (Parse), `_parse_catalog_uri` and
--     parse_ref (Uri). The connection resolves a reference into the table that the router is asked
--     about.
--   Metadata (python/deltaswamp/engine/metadata.py): supported_features and with_features
--     (Protocol), schemas and `_find` (Schema), rename_column and drop_column (Columns),
--     `_widening_allowed` (Widening), `_max_column_id` and `_assign_ids` (Ids). The engines commit
--     such a change once the router has chosen them. Edits relates a schema to the same one with
--     one column edited, Kept and Dropped say what a drop leaves, and Widening says which values
--     a type holds, with a float's mantissa and exponent written out.
--   Sql (python/deltaswamp/engine/sql_text.py): literal, which the statements of the SQL engine
--     quote their texts with (Literals). The reader of literals that its theorem is about knows
--     the two escapes that `literal` writes, which are those of the warehouse's SQL.
--   Predicate (python/deltaswamp/predicate.py): Column, Literal and Node (Tree), and the form
--     that the kernel skips files by: `_unsafe_columns`, `_stats_can_decide`, `_skip_leaf` and
--     `_skip` (Skip), and the end of the range of a LIKE with a prefix, `_after_prefix` (Prefix).
--     Meaning says in three-valued logic what a node says of a row, its comparisons by
--     `_ArrowBuilder.compare`, and what the kernel's form says; Pairs, Leaves and Sound relate the
--     two. The tree that `_skip` is given is prepared already by `_prepare_skipping`.
--   Credentials (python/deltaswamp/credentials/base.py, broker.py and refresh.py, and
--     ShippedCredentials of python/deltaswamp/distributed.py): Credentials,
--     StaticCredentialProvider and CredentialBroker (Vended), the credential that a plan ships and
--     `_sourced` (Shipped), `_Refresher` (Slots) with its steps (Refresh). A plan's source may be
--     a broker.
--   Datetimes (python/deltaswamp/engine/calendar.py): the files whose statistics do not rule out
--     a date that a legacy calendar moves (Stats). The router asks the kernel for them before
--     delta-rs rewrites a table.
--   Distributed (python/deltaswamp/distributed.py): balance and ScanPlan.partitions (Balance).
--   Prelude: library names passed on, Boolean tests, lists, texts and integers over the native
--     numbers.
--
-- How code and model correspond: a function has the name of the source's, without the leading
-- underscore. A frozenset of enumeration members is a test by clauses; a frozenset of names is a
-- list, and a dict its entries in order. A refusal is a constructor of Refusal or Reason with the
-- values that its message spells out; the English text is not modelled, nor its sorting. `lower`
-- and `strip` act on ASCII. A time is a number of milliseconds, so halves and quarters of a span
-- are rounded down; a call that waits for an answer has a time before and one after. A JSON text
-- of statistics is what `fromisoformat` reads in it. Where code walks characters, as in
-- references and column names, a text is the list of its code points. The loop over the engines
-- is `walk`, one turn of it `consider`.
--
-- Parameters: what the router uses of an engine is the record EngineImpl (supports, the
-- supports_... attributes, need_refusal, the looks at data files, which end in a Probe), and what
-- parse_ref asks of the local file system is the record Host; the engines themselves are not
-- modelled. A credential source is a function, of which IsHonest asks that it answers for the
-- operation it is asked for; IsTrue asks of a file's statistics that they bound its values. The
-- predicates take the order of plain values and the value of an operand in a row as parameters,
-- for Arrow's; IsTold asks of what the kernel makes of statistics that it is right about a
-- comparison with neither NaN nor a wide decimal, and of the row that NaN stands in floating
-- columns only. The steps of _Refresher take from the environment the time, the process, whether
-- a provider lives and what it vends; each call is one step, but `_drop`, which gives up the
-- lock, is two. NamesItself is the one law asked of them: an engine that agrees names itself in
-- its verdict. The flag native_constraints stands for what the native build reports.
--
-- Fuel: `_features_added` repeats while a name is pending. Each round takes one name, and each is
-- put there once at most, so the number of names given plus the number of all features is enough.
-- with_features may put a name there more than once, but the dependencies of a feature only once,
-- so its fuel is the number of names given plus that of all dependencies.
--
-- Not modelled: the engines and catalogs themselves, which are I/O; the table and connection
-- classes over them; SQL text but for string literals; the lexer and the parser of predicates,
-- their rewrite by the schema and their renderers for Arrow and DataFusion, the other metadata
-- changes, the catalogs' credential providers, the caches of the calendar and its looks at Arrow
-- data, and distributed writes; the lock of IdentityCursor, whose take is one step, and the
-- cursors that a process shares; the native Rust extension.
pub mod Prelude
pub mod Capability
pub mod Table
pub mod Router
pub mod IdentityColumn
pub mod Reference
pub mod Metadata
pub mod Sql
pub mod Predicate
pub mod Credentials
pub mod Datetimes
pub mod Distributed
mod Tests

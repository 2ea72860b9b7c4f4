-- ===== src/Router/Types.antt =====
-- The data that python/deltaswamp/router.py passes around: refusals, remedies, capabilities, the
-- shape of a request, the engines and the router itself.
use deltaswamp.Prelude.{Bool, List, Option, String, [], false, none, some, true, ℕ, ◌||◌, ◌∷◌}
use deltaswamp.Capability.Names.{Engine, Operation, deltars, kernel, same_engine}
use deltaswamp.Table.{ResolvedTable, TableType}

-- Why one engine is passed over. Each constructor is one message of the source, with the values
-- that the message spells out.
pub data Refusal : Type 0 where
  -- the loop of `_capability`
  tried foreign_catalog no_warehouse_name fallback_disabled not_configured collated shreds : Refusal
  lacks : List String → Refusal
  need_refused : String → Refusal
  said : String → Refusal
  -- `_direct_refusal`
  not_delta view_object foreign_table hive_catalog catalog_commits : Refusal
  log_unread : String → Refusal
  -- `_strands_legacy_table` and `_strands_feature_table`
  strands_legacy : ℕ → List String → Refusal
  strands_features : List String → Refusal
  -- `_unvendable_reason`
  policy_unvended : String → Refusal
  no_external_read : Refusal
  no_external_write : Operation → Refusal
  -- `_operation_blocker`
  append_only_table : Operation → Refusal
  iceberg_of_record uniform_stale : Refusal
  needs_column_mapping : Operation → Refusal
  needs_type_widening : Refusal
  feature_blocked : Operation → List String → Refusal
  legacy_log : ℕ → Refusal
  unwritable_log : List String → Refusal
  declares_invariants : Refusal
  -- `_calendar_refusal` and `_footerless_rewrite`
  calendar_unchecked : String → Refusal
  shifted_read : List String → Refusal
  shifted_rewrite : List String → Refusal
  footer_unchecked : String → Refusal
  early_rewrite : List String → Refusal

-- Why an operation is not served, as a whole. `refusals` is the list of messages that the source
-- joins by "; ", each behind the name of its engine.
pub data Reason : Type 0 where
  engine_said : String → Reason
  refusals : List (Engine × Refusal) → Reason
  identity_given identity_updated merge_removes_rows no_sharing_engine append_only_rows : Reason
  sharing_lacks : List String → Reason
  iceberg_format : String → Bool → Reason
  other_format : String → Reason
  query_defined : Option TableType → Operation → Reason
  no_file_surface : Option TableType → Bool → Reason
  policy_history : String → Reason
  warehouse_required : Refusal → Reason
  unvendable : Refusal → Reason
  unreadable : String → Reason
  geospatial_column : Reason
  databricks_elsewhere databricks_unnamed databricks_operation : Operation → Reason

pub data Remedy : Type 0 where
  nothing sql_fallback query_fallback route_fallback register fix_authentication : Remedy
  install_sharing install_iceberg drop_identity name_columns insert_only unset_append_only : Remedy
  write_sources : Bool → Remedy
  check_location : String → Remedy
  advised : String → Remedy

pub record Capability : Type 0 where
  pub operation : Operation
  pub ok : Bool
  pub engine : Option Engine
  pub reason : Reason
  pub remedy : Remedy

-- `Capability(operation, ok=False, reason=..., remedy=...)`
abbrev pub refuse : Operation → Reason → Remedy → Capability
refuse o r m = record { operation = o; ok = false; engine = none; reason = r; remedy = m }

-- A refusal of an operation as a whole, before any engine is asked.
pub record Blocked : Type 0 where
  pub reason : Reason
  pub remedy : Remedy

abbrev pub blocked : Reason → Remedy → Blocked
blocked r m = record { reason = r; remedy = m }

-- An engine's own verdict, whose reason and remedy are its text.
pub record Verdict : Type 0 where
  pub ok : Bool
  pub engine : Option Engine
  pub reason : String
  pub remedy : String

-- The keyword arguments of a call that routing reads; `none`, `[]` and `false` stand for absent.
pub record Shape : Type 0 where
  pub feature_names : List String
  pub property_changes : List (String × String)
  pub dry_run : Bool
  pub version : Option ℕ
  pub timestamp : Option String

-- A look at the data files of a table: it raised, with the text of the exception, or it found
-- these files.
pub data Probe : Type 0 where
  raised : String → Probe
  found : List String → Probe

-- What the router uses of an engine. `has_need n` is the attribute `supports_<n>`, false where it
-- is missing; a method that an engine may lack is optional, or answers as its absence does.
pub record EngineImpl : Type 0 where
  pub supports : Operation → ResolvedTable → Shape → Verdict
  pub has_need : String → Bool
  pub need_refusal : List String → ResolvedTable → Option String
  pub checkpoints_past : Bool
  pub has_invariants : ResolvedTable → Bool
  pub dml_sql : Bool
  pub read_sql : Bool
  pub legacy_calendar_files : Option (ResolvedTable → Option ℕ → Option String → Probe)
  pub early_files : Option (ResolvedTable → Probe)
  pub writes_files : Operation → ResolvedTable → Shape → Bool

-- `class Router`. `native_constraints` is `_native_has("check_constraints")` of the native build.
pub record Router : Type 0 where
  pub engines : Engine → Option EngineImpl
  pub allow_sql_fallback : Bool
  pub warehouse_catalog : Bool
  pub native_constraints : Bool

-- `_DIRECT_ENGINES`
unfoldable pub is_direct : Engine → Bool
is_direct kernel = true
is_direct deltars = true
is_direct _ = false

-- `kind in kinds`
unfoldable pub has_engine : Engine → List Engine → Bool
unfolding same_engine
has_engine k [] = false
has_engine k (j ∷ js) = same_engine k j || has_engine k js

-- A message where a condition holds.
abbrev pub refuse_if {ℓ} : {A : Type ℓ} → Bool → A → Option A
refuse_if true r = some r
refuse_if false r = none

-- The truth of a text that may be missing.
unfoldable pub has_text : Option String → Bool
has_text none = false
has_text (some String.[]) = false
has_text (some (String.◌∷◌ c s)) = true

-- `text or ""`
abbrev pub text_or : String → Option String → String
text_or d none = d
text_or d (some s) = s

-- `version or 0`
abbrev pub version_or_zero : Option ℕ → ℕ
version_or_zero none = 0
version_or_zero (some v) = v

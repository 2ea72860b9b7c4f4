-- ===== src/IdentityColumn.antt =====
-- Identity columns of python/deltaswamp/engine/values.py: IdentitySpec, IdentityBlock,
-- IdentityCursor, _identity_spec and reserve_identity. Integers are unbounded, as in Python; the
-- metadata's values are already read as integers, and an InvalidArgumentError is `none`.
pub mod Slots
pub mod Draws
pub mod Reserve
use text.Mathlib.Text.{◌==◌ as str_eq}
use deltaswamp.Prelude.{
  Bool, List, Option, String, [], all, if◌then◌else◌, ltb, map, none, not, some, ℕ, ◌&&◌, ◌*◌, ◌+◌,
  ◌-◌, ◌/◌, ◌==◌, ◌^◌, ◌||◌, ◌∷◌,
}
use deltaswamp.Prelude.Int.{leb_ℤ, negsuc, pos, ℤ, ◌*ℤ◌, ◌+ℤ◌}
use deltaswamp.Prelude.Text.{mem}

-- One identity column, as its field metadata declares it.
pub record IdentitySpec : Type 0 where
  pub name : String
  pub start : ℤ
  pub step : ℤ
  pub high_water_mark : Option ℤ
  pub allow_explicit : Bool

-- The first value no writer has generated yet.
unfoldable pub first_free : IdentitySpec → ℤ
first_free spec = elim spec.high_water_mark [ none ↦ spec.start | some h ↦ h +ℤ spec.step ]

-- Values `first, first + step, ...`, `count` of them.
pub record IdentityBlock : Type 0 where
  pub first : ℤ
  pub step : ℤ
  pub count : ℕ

-- The value at an index of a block: `first + index * step`.
unfoldable pub value : IdentityBlock → ℕ → ℤ
value block index = block.first +ℤ (pos index *ℤ block.step)

-- The record that `slot` returns.
unfoldable pub slot_block : IdentityBlock → ℕ → ℕ → IdentityBlock
slot_block block index size = record {
  first = block.first +ℤ (pos (index * size) *ℤ block.step);
  step = block.step;
  count = size;
}

-- `IdentityBlock.slot`: the part of the block for one of `slots` writers. Outside
-- `0 <= index < slots` it is refused.
unfoldable pub slot : IdentityBlock → ℤ → ℤ → Option IdentityBlock
unfolding slot_block
slot block (pos index) (pos slots) =
    if slots == 0 || not (ltb index slots)
    then none
    else some (slot_block block index (block.count / slots))
slot block _ _ = none

-- `IdentityCursor`, the lock left out: a call is one step.
pub record IdentityCursor : Type 0 where
  pub block : IdentityBlock
  pub used : ℕ

-- `IdentityCursor.take`: the first of `rows` fresh values, and the cursor after it.
unfoldable pub take : IdentityCursor → ℕ → Option (ℤ × IdentityCursor)
unfolding value
take cursor rows =
    if ltb cursor.block.count (cursor.used + rows)
    then none
    else some (value cursor.block cursor.used, record cursor { used = cursor.used + rows })

-- The metadata keys `delta.identity.*` of a field; `none` where a key is absent.
pub record IdentityMeta : Type 0 where
  pub meta_start : Option ℤ
  pub meta_step : Option ℤ
  pub meta_high_water_mark : Option ℤ
  pub meta_explicit : Bool

abbrev pub number : Option ℤ → ℤ → ℤ
number none default = default
number (some n) default = n

-- `_identity_spec`
unfoldable pub identity_spec : String → IdentityMeta → IdentitySpec
identity_spec name m = record {
  name = name;
  start = number m.meta_start (pos 1);
  step = number m.meta_step (pos 1);
  high_water_mark = m.meta_high_water_mark;
  allow_explicit = m.meta_explicit;
}

-- A top-level field of the schema.
pub record SchemaField : Type 0 where
  pub field_name : String
  pub field_meta : IdentityMeta

-- `_INT64`
unfoldable pub in_int64 : ℤ → Bool
in_int64 n = leb_ℤ (negsuc (2 ^ 63 - 1)) n && leb_ℤ n (pos (2 ^ 63 - 1))

-- The block that a field's next `count` values make.
unfoldable pub next_block : SchemaField → ℕ → IdentityBlock
unfolding first_free identity_spec
next_block f count =
    let spec = identity_spec f.field_name f.field_meta in
    record { first = first_free spec; step = spec.step; count = count }

-- `last`: the value at the end of a block.
unfoldable pub last_value : IdentityBlock → ℤ
unfolding value
last_value block = value block (block.count - 1)

-- `f.setdefault("metadata", {})[_IDENTITY_HWM] = last`
unfoldable pub mark : SchemaField → ℤ → SchemaField
mark f last = record f { field_meta = record f.field_meta { meta_high_water_mark = some last } }

-- One turn of the loop of `reserve_identity`: the field after it and the block reserved, if its
-- count is positive; `none` where the values would leave the range of a BIGINT.
unfoldable pub reserve_field : SchemaField → ℕ → Option (SchemaField × Option IdentityBlock)
unfolding next_block last_value in_int64 mark
reserve_field f count =
    let block = next_block f count in
    let last = last_value block in
    if count == 0
    then some (f, none)
    else if not (in_int64 block.first && in_int64 last)
    then none
    else some (mark f last, some block)

-- `counts.get(name, 0)`
unfoldable pub count_of : String → List (String × ℕ) → ℕ
count_of name [] = 0
count_of name ((k, n) ∷ counts) = if str_eq k name then n else count_of name counts

infixl 5 ◌>>=◌
abbrev pub ◌>>=◌ {ℓ κ} : {A : Type ℓ} {B : Type κ} → Option A → (A → Option B) → Option B
none >>= f = none
some a >>= f = f a

abbrev pub keep_block :
    String → Option IdentityBlock → List (String × IdentityBlock) → List (String × IdentityBlock)
keep_block name none blocks = blocks
keep_block name (some b) blocks = (name, b) ∷ blocks

-- The loop over the fields of the schema.
unfoldable pub reserve_fields :
    List SchemaField → List (String × ℕ) → Option (List SchemaField × List (String × IdentityBlock))
unfolding reserve_field count_of
reserve_fields [] counts = some ([], [])
reserve_fields (f ∷ fs) counts = do
  (f', b) ← reserve_field f (count_of f.field_name counts)
  (fs', blocks) ← reserve_fields fs counts
  some (f' ∷ fs', keep_block f.field_name b blocks)

-- `sorted(set(counts) - {names})` is empty.
unfoldable pub all_known : List (String × ℕ) → List SchemaField → Bool
unfolding mem all
all_known counts fields = all (λ c. mem c.0 (map (λ (f : SchemaField). f.field_name) fields)) counts

-- `reserve_identity`: the schema with its marks moved and the blocks reserved.
unfoldable pub reserve_identity :
    List SchemaField → List (String × ℕ) → Option (List SchemaField × List (String × IdentityBlock))
unfolding reserve_fields all_known
reserve_identity fields counts = do
  r ← reserve_fields fields counts
  if all_known counts fields then some r else none

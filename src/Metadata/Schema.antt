-- ===== src/Metadata/Schema.antt =====
-- Delta schemas and column paths (python/deltaswamp/engine/metadata.py: _find, _walk,
-- _physical_name, _physical_path). Names are code points, and names are compared in lower case,
-- as ASCII folds it.

use mathlib.Core.Option
use deltaswamp.Prelude.{
  Bool, List, Option, String, [], if◌then◌else◌, none, some, suc, zero, ℕ, ◌++◌, ◌∷◌,
}
use deltaswamp.IdentityColumn.Slots.{part}
use deltaswamp.Prelude.Text.{codes_eq, lookup}
use deltaswamp.Reference.Parse.{lower_text}
use deltaswamp.Reference.Split.{Invalid, Text}

-- A value of a field's metadata.
pub data Value : Type 0 where
  num : ℕ → Value
  str : Text → Value
  other : Value

abbrev pub Notes : Type 0
Notes = List (String × Value)

-- A schema's types. A field has a name, a type, whether it is nullable, and its metadata.
mutual
  pub data DataType : Type 0 where
    primitive : Text → DataType
    struct : Fields → DataType
    array : DataType → DataType
    map_of : DataType → DataType → DataType

  pub data Fields : Type 0 where
    no_fields : Fields
    field : Text → DataType → Bool → Notes → Fields → Fields

-- Why a metadata change is refused.
pub data Refused : Type 0 where
  not_a_path : Invalid → Refused
  no_column not_a_struct empty_path : Refused
  no_column_mapping unsupported_mapping : Refused
  partition_column last_column last_field last_data_column clustering_column referenced : Refused
  leaves_struct empty_name taken_name reserved_name differs_in_case : Refused

pub data Outcome {ℓ} (A : Type ℓ) : Type ℓ where
  refused : Refused → Outcome A
  done : A → Outcome A

infixl 5 ◌>>=◌
abbrev pub ◌>>=◌ {ℓ κ} : {A : Type ℓ} {B : Type κ} → Outcome A → (A → Outcome B) → Outcome B
refused e >>= f = refused e
done a >>= f = f a

-- `a.lower() == b.lower()`
unfoldable pub same_name : Text → Text → Bool
unfolding codes_eq lower_text
same_name a b = codes_eq (lower_text a) (lower_text b)

unfoldable pub names_of : Fields → List Text
names_of no_fields = []
names_of (field name t n m fs) = name ∷ names_of fs

unfoldable pub count_fields : Fields → ℕ
count_fields no_fields = 0
count_fields (field name t n m fs) = suc (count_fields fs)

-- The index of the first field of a name.
unfoldable pub index_of : Text → Fields → Option ℕ
unfolding same_name
index_of name no_fields = none
index_of name (field f t n m fs) =
    if same_name f name then some 0 else Option.map suc (index_of name fs)

-- The fields of a struct.
abbrev pub fields_of : DataType → Option Fields
fields_of (struct fs) = some fs
fields_of _ = none

-- The fields nested in the field at an index.
unfoldable pub child_at : Fields → ℕ → Option Fields
child_at no_fields i = none
child_at (field f t n m fs) zero = fields_of t
child_at (field f t n m fs) (suc i) = child_at fs i

unfoldable pub set_child : Fields → ℕ → Fields → Fields
set_child no_fields i inner = no_fields
set_child (field f t n m fs) zero inner = field f (struct inner) n m fs
set_child (field f t n m fs) (suc i) inner = field f t n m (set_child fs i inner)

-- `_find`: the list of fields that holds a column, and the column's index in it.
unfoldable pub find : List Text → Fields → Outcome (Fields × ℕ)
unfolding index_of child_at
find [] fs = refused empty_path
find (part ∷ []) fs = elim (index_of part fs) [ none ↦ refused no_column | some i ↦ done (fs, i) ]
find (part ∷ next ∷ path) fs = elim (index_of part fs) [
  | none ↦ refused no_column
  | some i ↦ elim (child_at fs i) [
    | none ↦ refused not_a_struct
    | some inner ↦ find (next ∷ path) inner
  ]
]

-- The schema after its caller has changed the list of fields that `_find` returned, in place.
unfoldable pub modify : (Fields → ℕ → Fields) → List Text → Fields → Fields
unfolding index_of child_at set_child
modify edit [] fs = fs
modify edit (part ∷ []) fs = elim (index_of part fs) [ none ↦ fs | some i ↦ edit fs i ]
modify edit (part ∷ next ∷ path) fs = elim (index_of part fs) [
  | none ↦ fs
  | some i ↦ elim (child_at fs i) [
    | none ↦ fs
    | some inner ↦ set_child fs i (modify edit (next ∷ path) inner)
  ]
]

-- The name of a field, a new name for it, the list without it, and the other fields' names.
unfoldable pub name_at : Fields → ℕ → Text
name_at no_fields i = []
name_at (field f t n m fs) zero = f
name_at (field f t n m fs) (suc i) = name_at fs i

unfoldable pub set_name : Text → Fields → ℕ → Fields
set_name new no_fields i = no_fields
set_name new (field f t n m fs) zero = field new t n m fs
set_name new (field f t n m fs) (suc i) = field f t n m (set_name new fs i)

unfoldable pub remove_at : Fields → ℕ → Fields
remove_at no_fields i = no_fields
remove_at (field f t n m fs) zero = fs
remove_at (field f t n m fs) (suc i) = field f t n m (remove_at fs i)

unfoldable pub names_beside : Fields → ℕ → List Text
names_beside no_fields i = []
names_beside (field f t n m fs) zero = names_of fs
names_beside (field f t n m fs) (suc i) = f ∷ names_beside fs i

-- `(f.get("metadata") or {}).get(_CM_PHYSICAL, f["name"])`
abbrev pub text_value : Text → Option Value → Text
text_value default (some (str t)) = t
text_value default _ = default

unfoldable pub physical_name : Text → Notes → Text
unfolding lookup
physical_name name notes = text_value name (lookup "delta.columnMapping.physicalName" notes)

unfoldable pub physical_at : Fields → ℕ → Text
unfolding physical_name
physical_at no_fields i = []
physical_at (field f t n m fs) zero = physical_name f m
physical_at (field f t n m fs) (suc i) = physical_at fs i

-- Every field nested anywhere, depth-first, as its physical name and its metadata: what the data
-- files and the readers know it by.
unfoldable mutual
  pub walk_type : DataType → List (Text × Notes)
  walk_type (primitive name) = []
  walk_type (struct fs) = walk_fields fs
  walk_type (array t) = walk_type t
  walk_type (map_of k v) = walk_type k ++ walk_type v

  pub walk_fields : Fields → List (Text × Notes)
  walk_fields no_fields = []
  walk_fields (field name t n m fs) = (physical_name name m, m) ∷ walk_type t ++ walk_fields fs

-- Every field nested anywhere, with its name.
unfoldable mutual
  pub notes_in_type : DataType → List (Text × Notes)
  notes_in_type (primitive name) = []
  notes_in_type (struct fs) = notes_in fs
  notes_in_type (array t) = notes_in_type t
  notes_in_type (map_of k v) = notes_in_type k ++ notes_in_type v

  pub notes_in : Fields → List (Text × Notes)
  notes_in no_fields = []
  notes_in (field name t n m fs) = (name, m) ∷ notes_in_type t ++ notes_in fs

-- `_physical_path`: the physical names along a path, as far as it leads.
unfoldable pub physical_path : List Text → Fields → List Text
unfolding index_of child_at
physical_path [] fs = []
physical_path (part ∷ path) fs = elim (index_of part fs) [
  | none ↦ []
  | some i ↦
      physical_at fs i ∷ elim (child_at fs i) [ none ↦ [] | some inner ↦ physical_path path inner ]
]

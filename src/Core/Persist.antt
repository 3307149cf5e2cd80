-- ===== src/Core/Persist.antt =====
-- native/src/core/resetprop/persist.rs: persistent properties, in a protobuf file that is a list of
-- records, or in a file each. The state is what is on disk; an error leaves it as it was.
pub mod Order
pub mod Lookup
mod Tests
use magisk_t.Prelude.{
  ℕ, zero, suc, Ordering, Bool, true, false, Option, none, some, List, [], ◌∷◌, if◌then◌else◌,
  Bytes, cmp, ◌>>=◌, Outcome, ok, err,
}
use magisk_t.BtreeMap as Map
use magisk_t.BtreeMap.{BtreeMap}

pub record PropertyRecord : Type 0 where
  pub name : Option Bytes
  pub value : Option Bytes

-- `proto` is none when there is no such file; `reads` and `writes` say whether the calls succeed
-- that read and decode, or encode and rename.
pub record Storage : Type 0 where
  pub proto : Option (List PropertyRecord)
  pub files : BtreeMap Bytes
  pub reads : Bool
  pub writes : Bool

-- `Ord` of `Option<&str>`
unfoldable pub cmp_name : Option Bytes → Option Bytes → Ordering
cmp_name none none = Ordering.eq
cmp_name none (some b) = Ordering.lt
cmp_name (some a) none = Ordering.gt
cmp_name (some a) (some b) = cmp a b

pub data SearchResult : Type 0 where
  found : ℕ → SearchResult
  insert_at : ℕ → SearchResult

unfoldable pub next_index : SearchResult → SearchResult
next_index (found idx) = found (suc idx)
next_index (insert_at idx) = insert_at (suc idx)

-- `find_index`: what `binary_search_by` promises on a list in order.
unfoldable pub find_index : Bytes → List PropertyRecord → SearchResult
unfolding cmp_name next_index
find_index name [] = insert_at 0
find_index name (p ∷ properties) =
    let later = next_index (find_index name properties) in
    elim (cmp_name p.name (some name)) [
      | Ordering.lt ↦ later
      | Ordering.eq ↦ found 0
      | Ordering.gt ↦ insert_at 0
    ]

unfoldable pub nth {ℓ} : {A : Type ℓ} → ℕ → List A → Option A
nth idx [] = none
nth zero (a ∷ rest) = some a
nth (suc idx) (a ∷ rest) = nth idx rest

unfoldable pub find : Bytes → List PropertyRecord → Option PropertyRecord
unfolding find_index nth
find name properties = elim (find_index name properties) [
  | found idx ↦ nth idx properties
  | insert_at idx ↦ none
]

-- `properties[idx].value = ..`, and `Vec::insert` and `Vec::remove`.
unfoldable pub set_value : ℕ → Bytes → List PropertyRecord → List PropertyRecord
set_value idx val [] = []
set_value zero val (p ∷ properties) = record { name = p.name; value = some val } ∷ properties
set_value (suc idx) val (p ∷ properties) = p ∷ set_value idx val properties

unfoldable pub vec_insert {ℓ} : {A : Type ℓ} → ℕ → A → List A → List A
vec_insert zero new rest = new ∷ rest
vec_insert (suc idx) new [] = new ∷ []
vec_insert (suc idx) new (a ∷ rest) = a ∷ vec_insert idx new rest

unfoldable pub vec_remove {ℓ} : {A : Type ℓ} → ℕ → List A → List A
vec_remove idx [] = []
vec_remove zero (a ∷ rest) = rest
vec_remove (suc idx) (a ∷ rest) = a ∷ vec_remove idx rest

-- `sort_unstable_by`; records of one name stay in their order here.
unfoldable pub is_after : PropertyRecord → PropertyRecord → Bool
unfolding cmp_name
is_after p q = elim (cmp_name p.name q.name) [
  | Ordering.gt ↦ true
  | Ordering.eq ↦ false
  | Ordering.lt ↦ false
]

unfoldable pub insert_sorted : PropertyRecord → List PropertyRecord → List PropertyRecord
unfolding is_after
insert_sorted p [] = p ∷ []
insert_sorted p (q ∷ properties) =
    let later = insert_sorted p properties in if is_after p q then q ∷ later else p ∷ q ∷ properties

unfoldable pub sort : List PropertyRecord → List PropertyRecord
unfolding insert_sorted
sort [] = []
sort (p ∷ properties) = insert_sorted p (sort properties)

unfoldable pub proto_read_props : Storage → List PropertyRecord → Outcome (List PropertyRecord)
unfolding sort
proto_read_props s written = if s.reads then ok (sort written) else err

unfoldable pub proto_write_props : Storage → List PropertyRecord → Outcome Storage
proto_write_props s properties =
    if s.writes
    then ok
        (record { proto = some properties; files = s.files; reads = s.reads; writes = s.writes })
    else err

unfoldable pub file_get_prop : Storage → Bytes → Outcome Bytes
unfolding Map.get
file_get_prop s name =
    if s.reads then elim (Map.get name s.files) [ none ↦ err | some value ↦ ok value ] else err

unfoldable pub with_files : Storage → BtreeMap Bytes → Storage
with_files s files = record { proto = s.proto; files = files; reads = s.reads; writes = s.writes }

unfoldable pub file_set_prop : Storage → Bytes → Option Bytes → Outcome Storage
unfolding Map.get Map.insert Map.remove with_files
file_set_prop s name (some value) =
    if s.writes then ok (with_files s (Map.insert name value s.files)) else err
file_set_prop s name none = elim (Map.get name s.files) [
  | none ↦ err
  | some old ↦ if s.writes then ok (with_files s (Map.remove name s.files)) else err
]

unfoldable pub value_of : Option PropertyRecord → Outcome Bytes
value_of none = err
value_of (some p) = elim p.name [
  | none ↦ err
  | some name ↦ elim p.value [ none ↦ err | some value ↦ ok value ]
]

unfoldable pub persist_get_prop : Storage → Bytes → Outcome Bytes
unfolding proto_read_props find value_of file_get_prop
persist_get_prop s key = elim s.proto [
  | none ↦ file_get_prop s key
  | some written ↦ do props ← proto_read_props s written; value_of (find key props)
]

-- The pairs that are given to the reader, in order.
unfoldable pub all_values : List PropertyRecord → List (Bytes × Bytes)
all_values [] = []
all_values (p ∷ properties) =
    let rest = all_values properties in
    elim p.name [
      | none ↦ rest
      | some name ↦ elim p.value [ none ↦ rest | some value ↦ (name, value) ∷ rest ]
    ]

unfoldable pub persist_get_all_props : Storage → Outcome (List (Bytes × Bytes))
unfolding proto_read_props all_values
persist_get_all_props s = elim s.proto [
  | none ↦ if s.reads then ok s.files else err
  | some written ↦ do props ← proto_read_props s written; ok (all_values props)
]

unfoldable pub remove_found : Bytes → List PropertyRecord → Outcome (List PropertyRecord)
unfolding find_index vec_remove
remove_found key properties = elim (find_index key properties) [
  | found idx ↦ ok (vec_remove idx properties)
  | insert_at idx ↦ err
]

unfoldable pub persist_delete_prop : Storage → Bytes → Outcome Storage
unfolding proto_read_props proto_write_props remove_found file_set_prop
persist_delete_prop s key = elim s.proto [
  | none ↦ file_set_prop s key none
  | some written ↦ do
    props ← proto_read_props s written
    left ← remove_found key props
    proto_write_props s left
]

unfoldable pub update : Bytes → Bytes → List PropertyRecord → List PropertyRecord
unfolding find_index set_value vec_insert
update key val properties = elim (find_index key properties) [
  | found idx ↦ set_value idx val properties
  | insert_at idx ↦ vec_insert idx (record { name = some key; value = some val }) properties
]

unfoldable pub persist_set_prop : Storage → Bytes → Bytes → Outcome Storage
unfolding proto_read_props proto_write_props update file_set_prop
persist_set_prop s key val = elim s.proto [
  | none ↦ file_set_prop s key (some val)
  | some written ↦ do props ← proto_read_props s written; proto_write_props s (update key val props)
]

-- ===== src/Core/Persist/Tests.antt =====
-- Runs of native/src/core/resetprop/persist.rs, and the theorems at concrete inputs.
use magisk_t.Prelude.{
  ◌≤◌, ◌≡◌, refl, subst, true, some, List, [], ◌∷◌, arith, if◌then◌else◌, Bytes, codes, bytes_eq,
  ok, err,
}
use magisk_t.Core.Persist.{
  PropertyRecord, Storage, persist_get_prop, persist_set_prop, persist_delete_prop,
  persist_get_all_props,
}
use magisk_t.Core.Persist.Lookup.Removal.{copies}
use magisk_t.Core.Persist.Lookup.Delete.{persist_get_prop-persist_delete_prop}
use magisk_t.Core.Persist.Lookup.{persist_get_prop-persist_set_prop}

abbrev record_of : Bytes → Bytes → PropertyRecord
record_of name value = record { name = some name; value = some value }

-- Not in order on disk.
abbrev stored : Storage
stored = record {
  proto = some (record_of (codes "b") (codes "2") ∷ record_of (codes "a") (codes "1") ∷ []);
  files = [];
  reads = true;
  writes = true;
}

abbrev changed : Storage
changed = record {
  proto = some (
      record_of (codes "a") (codes "1")
      ∷ record_of (codes "aa") (codes "3")
      ∷ record_of (codes "b") (codes "2")
      ∷ []);
  files = [];
  reads = true;
  writes = true;
}

set_run : persist_set_prop stored (codes "aa") (codes "3") ≡ ok changed
unfolding persist_set_prop
set_run = refl

delete_run : persist_delete_prop changed (codes "zz") ≡ err
unfolding persist_delete_prop
delete_run = refl

get_all_run :
    persist_get_all_props stored ≡ ok ((codes "a", codes "1") ∷ (codes "b", codes "2") ∷ [])
unfolding persist_get_all_props
get_all_run = refl

persist_get_prop-persist_set_prop_example : persist_get_prop changed (codes "b") ≡ (
    if bytes_eq (codes "aa") (codes "b")
    then ok (codes "3")
    else persist_get_prop stored (codes "b"))
persist_get_prop-persist_set_prop_example =
    persist_get_prop-persist_set_prop stored changed (codes "aa") (codes "b") (codes "3") refl
      set_run

abbrev in_order : Storage
in_order = record {
  proto = some (record_of (codes "a") (codes "1") ∷ record_of (codes "b") (codes "2") ∷ []);
  files = [];
  reads = true;
  writes = true;
}

back_run : persist_delete_prop changed (codes "aa") ≡ ok in_order
unfolding persist_delete_prop
back_run = refl

one_copy :
    (written : List PropertyRecord) → changed.proto ≡ some written → copies (codes "aa") written ≤ 1
unfolding copies
one_copy written e =
    let records : List PropertyRecord =
      record_of (codes "a") (codes "1")
      ∷ record_of (codes "aa") (codes "3")
      ∷ record_of (codes "b") (codes "2")
      ∷ [] in
    let same : records ≡ written = cc e in subst (λ w. copies (codes "aa") w ≤ 1) same (omega arith)

persist_get_prop-persist_delete_prop_example :
    persist_get_prop in_order (codes "b")
    ≡ (if bytes_eq (codes "aa") (codes "b") then err else persist_get_prop changed (codes "b"))
persist_get_prop-persist_delete_prop_example =
    persist_get_prop-persist_delete_prop changed in_order (codes "aa") (codes "b") refl one_copy
      back_run

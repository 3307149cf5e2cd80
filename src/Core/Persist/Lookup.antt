-- ===== src/Core/Persist/Lookup.antt =====
-- What `persist_get_prop` finds after a change (native/src/core/resetprop/persist.rs).
pub mod Removal
pub mod Delete
use magisk_t.Prelude.{
  Ordering, ◌≡◌, refl, sym, ap, subst, ◌∙◌, inl, inr, true, false, Option, none, some, List, [],
  ◌∷◌, if◌then◌else◌, Bool-cases, Option-cases, Bytes, bytes_eq, bytes_eq_iff, ok, err,
}
use magisk_t.BtreeMap as Map
use magisk_t.BtreeMap.Laws.{get-insert}
use magisk_t.BtreeMap.Order.{
  Lt, cmp_refl, cmp-eq, cmp-gt, cmp-lt, Lt_trans, less, same, greater, compared,
}
use magisk_t.Core.Persist.{
  PropertyRecord, Storage, cmp_name, SearchResult, found, insert_at, next_index, find_index, nth,
  find, sort, update, vec_insert, value_of, proto_read_props, proto_write_props, with_files,
  file_get_prop, file_set_prop, persist_get_prop, persist_set_prop,
}
use magisk_t.Core.Persist.Order.{
  below, equal, above, Compared-name, sort-IsAscending, sort_lem, update_later, update_here,
  update_new, update-IsAscending,
}

cmp_name_refl : (a : Bytes) → cmp_name (some a) (some a) ≡ Ordering.eq
unfolding cmp_name
cmp_name_refl a = cmp_refl a

cmp_name-eq : (n : Option Bytes) (a : Bytes) → cmp_name n (some a) ≡ Ordering.eq → n ≡ some a
unfolding cmp_name
cmp_name-eq none a e = cc e
cmp_name-eq (some b) a e = ap some (cmp-eq b a e)

above_trans :
    (n : Option Bytes) (key other : Bytes)
    → cmp_name n (some key) ≡ Ordering.gt
    → Lt other key
    → cmp_name n (some other) ≡ Ordering.gt
unfolding cmp_name
above_trans none key other e h = cc e
above_trans (some b) key other e h = cmp-lt other b (Lt_trans other key b h (cmp-gt b key e))

-- `find` at the head of a list.
module _ (key : Bytes) (p : PropertyRecord) (l : List PropertyRecord) where
  find_later : cmp_name p.name (some key) ≡ Ordering.lt → find key (p ∷ l) ≡ find key l
  unfolding find find_index next_index nth
  find_later e = rw (e, find, find_index) (go (find_index key l))
    where
      go :
          (r : SearchResult)
          → elim (next_index r) as (λ _. Option PropertyRecord) [
            | found idx ↦ nth idx (p ∷ l)
            | insert_at idx ↦ none
          ]
            ≡ elim r as (λ _. Option PropertyRecord) [
              | found idx ↦ nth idx l
              | insert_at idx ↦ none
            ]
      go (found idx) = refl
      go (insert_at idx) = refl

  find_here : cmp_name p.name (some key) ≡ Ordering.eq → find key (p ∷ l) ≡ some p
  unfolding find find_index nth
  find_here e = rw (e, find, find_index) refl

  find-none : cmp_name p.name (some key) ≡ Ordering.gt → find key (p ∷ l) ≡ none
  unfolding find find_index
  find-none e = rw (e, find, find_index) refl

abbrev fresh : Bytes → Bytes → PropertyRecord
fresh key val = record { name = some key; value = some val }

abbrev with_value : PropertyRecord → Bytes → PropertyRecord
with_value p val = record { name = p.name; value = some val }

update_nil : (key val : Bytes) → update key val [] ≡ fresh key val ∷ []
unfolding update find_index vec_insert
update_nil key val = refl

find_nil : (key : Bytes) → find key [] ≡ none
unfolding find find_index
find_nil key = refl

-- The value of the name itself.
find-update_same :
    (key val : Bytes) (l : List PropertyRecord)
    → (p : PropertyRecord) × (find key (update key val l) ≡ some p)
      × (p.name ≡ some key)
      × (p.value ≡ some val)
find-update_same key val [] = (
  fresh key val,
  rw (update_nil key val) (find_here key (fresh key val) [] (cmp_name_refl key)),
  refl,
  refl,
)
find-update_same key val (p ∷ l) = elim (Compared-name p.name (some key)) [
  | below e ↦
      let (q, there, named, valued) = find-update_same key val l in
      (
        q,
        rw (update_later key val p l e) (find_later key p (update key val l) e ∙ there),
        named,
        valued,
      )
  | equal e ↦ (
    with_value p val,
    rw (update_here key val p l e) (find_here key (with_value p val) l e),
    cmp_name-eq p.name key e,
    refl,
  )
  | above e ↦ (
    fresh key val,
    rw (update_new key val p l e) (find_here key (fresh key val) (p ∷ l) (cmp_name_refl key)),
    refl,
    refl,
  )
]

-- A record of another name, in front of records that are after it.
find-fresh :
    (key other val : Bytes) (l : List PropertyRecord)
    → bytes_eq key other ≡ false
    → (Lt other key → find other l ≡ none)
    → find other (fresh key val ∷ l) ≡ find other l
find-fresh key other val l miss h = elim (compared key other) [
  | less e ↦ find_later other (fresh key val) l (unfold cmp_name in e)
  | same e p ↦ cc ((bytes_eq_iff key other).1 p, miss)
  | greater e f ↦ find-none other (fresh key val) l (unfold cmp_name in e) ∙ sym (h f)
]

find-update_other :
    (key other val : Bytes) (l : List PropertyRecord)
    → bytes_eq key other ≡ false
    → find other (update key val l) ≡ find other l
find-update_other key other val [] miss =
    rw (update_nil key val) (find-fresh key other val [] miss (λ h. find_nil other))
find-update_other key other val (p ∷ l) miss = elim (Compared-name p.name (some key)) [
  | below e ↦ rw (update_later key val p l e) (elim (Compared-name p.name (some other)) [
    | below f ↦
        find_later other p (update key val l) f
        ∙ find-update_other key other val l miss
        ∙ sym (find_later other p l f)
    | equal f ↦ find_here other p (update key val l) f ∙ sym (find_here other p l f)
    | above f ↦ find-none other p (update key val l) f ∙ sym (find-none other p l f)
  ])
  | equal e ↦ rw (update_here key val p l e) (elim (Compared-name p.name (some other)) [
    | below f ↦ find_later other (with_value p val) l f ∙ sym (find_later other p l f)
    | equal f ↦
        let q : key ≡ other = cc (cmp_name-eq p.name key e, cmp_name-eq p.name other f) in
        cc ((bytes_eq_iff key other).1 q, miss)
    | above f ↦ find-none other (with_value p val) l f ∙ sym (find-none other p l f)
  ])
  | above e ↦ rw (update_new key val p l e) (
      find-fresh key other val (p ∷ l) miss
        (λ h. find-none other p l (above_trans p.name key other e h)))
]

-- The value of any name after `update`.
find-update :
    (key other val : Bytes) (l : List PropertyRecord)
    → value_of (find other (update key val l))
      ≡ (if bytes_eq key other then ok val else value_of (find other l))
unfolding value_of
find-update key other val l = elim (Bool-cases (bytes_eq key other)) [
  | inr miss ↦ rw (miss, find-update_other key other val l miss) refl
  | inl hit ↦
      let (p, there, named, valued) = find-update_same key val l in
      rw (hit, ← (bytes_eq_iff key other).0 hit, there, value_of, named, valued) refl
]

abbrev with_proto : Storage → List PropertyRecord → Storage
with_proto s properties = record {
  proto = some properties;
  files = s.files;
  reads = s.reads;
  writes = s.writes;
}

-- The two kinds of storage: reading, and writing what was read.
get_proto :
    (s : Storage) (written : List PropertyRecord) (key : Bytes)
    → s.proto ≡ some written
    → s.reads ≡ true
    → persist_get_prop s key ≡ value_of (find key (sort written))
unfolding persist_get_prop proto_read_props
get_proto s written key e reads = rw (e, reads) refl

get_files :
    (s : Storage) (key : Bytes)
    → s.proto ≡ none
    → s.reads ≡ true
    → persist_get_prop s key ≡ elim (Map.get key s.files) [ none ↦ err | some value ↦ ok value ]
unfolding persist_get_prop file_get_prop
get_files s key e reads = rw (e, reads) refl

set_proto :
    (s after : Storage) (written : List PropertyRecord) (key val : Bytes)
    → s.proto ≡ some written
    → s.reads ≡ true
    → persist_set_prop s key val ≡ ok after
    → with_proto s (update key val (sort written)) ≡ after
unfolding persist_set_prop proto_read_props proto_write_props
set_proto s after written key val e reads = elim (Bool-cases s.writes) [
  | inl fine ↦ rw (e, reads, fine) (λ done. cc done)
  | inr failed ↦ rw (e, reads, failed) (λ done. cc done)
]

set_files :
    (s after : Storage) (key val : Bytes)
    → s.proto ≡ none
    → persist_set_prop s key val ≡ ok after
    → with_files s (Map.insert key val s.files) ≡ after
unfolding persist_set_prop file_set_prop
set_files s after key val e = elim (Bool-cases s.writes) [
  | inl fine ↦ rw (e, fine) (λ done. cc done)
  | inr failed ↦ rw (e, failed) (λ done. cc done)
]

-- After a write that succeeds, with either kind of storage, the property reads as the new value,
-- and every other one as before. Where several records have one name, a search is taken to find
-- the first.
pub persist_get_prop-persist_set_prop :
    (s after : Storage) (key other val : Bytes)
    → s.reads ≡ true
    → persist_set_prop s key val ≡ ok after
    → persist_get_prop after other
      ≡ (if bytes_eq key other then ok val else persist_get_prop s other)
persist_get_prop-persist_set_prop s after key other val reads done = elim (Option-cases s.proto) [
  | inl flat ↦
      subst
        (λ x.
          persist_get_prop x other
          ≡ (if bytes_eq key other then ok val else persist_get_prop s other))
        (set_files s after key val flat done)
        (get_files (with_files s (Map.insert key val s.files)) other (unfold with_files in flat)
            (unfold with_files in reads)
          ∙ rw (get_files s other flat reads) (
              unfold with_files in
              rw (get-insert key other val s.files) (elim (Bool-cases (bytes_eq key other)) [
                | inl hit ↦ rw (hit) refl
                | inr miss ↦ rw (miss) refl
              ])))
  | inr (written, e) ↦
      let props = sort written in
      subst
        (λ x.
          persist_get_prop x other
          ≡ (if bytes_eq key other then ok val else persist_get_prop s other))
        (set_proto s after written key val e reads done)
        (get_proto (with_proto s (update key val props)) (update key val props) other refl reads
          ∙ rw
              (
                sort_lem (update key val props)
                    (update-IsAscending key val props (sort-IsAscending written)),
                get_proto s written other e reads,
              )
              (find-update key other val props))
]

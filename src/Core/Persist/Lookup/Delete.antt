-- ===== src/Core/Persist/Lookup/Delete.antt =====
-- What `persist_get_prop` finds after a deletion (native/src/core/resetprop/persist.rs).
use magisk_t.Prelude.{
  ◌≤◌, ◌≡◌, refl, sym, ap, subst, ◌∙◌, inl, inr, Bool, true, false, Option, none, some, List, arith,
  if◌then◌else◌, Bool-cases, Option-cases, Bytes, bytes_eq, bytes_eq_iff, ◌>>=◌, Outcome, ok, err,
  panic,
}
use magisk_t.Core.Persist.{
  PropertyRecord, Storage, find, sort, value_of, remove_found, proto_read_props, proto_write_props,
  with_files, file_set_prop, persist_get_prop, persist_delete_prop,
}
use magisk_t.Core.Persist.Order.{sort-IsAscending, sort_lem}
use magisk_t.Core.Persist.Lookup.{with_proto, get_proto, get_files}
use magisk_t.BtreeMap as Map
use magisk_t.BtreeMap.Laws.{get-remove}
use magisk_t.Core.Persist.Lookup.Removal.{copies, copies-sort, remove_found-Removed}

-- The two kinds of storage.
abbrev delete_by : Storage → Bytes → Option (List PropertyRecord) → Outcome Storage
delete_by s key none = file_set_prop s key none
delete_by s key (some written) = do
  props ← proto_read_props s written
  left ← remove_found key props
  proto_write_props s left

persist_delete_prop_by :
    (s : Storage) (key : Bytes) → persist_delete_prop s key ≡ delete_by s key s.proto
unfolding persist_delete_prop
persist_delete_prop_by s key = refl

delete_proto :
    (s after : Storage) (written : List PropertyRecord) (key : Bytes)
    → s.proto ≡ some written
    → s.reads ≡ true
    → persist_delete_prop s key ≡ ok after
    → (left : List PropertyRecord) × (remove_found key (sort written) ≡ ok left)
      × (with_proto s left ≡ after)
unfolding proto_read_props proto_write_props
delete_proto s after written key e reads done =
    let read : proto_read_props s written ≡ ok (sort written) =
      ap (λ b. if b then ok (sort written) else err) reads in
    let rest : Outcome (List PropertyRecord) → Outcome Storage =
      λ o. o >>= λ props. remove_found key props >>= λ left. proto_write_props s left in
    go (remove_found key (sort written)) refl
      (sym (persist_delete_prop_by s key ∙ ap (delete_by s key) e ∙ ap rest read) ∙ done)
  where
    go :
        (o : Outcome (List PropertyRecord))
        → remove_found key (sort written) ≡ o
        → (o >>= λ left. if s.writes then ok (with_proto s left) else err) ≡ ok after
        → (left : List PropertyRecord) × (remove_found key (sort written) ≡ ok left)
          × (with_proto s left ≡ after)
    go err e done = absurd (cc done)
    go panic e done = absurd (cc done)
    go (ok left) e done = elim (Bool-cases s.writes) [
      | inl fine ↦
          (left, e, cc (ap (λ b. if b then ok (with_proto s left) else err) (sym fine) ∙ done))
      | inr failed ↦
          absurd (cc (ap (λ b. if b then ok (with_proto s left) else err) (sym failed) ∙ done))
    ]

delete_files :
    (s after : Storage) (key : Bytes)
    → s.proto ≡ none
    → persist_delete_prop s key ≡ ok after
    → with_files s (Map.remove key s.files) ≡ after
unfolding file_set_prop
delete_files s after key e done =
    go (Map.get key s.files) s.writes
      (sym (persist_delete_prop_by s key ∙ ap (delete_by s key) e) ∙ done)
  where
    go :
        (old : Option Bytes) (writes : Bool)
        → (elim old as (λ _. Outcome Storage) [
          | none ↦ err
          | some _ ↦ if writes then ok (with_files s (Map.remove key s.files)) else err
        ])
          ≡ ok after
        → with_files s (Map.remove key s.files) ≡ after
    go none writes done = absurd (cc done)
    go (some old) true done = cc done
    go (some old) false done = absurd (cc done)

abbrev after_delete : Bytes → Storage → Bytes → Outcome Bytes
after_delete key s other = if bytes_eq key other then err else persist_get_prop s other

-- After a deletion that succeeds, with either kind of storage, the property is missing and every
-- other one reads as before. A file of records must hold one of the name at most; where several
-- have one name, a search is taken to find the first.
pub persist_get_prop-persist_delete_prop :
    (s after : Storage) (key other : Bytes)
    → s.reads ≡ true
    → ((written : List PropertyRecord) → s.proto ≡ some written → copies key written ≤ 1)
    → persist_delete_prop s key ≡ ok after
    → persist_get_prop after other ≡ (if bytes_eq key other then err else persist_get_prop s other)
persist_get_prop-persist_delete_prop s after key other reads few done =
    elim (Option-cases s.proto) [
      | inl flat ↦
          let files : Storage = with_files s (Map.remove key s.files) in
          subst (λ x. persist_get_prop x other ≡ after_delete key s other)
            (delete_files s after key flat done)
            (get_files files other (unfold with_files in flat) (unfold with_files in reads)
              ∙ rw (get_files s other flat reads) (
                  unfold with_files in
                  rw (get-remove key other s.files) (elim (Bool-cases (bytes_eq key other)) [
                    | inl hit ↦ rw (hit) refl
                    | inr miss ↦ rw (miss) refl
                  ])))
      | inr (written, e) ↦
          let (left, removed, written_back) = delete_proto s after written key e reads done in
          let r = remove_found-Removed key (sort written) left (sort-IsAscending written) removed in
          let read : persist_get_prop (with_proto s left) other ≡ value_of (find other left) =
            get_proto (with_proto s left) left other refl reads
            ∙ ap (λ l. value_of (find other l)) (sort_lem left r.ordered) in
          subst (λ x. persist_get_prop x other ≡ after_delete key s other) written_back
            (read ∙ elim (Bool-cases (bytes_eq key other)) [
              | inl hit ↦
                  let gone : find other left ≡ none =
                    subst (λ x. find x left ≡ none) ((bytes_eq_iff key other).0 hit)
                      (r.gone (omega (arith, copies-sort key written, few written e))) in
                  rw (hit) (ap value_of gone ∙ unfold value_of in refl)
              | inr miss ↦
                  rw (miss)
                    (ap value_of (r.others other miss) ∙ sym (get_proto s written other e reads))
            ])
    ]

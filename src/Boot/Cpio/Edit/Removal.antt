-- ===== src/Boot/Cpio/Edit/Removal.antt =====
-- What `rm`, `mv` and `ls` of native/src/boot/cpio.rs say of one another.
use magisk_t.Prelude.{
  ◌≡◌, refl, ◌≢◌, ◌⊎◌, inl, inr, Bool, true, false, ◌&&◌, ◌||◌, none, [], ◌∷◌, ◌++◌, arith,
  if◌then◌else◌, ==_iff, Bool-cases, Option-cases, Bytes, codes, length, drop, is_empty, All,
  bytes_eq, bytes_eq_iff, starts_with, ok, err,
}
use magisk_t.BtreeMap.{get, insert, remove, retain}
use magisk_t.BtreeMap.Laws.{IsSorted, get-insert, get-remove, get-retain, remove-IsSorted}
use magisk_t.Boot.Cpio.{CpioEntry, Entries, norm_path}
use magisk_t.Boot.Cpio.Edit.{keep_outside, rm, mv, listed, ls_entries, ls}

-- The entries that a path names, with those below it where the command is recursive.
abbrev pub covers : Bytes → Bool → Bytes → Bool
covers p recursive k = bytes_eq p k || (recursive && starts_with k (p ++ codes "/"))

-- After `rm` the path is gone, with all below it under `-r`, and every other entry is as before.
pub get-rm :
    (entries : Entries) (path : Bytes) (recursive : Bool) (k : Bytes)
    → IsSorted entries
    → get k (rm entries path recursive)
      ≡ (if covers (norm_path path) recursive k then none else get k entries)
unfolding rm keep_outside
get-rm entries path false k s = ground (arith, get-remove (norm_path path) k entries)
get-rm entries path true k s = ground (
  arith,
  get-remove (norm_path path) k entries,
  get-retain k (keep_outside (norm_path path ++ codes "/")) (remove (norm_path path) entries)
      (remove-IsSorted (norm_path path) entries s),
)

-- `mv` fails exactly where the source is missing. Else the destination has the source's entry, the
-- source is gone unless it is the destination, and every other entry is as before.
pub mv_lem :
    (entries : Entries) (from to : Bytes)
    → ((get (norm_path from) entries ≡ none) × (mv entries from to ≡ err))
      ⊎ ((after : Entries) × (mv entries from to ≡ ok after)
          × ((k : Bytes)
              → get k after ≡ (
                  if bytes_eq (norm_path to) k
                  then get (norm_path from) entries
                  else if bytes_eq (norm_path from) k
                  then none
                  else get k entries)))
unfolding mv
mv_lem entries from to = elim (Option-cases (get (norm_path from) entries)) [
  | inl missing ↦ inl (missing, rw (missing, mv))
  | inr (e, found) ↦ inr (
    insert (norm_path to) e (remove (norm_path from) entries),
    rw (found, mv),
    λ k. ground (
      arith,
      found,
      get-insert (norm_path to) k e (remove (norm_path from) entries),
      get-remove (norm_path from) k entries,
    ),
  )
]

pub starts_with-append :
    (s p q : Bytes)
    → starts_with s (p ++ q) ≡ (starts_with s p && starts_with (drop (length p) s) q)
starts_with-append s [] q = refl
starts_with-append [] (x ∷ p) q = refl
starts_with-append (c ∷ s) (x ∷ p) q = ground (arith, starts_with-append s p q)

bytes_eq-prefix : (s p : Bytes) → bytes_eq p s ≡ (starts_with s p && is_empty (drop (length p) s))
bytes_eq-prefix [] [] = refl
bytes_eq-prefix (c ∷ s) [] = refl
bytes_eq-prefix [] (x ∷ p) = refl
bytes_eq-prefix (c ∷ s) (x ∷ p) = ground (arith, bytes_eq-prefix s p, ==_iff c x, ==_iff x c)

-- With `-r`, `ls` of a directory other than the root prints the directory and all below it.
pub listed-covers : (p name : Bytes) → listed (codes "/" ++ p) true name ≡ covers p true name
unfolding listed
listed-covers p name = ground (arith, starts_with-append name p (codes "/"), bytes_eq-prefix name p)

abbrev Outside : Bytes → Bytes × CpioEntry → Type 0
Outside p x = covers p true x.0 ≡ false

retain-Outside :
    (p : Bytes) (entries : Entries)
    → All (Outside p) (retain (keep_outside (p ++ codes "/")) (remove p entries))
unfolding retain remove keep_outside
retain-Outside p [] = tt
retain-Outside p ((k, e) ∷ entries) =
    ground (arith, bytes_eq_iff k p, bytes_eq_iff p k, retain-Outside p entries)

ls_entries-Outside :
    (p : Bytes) (entries : Entries)
    → All (Outside p) entries
    → ls_entries (codes "/" ++ p) true entries ≡ []
unfolding ls_entries
ls_entries-Outside p [] h = refl
ls_entries-Outside p ((k, e) ∷ entries) h =
    ground (arith, listed-covers p k, ls_entries-Outside p entries h.1)

-- After `rm -r` of a path other than the root, `ls -r` of that path prints nothing.
pub ls-rm :
    (entries : Entries) (path : Bytes)
    → norm_path path ≢ []
    → ls (rm entries path true) path true ≡ []
unfolding ls rm
ls-rm entries path h = elim (Bool-cases (is_empty (norm_path path))) [
  | inl root ↦ absurd (ground (arith, root))
  | inr inside ↦
      rw inside (ls_entries-Outside (norm_path path) _ (retain-Outside (norm_path path) entries))
]

-- ===== src/Boot/Cpio/Backup/Removed.antt =====
-- The list of new names, as `restore` removes them (native/src/boot/cpio.rs).
use magisk_t.Prelude.{
  ◌≡◌, refl, sym, ap, subst, ◌∙◌, Bool, true, false, ◌||◌, Option, none, List, [], ◌∷◌, ◌++◌,
  append_assoc, arith, ◌==◌, if◌then◌else◌, Bytes, is_empty, All, bytes_eq, contains, prepend_first,
  split,
}
use magisk_t.Prelude.Utf8.{is_utf8, is_utf8-append}
use magisk_t.BtreeMap.{get}
use magisk_t.BtreeMap.Laws.{get-remove}
use magisk_t.BtreeMap.Order.{less, same, greater, compared}
use magisk_t.Boot.Cpio.{CpioEntry, Entries, norm_path}
use magisk_t.Boot.Cpio.Edit.{rm}
use magisk_t.Boot.Cpio.Backup.{rm_each}
use magisk_t.Boot.Cpio.Backup.Merge.{added, has, joined, added_lt, added_gt, added_eq}

-- A name as an archive has them: of a path below the root, in normal form, and with no NUL.
pub record IsPlain (name : Bytes) : Type 0 where
  pub below_root : is_empty name ≡ false
  pub normal : norm_path name ≡ name
  pub no_nul : contains name 0 ≡ false
  pub text : is_utf8 name ≡ true

split-name :
    (name rest : Bytes) → contains name 0 ≡ false → split 0 (name ++ 0 ∷ rest) ≡ name ∷ split 0 rest
unfolding split
split-name [] rest h = refl
split-name (c ∷ name) rest h =
    let other : (c == 0) ≡ false = ground (arith, h) in
    let ih = split-name name rest (ground (arith, h)) in rw (other) (ap (prepend_first c) ih)

split-joined : (names : List Bytes) → All IsPlain names → split 0 (joined names) ≡ names ++ [] ∷ []
unfolding joined
split-joined [] plain = unfold split in refl
split-joined (name ∷ names) plain =
    ap (split 0) (append_assoc name (0 ∷ []) (joined names))
    ∙ split-name name (joined names) plain.0.no_nul
    ∙ ap (◌∷◌ name) (split-joined names plain.1)

pub is_utf8-joined : (names : List Bytes) → All IsPlain names → is_utf8 (joined names) ≡ true
unfolding joined
is_utf8-joined [] plain = unfold is_utf8 in refl
is_utf8-joined (name ∷ names) plain =
    ap is_utf8 (append_assoc name (0 ∷ []) (joined names))
    ∙ is_utf8-append name (0 ∷ joined names) plain.0.text
    ∙ is_utf8-append (0 ∷ []) (joined names) (unfold is_utf8 in refl)
    ∙ is_utf8-joined names plain.1

either :
    (hit later : Bool) (found : Option CpioEntry)
    → (if later then none else if hit then none else found) ≡ (if hit || later then none else found)
either true true found = refl
either true false found = refl
either false later found = refl

get-rm_each :
    (k : Bytes) (names : List Bytes) (m : Entries)
    → All IsPlain names
    → get k (rm_each (names ++ [] ∷ []) m) ≡ (if has k names then none else get k m)
unfolding rm_each has
get-rm_each k [] m plain = refl
get-rm_each k ([] ∷ names) m plain = absurd (cc plain.0.below_root)
get-rm_each k ((c ∷ name) ∷ names) m plain =
    let gone : get k (rm m (c ∷ name) false) ≡ (if bytes_eq (c ∷ name) k then none else get k m) =
      unfold rm in
      get-remove (norm_path (c ∷ name)) k m
      ∙ ap (λ p. if bytes_eq p k then none else get k m) plain.0.normal in
    get-rm_each k names (rm m (c ∷ name) false) plain.1
    ∙ ap (λ x. if has k names then none else x) gone
    ∙ either (bytes_eq (c ∷ name) k) (has k names) (get k m)

-- Exactly the names of the list are gone.
pub get-rm_list :
    (k : Bytes) (names : List Bytes) (m : Entries)
    → All IsPlain names
    → get k (rm_each (split 0 (joined names)) m) ≡ (if has k names then none else get k m)
get-rm_list k names m plain =
    ap (λ l. get k (rm_each l m)) (split-joined names plain) ∙ get-rm_each k names m plain

pub added-IsPlain :
    (left right : Entries) → All (λ x. IsPlain x.0) right → All IsPlain (added left right)
unfolding added
added-IsPlain [] [] plain = tt
added-IsPlain ((ln, le) ∷ left) [] plain = added-IsPlain left [] plain
added-IsPlain [] ((rn, re) ∷ right) plain = (plain.0, added-IsPlain [] right plain.1)
added-IsPlain ((ln, le) ∷ left) ((rn, re) ∷ right) plain =
    let gone = added-IsPlain left ((rn, re) ∷ right) plain in
    let new = added-IsPlain ((ln, le) ∷ left) right plain.1 in
    let both = added-IsPlain left right plain.1 in
    elim (compared ln rn) [
      | less c ↦ subst (All IsPlain) (sym (added_lt ln le left rn re right c)) gone
      | same c _ ↦ subst (All IsPlain) (sym (added_eq ln le left rn re right c)) both
      | greater c _ ↦ subst (All IsPlain) (sym (added_gt ln le left rn re right c)) (plain.0, new)
    ]

-- ===== src/Boot/Cpio/Archive/RoundTrip.antt =====
-- `load_from_data` reads back what `dump` writes (native/src/boot/cpio.rs).
use magisk_t.Prelude.{
  ℕ, zero, suc, ◌+◌, ◌^◌, ◌≤◌, ◌<◌, ◌≡◌, sym, ap, ap₂, subst, ◌∙◌, some, [], ◌∷◌, ◌++◌, append-nil,
  append_assoc, arith, Bytes, length, All, length-append, ok,
}
use magisk_t.BtreeMap.Laws.{IsSorted, insert_last, IsSorted-Below}
use magisk_t.Boot.Cpio.{CpioEntry, Entries}
use magisk_t.Boot.Cpio.Archive.{load_loop, load_from_data, pad, dump_head, dump_from, dump}
use magisk_t.Boot.Cpio.Archive.Reading.{load_loop_next, load_loop-stop}
use magisk_t.Boot.Cpio.Archive.Members.{
  IsStorable, head, body, archive, load_entry-dump, length-body, is_more, archive_assoc,
}
use magisk_t.Boot.Cpio.Archive.Trailer.{ending, load_entry_trailer, is_more_trailer}

abbrev pub AllStorable : Entries → Type 0
AllStorable = All (λ p. IsStorable p.0 p.1)

load_loop-dump :
    (m : Entries) (fuel : ℕ) (pre : Bytes) (inode : ℕ) (acc : Entries)
    → length m < fuel
    → inode + length m < 2 ^ 32
    → AllStorable m
    → IsSorted (acc ++ m)
    → load_loop fuel (pre ++ dump_from (length pre) inode m) (length pre) acc ≡ some (ok (acc ++ m))
unfolding dump_from
load_loop-dump m zero pre inode acc h i s o = absurd (omega arith)
load_loop-dump [] (suc fuel) pre inode acc h i s o =
    let i' : inode < 2 ^ 32 = omega arith in
    load_loop-stop fuel (ending pre inode i') (length pre) acc (is_more_trailer pre inode i') acc
      (load_entry_trailer pre inode i' acc)
    ∙ rw append-nil
load_loop-dump ((name, e) ∷ m) (suc fuel) pre inode acc h i s o =
    let i' : inode < 2 ^ 32 = omega arith in
    let written = head pre inode name e [] i' s.0 in
    let contents = body pre inode name e [] i' s.0 in
    let pre' = (pre ++ written) ++ contents in
    let size = length-body pre inode name e [] i' s.0 in
    let rest = dump_from (length pre + length written + length contents) (inode + 1) m in
    let rest_is : rest ≡ dump_from (length pre') (inode + 1) m =
      ap (λ p. dump_from p (inode + 1) m) size in
    let moved : archive pre inode name e rest i' s.0
        ≡ pre' ++ dump_from (length pre') (inode + 1) m =
      archive_assoc pre inode name e rest i' s.0 ∙ ap (◌++◌ pre') rest_is in
    let inserted = insert_last acc name e (IsSorted-Below acc name e m o) in
    let regroup = append_assoc acc ((name, e) ∷ []) m in
    load_loop_next fuel _ (length pre) acc (is_more pre inode name e rest i' s.0) _ _
      (load_entry-dump pre inode name e rest i' s.0 acc)
    ∙ ap₂ (λ b n. load_loop fuel b (length pre') n) moved inserted
    ∙ load_loop-dump m fuel pre' (inode + 1) (acc ++ (name, e) ∷ []) (omega arith) (omega arith) s.1
        (subst IsSorted (sym regroup) o)
    ∙ ap (λ n. some (ok n)) regroup

dump_head-pos :
    (pos inode : ℕ) (name : Bytes) (e : CpioEntry) → 0 < length (dump_head pos inode name e)
unfolding dump_head
dump_head-pos pos inode name e = omega arith

dump_from-le : (m : Entries) (pos inode : ℕ) → length m ≤ length (dump_from pos inode m)
unfolding dump_from
dump_from-le [] pos inode = omega arith
dump_from-le ((name, e) ∷ m) pos inode =
    let written = dump_head pos inode name e in
    let contents = e.content ++ pad (pos + length written + length e.content) in
    let rest = dump_from (pos + length written + length contents) (inode + 1) m in
    omega (
      arith,
      dump_head-pos pos inode name e,
      length-append written (contents ++ rest),
      length-append contents rest,
      dump_from-le m (pos + length written + length contents) (inode + 1),
    )

-- Every archive in key order whose entries have readable names and numbers below 2 ^ 32 is read
-- back by `load_from_data` from what `dump` writes: names, modes, owners, devices and data.
pub load_from_data-dump :
    (m : Entries)
    → IsSorted m
    → AllStorable m
    → 300000 + length m < 2 ^ 32
    → load_from_data (dump m) ≡ some (ok m)
unfolding load_from_data dump
load_from_data-dump m sorted storable few =
    load_loop-dump m (length (dump_from 0 300000 m) + 1) [] 300000 []
      (omega (arith, dump_from-le m 0 300000)) few storable sorted

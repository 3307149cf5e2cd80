-- ===== src/Boot/Cpio/Archive/Ordered.antt =====
-- What `load_from_data` of native/src/boot/cpio.rs reads is in key order.
use magisk_t.Prelude.{
  ℕ, zero, suc, ◌+◌, ◌≡◌, refl, subst, inl, inr, true, false, ◌||◌, Option, none, some, [], ltb,
  Bool-cases, Bytes, codes, length, bytes_eq, Ok, Ok-bind, Outcome, ok, err, panic,
}
use magisk_t.BtreeMap.Laws.{IsSorted, insert-IsSorted}
use magisk_t.Boot.Cpio.{Entries, align_4}
use magisk_t.Boot.Cpio.Header.{CpioHeader, from_bytes, x8u}
use magisk_t.Boot.Cpio.Archive.{
  Round, next, stop, slice, utf8_cstr, find, trailer, hdr_magic, load_entry, load_name, load_named,
  load_member, after_trailer, load_loop, load_from_data,
}

-- What a round of the loop leaves.
abbrev RoundIsSorted : Round → Type 0
RoundIsSorted (next pos entries) = IsSorted entries
RoundIsSorted (stop entries) = IsSorted entries

module _ (bytes : Bytes) (entries : Entries) (s : IsSorted entries) where
  found-IsSorted :
      (pos : ℕ) (found : Option ℕ)
      → Ok RoundIsSorted
          (elim found [ some x ↦ ok (next (pos + x) entries) | none ↦ ok (stop entries) ])
  found-IsSorted pos none = s
  found-IsSorted pos (some x) = s

  after_trailer-IsSorted : (pos : ℕ) → Ok RoundIsSorted (after_trailer bytes pos entries)
  unfolding after_trailer
  after_trailer-IsSorted pos =
      Ok-bind RoundIsSorted (slice bytes pos (length bytes)) _
        λ tail. found-IsSorted pos (find tail hdr_magic)

  load_member-IsSorted :
      (hdr : CpioHeader) (name : Bytes) (pos : ℕ)
      → Ok RoundIsSorted (load_member bytes hdr name pos entries)
  unfolding load_member
  load_member-IsSorted hdr name pos = Ok-bind RoundIsSorted (x8u hdr.filesize) _ λ file_sz.
      Ok-bind RoundIsSorted (x8u hdr.mode) _ λ mode. Ok-bind RoundIsSorted (x8u hdr.uid) _ λ uid.
        Ok-bind RoundIsSorted (x8u hdr.gid) _ λ gid.
          Ok-bind RoundIsSorted (x8u hdr.rdevmajor) _ λ major.
            Ok-bind RoundIsSorted (x8u hdr.rdevminor) _ λ minor.
              Ok-bind RoundIsSorted (slice bytes pos (pos + file_sz)) _
                λ content. insert-IsSorted name _ entries s

  load_named-IsSorted :
      (hdr : CpioHeader) (name : Bytes) (pos : ℕ)
      → Ok RoundIsSorted (load_named bytes hdr name pos entries)
  unfolding load_named
  load_named-IsSorted hdr name pos =
      elim (Bool-cases (bytes_eq name (codes ".") || bytes_eq name (codes ".."))) [
        | inl dots ↦ rw dots s
        | inr other ↦ rw other (elim (Bool-cases (bytes_eq name trailer)) [
          | inl last ↦ rw last (after_trailer-IsSorted pos)
          | inr member ↦ rw member (load_member-IsSorted hdr name pos)
        ])
      ]

  load_name-IsSorted :
      (hdr : CpioHeader) (pos : ℕ) → Ok RoundIsSorted (load_name bytes hdr pos entries)
  unfolding load_name
  load_name-IsSorted hdr pos = Ok-bind RoundIsSorted (x8u hdr.namesize) _ λ name_sz.
      Ok-bind RoundIsSorted (slice bytes pos (pos + name_sz)) _ λ raw_name.
        Ok-bind RoundIsSorted (utf8_cstr raw_name) _
          λ name. load_named-IsSorted hdr name (align_4 (pos + name_sz))

  load_entry-IsSorted : (pos : ℕ) → Ok RoundIsSorted (load_entry bytes pos entries)
  unfolding load_entry
  load_entry-IsSorted pos = Ok-bind RoundIsSorted (slice bytes pos _) _ λ raw.
      elim (Bool-cases (bytes_eq (from_bytes raw).magic hdr_magic)) [
        | inl good ↦ rw good (load_name-IsSorted (from_bytes raw) _)
        | inr bad ↦ rw bad tt
      ]

-- One round and the rest of the loop, by what the round comes to.
load_loop_round :
    (fuel : ℕ) (bytes : Bytes) (pos : ℕ) (entries m : Entries)
    → ltb pos (length bytes) ≡ true
    → ((pos' : ℕ) (entries' : Entries)
        → IsSorted entries'
        → load_loop fuel bytes pos' entries' ≡ some (ok m)
        → IsSorted m)
    → (r : Outcome Round) → load_entry bytes pos entries ≡ r
    → Ok RoundIsSorted r
    → load_loop (suc fuel) bytes pos entries ≡ some (ok m)
    → IsSorted m
unfolding load_loop
load_loop_round fuel bytes pos entries m more rec (ok (next pos' entries')) e s h =
    rec pos' entries' s (rw (more, e, load_loop) at h)
load_loop_round fuel bytes pos entries m more rec (ok (stop entries')) e s h =
    let h' : some (ok entries') ≡ some (ok m) = (rw (more, e, load_loop) at h) in
    subst IsSorted (cc h') s
load_loop_round fuel bytes pos entries m more rec err e s h =
    let h' : some err ≡ some (ok m) = (rw (more, e, load_loop) at h) in absurd (cc h')
load_loop_round fuel bytes pos entries m more rec panic e s h =
    let h' : some panic ≡ some (ok m) = (rw (more, e, load_loop) at h) in absurd (cc h')

load_loop_done :
    (fuel : ℕ) (bytes : Bytes) (pos : ℕ) (entries : Entries)
    → ltb pos (length bytes) ≡ false
    → load_loop (suc fuel) bytes pos entries ≡ some (ok entries)
unfolding load_loop
load_loop_done fuel bytes pos entries done = rw (done, load_loop)

load_loop-IsSorted :
    (fuel : ℕ) (bytes : Bytes) (pos : ℕ) (entries m : Entries)
    → IsSorted entries
    → load_loop fuel bytes pos entries ≡ some (ok m)
    → IsSorted m
load_loop-IsSorted zero bytes pos entries m s h = absurd (unfold load_loop in cc)
load_loop-IsSorted (suc fuel) bytes pos entries m s h = elim (Bool-cases (ltb pos (length bytes))) [
  | inr done ↦ subst IsSorted (cc (load_loop_done fuel bytes pos entries done, h)) s
  | inl more ↦
      load_loop_round fuel bytes pos entries m more
        (λ pos' entries' s' h'. load_loop-IsSorted fuel bytes pos' entries' m s' h')
        (load_entry bytes pos entries) refl (load_entry-IsSorted bytes entries s pos) h
]

-- What is read from any bytes is in key order.
pub load_from_data-IsSorted :
    (bytes : Bytes) (m : Entries) → load_from_data bytes ≡ some (ok m) → IsSorted m
unfolding load_from_data
load_from_data-IsSorted bytes m h = load_loop-IsSorted (length bytes + 1) bytes 0 [] m tt h

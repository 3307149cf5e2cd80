-- ===== src/Boot/Cpio/Archive.antt =====
-- Reading and writing archives: `Cpio::load_from_data` and `Cpio::dump` of
-- native/src/boot/cpio.rs.
pub mod Termination
pub mod Reading
pub mod Members
pub mod Trailer
pub mod RoundTrip
pub mod Ordered
use magisk_t.Prelude.{
  ℕ, zero, suc, ◌+◌, ◌-◌, true, false, ◌&&◌, ◌||◌, Option, none, some, [], ◌∷◌, ◌++◌, ltb, leb,
  ◌==◌, if◌then◌else◌, Bytes, codes, length, take, drop, replicate, is_empty, bytes_eq, starts_with,
  ◌>>=◌, Outcome, ok, err, panic,
}
use magisk_t.Prelude.Utf8.{is_utf8}
use magisk_t.BtreeMap
use magisk_t.BtreeMap.{insert}
use magisk_t.Boot.Cpio.{CpioEntry, Entries, align_4}
use magisk_t.Boot.Cpio.Header.{CpioHeader, hdr_sz, from_bytes, x8u, fmt_08x}

-- `data[from..to]`, which panics out of range.
unfoldable pub slice : Bytes → ℕ → ℕ → Outcome Bytes
slice bytes from to =
    if leb from to && leb to (length bytes) then ok (take (to - from) (drop from bytes)) else panic

-- `CStr::from_bytes_with_nul`: one NUL, at the end. The text is what stands before it.
pub before_nul : Bytes → Option Bytes
before_nul [] = none
before_nul (c ∷ s) =
    let rest = before_nul s in
    if c == 0
    then (if is_empty s then some [] else none)
    else elim rest [ none ↦ none | some t ↦ some (c ∷ t) ]

-- `Utf8CStr::from_bytes(..)?.to_string()` (native/src/base/cstr.rs)
unfoldable pub utf8_cstr : Bytes → Outcome Bytes
unfolding before_nul is_utf8
utf8_cstr bytes = elim (before_nul bytes) [ none ↦ err | some s ↦ if is_utf8 s then ok s else err ]

-- `BytesExt::find` (native/src/base/misc.rs, by `memmem`): where the needle first stands.
unfoldable pub find : Bytes → Bytes → Option ℕ
find [] needle = if is_empty needle then some 0 else none
find (c ∷ s) needle =
    let rest = find s needle in
    if starts_with (c ∷ s) needle then some 0 else elim rest [ none ↦ none | some i ↦ some (suc i) ]

abbrev pub hdr_magic : Bytes
hdr_magic = codes "070701"

abbrev pub trailer : Bytes
trailer = codes "TRAILER!!!"

-- How one round of the loop ends: `continue` or the end of the body, and `break`.
pub data Round : Type 0 where
  next : ℕ → Entries → Round
  stop : Entries → Round

-- The search for the next archive behind a trailer, or `break`.
unfoldable pub after_trailer : Bytes → ℕ → Entries → Outcome Round
after_trailer bytes pos entries = do
  tail ← slice bytes pos (length bytes)
  elim (find tail hdr_magic) [ some x ↦ ok (next (pos + x) entries) | none ↦ ok (stop entries) ]

-- The entry of a header, with its data at `pos`.
unfoldable pub load_member : Bytes → CpioHeader → Bytes → ℕ → Entries → Outcome Round
load_member bytes hdr name pos entries = do
  file_sz ← x8u hdr.filesize
  mode ← x8u hdr.mode
  uid ← x8u hdr.uid
  gid ← x8u hdr.gid
  rdevmajor ← x8u hdr.rdevmajor
  rdevminor ← x8u hdr.rdevminor
  content ← slice bytes pos (pos + file_sz)
  ok (
      next (align_4 (pos + file_sz)) (
        insert name
          (record {
            mode = mode;
            uid = uid;
            gid = gid;
            rdevmajor = rdevmajor;
            rdevminor = rdevminor;
            content = content;
          })
          entries))

-- What follows the name: `pos` is aligned.
unfoldable pub load_named : Bytes → CpioHeader → Bytes → ℕ → Entries → Outcome Round
load_named bytes hdr name pos entries =
    if bytes_eq name (codes ".") || bytes_eq name (codes "..")
    then ok (next pos entries)
    else if bytes_eq name trailer
    then after_trailer bytes pos entries
    else load_member bytes hdr name pos entries

unfoldable pub load_name : Bytes → CpioHeader → ℕ → Entries → Outcome Round
load_name bytes hdr pos entries = do
  name_sz ← x8u hdr.namesize
  raw_name ← slice bytes pos (pos + name_sz)
  name ← utf8_cstr raw_name
  load_named bytes hdr name (align_4 (pos + name_sz)) entries

-- The body of the loop.
unfoldable pub load_entry : Bytes → ℕ → Entries → Outcome Round
load_entry bytes pos entries = do
  raw ← slice bytes pos (pos + hdr_sz)
  if bytes_eq (from_bytes raw).magic hdr_magic
      then load_name bytes (from_bytes raw) (pos + hdr_sz) entries
      else err

-- `while pos < data.len()`, on fuel; `none` means that the fuel ran out.
unfoldable pub load_loop : ℕ → Bytes → ℕ → Entries → Option (Outcome Entries)
load_loop zero bytes pos entries = none
load_loop (suc fuel) bytes pos entries = elim (ltb pos (length bytes)) [
  | false ↦ some (ok entries)
  | true ↦ elim (load_entry bytes pos entries) [
    | ok (next pos' entries') ↦ load_loop fuel bytes pos' entries'
    | ok (stop entries') ↦ some (ok entries')
    | err ↦ some err
    | panic ↦ some panic
  ]
]

unfoldable pub load_from_data : Bytes → Option (Outcome Entries)
unfolding load_loop load_entry load_name load_named load_member after_trailer slice from_bytes x8u
    utf8_cstr find align_4 insert
load_from_data bytes = load_loop (length bytes + 1) bytes 0 []

-- The zeros up to the next multiple of four.
unfoldable pub pad : ℕ → Bytes
pad pos = replicate (align_4 pos - pos) 0

abbrev pub header_text : ℕ → CpioEntry → ℕ → ℕ → Bytes
header_text inode e size namesize =
    hdr_magic
    ++ (fmt_08x inode
        ++ (fmt_08x e.mode
            ++ (fmt_08x e.uid
                ++ (fmt_08x e.gid
                    ++ (fmt_08x 1
                        ++ (fmt_08x 0
                            ++ (fmt_08x size
                                ++ (fmt_08x 0
                                    ++ (fmt_08x 0
                                        ++ (fmt_08x e.rdevmajor
                                            ++ (fmt_08x e.rdevminor
                                                ++ (fmt_08x namesize ++ fmt_08x 0))))))))))))

-- What the body of the loop writes from position `pos`, up to the alignment of the name.
unfoldable pub dump_head : ℕ → ℕ → Bytes → CpioEntry → Bytes
dump_head pos inode name e =
    let text = header_text inode e (length e.content) (length name + 1) ++ (name ++ 0 ∷ []) in
    text ++ pad (pos + length text)

abbrev pub trailer_entry : CpioEntry
trailer_entry = record {
  mode = 0o755;
  uid = 0;
  gid = 0;
  rdevmajor = 0;
  rdevminor = 0;
  content = [];
}

-- The loop over the entries, and the trailer behind it.
unfoldable pub dump_from : ℕ → ℕ → Entries → Bytes
dump_from pos inode [] =
    let text = header_text inode trailer_entry 0 11 ++ (trailer ++ 0 ∷ []) in
    text ++ pad (pos + length text)
dump_from pos inode ((name, e) ∷ entries) =
    let head = dump_head pos inode name e in
    let body = e.content ++ pad (pos + length head + length e.content) in
    head ++ (body ++ dump_from (pos + length head + length body) (inode + 1) entries)

-- The bytes of the file that `dump` writes. Each `file.write` is taken to write all its bytes.
unfoldable pub dump : Entries → Bytes
unfolding dump_from dump_head pad align_4 fmt_08x
dump entries = dump_from 0 300000 entries

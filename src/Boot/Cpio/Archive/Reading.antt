-- ===== src/Boot/Cpio/Archive/Reading.antt =====
-- One round of `load_from_data` on what one round of `dump` writes (native/src/boot/cpio.rs).
use magisk_t.Prelude.{
  ℕ, suc, ◌+◌, ◌-◌, ◌^◌, ◌<◌, ◌≡◌, refl, ap, true, false, ◌&&◌, some, [], ◌∷◌, ◌++◌, arith, ltb,
  leb, Bytes, codes, length, All, length-append, take-append, drop-append, bytes_eq, bytes_eq_iff,
  ok,
}
use magisk_t.Prelude.Utf8.{is_utf8}
use magisk_t.BtreeMap.{insert}
use magisk_t.Boot.Cpio.{CpioEntry, Entries, align_4}
use magisk_t.Boot.Cpio.Header.{CpioHeader, hdr_sz, from_bytes, x8u, hex_digits}
use magisk_t.Boot.Cpio.Header.Numbers.{fmt_08x_eight, x8u_eight}
use magisk_t.Boot.Cpio.Archive.{
  slice, before_nul, utf8_cstr, next, stop, load_member, load_named, load_name, load_entry,
  load_loop, hdr_magic, trailer, header_text,
}

pub slice_at :
    (bytes a b c : Bytes) (from to : ℕ)
    → bytes ≡ a ++ (b ++ c)
    → from ≡ length a
    → to ≡ length a + length b
    → slice bytes from to ≡ ok b
unfolding slice
slice_at bytes a b c from to e f t =
    rw (e, f, t)
      (let fits : (leb (length a) (length a + length b)
              && leb (length a + length b) (length (a ++ (b ++ c))))
            ≡ true =
          ground (arith, length-append a (b ++ c), length-append b c) in
        let size : length a + length b - length a ≡ length b = omega arith in
        rw fits (rw (size, drop-append a, take-append b)))

abbrev pub IsPositive : ℕ → Type 0
IsPositive c = 0 < c

before_nul-name : (name : Bytes) → All IsPositive name → before_nul (name ++ 0 ∷ []) ≡ some name
unfolding before_nul
before_nul-name [] h = refl
before_nul-name (c ∷ name) h = ground (arith, before_nul-name name h.1)

pub utf8_cstr-name :
    (name : Bytes)
    → All IsPositive name
    → is_utf8 name ≡ true
    → utf8_cstr (name ++ 0 ∷ []) ≡ ok name
unfolding utf8_cstr
utf8_cstr-name name h u = rw (before_nul-name name h, utf8_cstr) (rw u)

-- The header with each number in its eight digits.
abbrev eights : ℕ → CpioEntry → ℕ → ℕ → Bytes
eights inode e size namesize =
    hdr_magic
    ++ (hex_digits 8 inode
        ++ (hex_digits 8 e.mode
            ++ (hex_digits 8 e.uid
                ++ (hex_digits 8 e.gid
                    ++ (hex_digits 8 1
                        ++ (hex_digits 8 0
                            ++ (hex_digits 8 size
                                ++ (hex_digits 8 0
                                    ++ (hex_digits 8 0
                                        ++ (hex_digits 8 e.rdevmajor
                                            ++ (hex_digits 8 e.rdevminor
                                                ++ (hex_digits 8 namesize
                                                    ++ hex_digits 8 0))))))))))))

-- The numbers that a header has room for.
pub record HasRoom (e : CpioEntry) : Type 0 where
  pub mode : e.mode < 2 ^ 32
  pub uid : e.uid < 2 ^ 32
  pub gid : e.gid < 2 ^ 32
  pub rdevmajor : e.rdevmajor < 2 ^ 32
  pub rdevminor : e.rdevminor < 2 ^ 32

module _ (inode : ℕ) (e : CpioEntry) (size namesize : ℕ) (i : inode < 2 ^ 32) (r : HasRoom e)
    (s : size < 2 ^ 32) (n : namesize < 2 ^ 32) where
  header_text-eights : header_text inode e size namesize ≡ eights inode e size namesize
  header_text-eights = rw (
    fmt_08x_eight inode i,
    fmt_08x_eight e.mode r.mode,
    fmt_08x_eight e.uid r.uid,
    fmt_08x_eight e.gid r.gid,
    fmt_08x_eight 1 (omega arith),
    fmt_08x_eight 0 (omega arith),
    fmt_08x_eight size s,
    fmt_08x_eight e.rdevmajor r.rdevmajor,
    fmt_08x_eight e.rdevminor r.rdevminor,
    fmt_08x_eight namesize n,
  )

  -- What the reader finds in the header that the writer wrote.
  pub record Finds (hdr : CpioHeader) : Type 0 where
    pub magic : hdr.magic ≡ hdr_magic
    pub namesize_is : x8u hdr.namesize ≡ ok namesize
    pub filesize : x8u hdr.filesize ≡ ok size
    pub mode : x8u hdr.mode ≡ ok e.mode
    pub uid : x8u hdr.uid ≡ ok e.uid
    pub gid : x8u hdr.gid ≡ ok e.gid
    pub rdevmajor : x8u hdr.rdevmajor ≡ ok e.rdevmajor
    pub rdevminor : x8u hdr.rdevminor ≡ ok e.rdevminor

  eights-Finds : Finds (from_bytes (eights inode e size namesize))
  unfolding from_bytes hex_digits
  eights-Finds = record {
    magic = refl;
    namesize_is = x8u_eight namesize n;
    filesize = x8u_eight size s;
    mode = x8u_eight e.mode r.mode;
    uid = x8u_eight e.uid r.uid;
    gid = x8u_eight e.gid r.gid;
    rdevmajor = x8u_eight e.rdevmajor r.rdevmajor;
    rdevminor = x8u_eight e.rdevminor r.rdevminor;
  }

  pub header_text-Finds : Finds (from_bytes (header_text inode e size namesize))
  header_text-Finds = rw header_text-eights eights-Finds

  pub length-header_text : length (header_text inode e size namesize) ≡ hdr_sz
  unfolding hex_digits
  length-header_text = ap length header_text-eights

-- The names that the reader does not skip or take for the end, and can read.
pub record IsName (name : Bytes) : Type 0 where
  pub positive : All IsPositive name
  pub utf8 : is_utf8 name ≡ true
  pub not_dot : bytes_eq name (codes ".") ≡ false
  pub not_dots : bytes_eq name (codes "..") ≡ false
  pub not_trailer : bytes_eq name trailer ≡ false
  pub fits : length name + 1 < 2 ^ 32

module _ (bytes : Bytes) (inode : ℕ) (name : Bytes) (e : CpioEntry) (hdr : CpioHeader)
    (i : inode < 2 ^ 32) (r : HasRoom e) (s : length e.content < 2 ^ 32) (v : IsName name)
    (f : Finds inode e (length e.content) (length name + 1) i r s v.fits hdr) where
  pub load_member-dump :
      (pos : ℕ) (entries : Entries)
      → slice bytes pos (pos + length e.content) ≡ ok e.content
      → load_member bytes hdr name pos entries
        ≡ ok (next (align_4 (pos + length e.content)) (insert name e entries))
  unfolding load_member
  load_member-dump pos entries at_content =
      rw (load_member, f.filesize) (rw (f.mode, f.uid, f.gid, f.rdevmajor, f.rdevminor, at_content))

  pub load_named-dump :
      (pos : ℕ) (entries : Entries)
      → load_named bytes hdr name pos entries ≡ load_member bytes hdr name pos entries
  unfolding load_named
  load_named-dump pos entries = rw (v.not_dot, load_named) (rw (v.not_dots, v.not_trailer))

  pub load_name-dump :
      (pos : ℕ) (entries : Entries)
      → slice bytes pos (pos + (length name + 1)) ≡ ok (name ++ 0 ∷ [])
      → load_name bytes hdr pos entries
        ≡ load_named bytes hdr name (align_4 (pos + (length name + 1))) entries
  unfolding load_name
  load_name-dump pos entries at_name =
      rw (f.namesize_is, load_name) (rw at_name (rw (utf8_cstr-name name v.positive v.utf8)))

pub load_entry-magic :
    (bytes : Bytes) (pos : ℕ) (entries : Entries) (raw : Bytes)
    → slice bytes pos (pos + hdr_sz) ≡ ok raw
    → (from_bytes raw).magic ≡ hdr_magic
    → load_entry bytes pos entries ≡ load_name bytes (from_bytes raw) (pos + hdr_sz) entries
unfolding load_entry
load_entry-magic bytes pos entries raw at_header magic =
    let same = (bytes_eq_iff (from_bytes raw).magic hdr_magic).1 magic in
    rw (at_header, load_entry) (rw same)

module _ (fuel : ℕ) (bytes : Bytes) (pos : ℕ) (entries : Entries)
    (more : ltb pos (length bytes) ≡ true) where
  pub load_loop_next :
      (pos' : ℕ) (entries' : Entries)
      → load_entry bytes pos entries ≡ ok (next pos' entries')
      → load_loop (suc fuel) bytes pos entries ≡ load_loop fuel bytes pos' entries'
  unfolding load_loop
  load_loop_next pos' entries' e = rw (more, e, load_loop)

  pub load_loop-stop :
      (entries' : Entries)
      → load_entry bytes pos entries ≡ ok (stop entries')
      → load_loop (suc fuel) bytes pos entries ≡ some (ok entries')
  unfolding load_loop
  load_loop-stop entries' e = rw (more, e, load_loop)

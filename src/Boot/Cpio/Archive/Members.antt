-- ===== src/Boot/Cpio/Archive/Members.antt =====
-- One entry that `dump` wrote is read by one round of `load_from_data`
-- (native/src/boot/cpio.rs).
use magisk_t.Prelude.{
  ℕ, ◌+◌, ◌-◌, ◌*◌, ◌/◌, ◌^◌, ◌<◌, ◌≡◌, refl, sym, ap, ◌∙◌, true, [], ◌∷◌, ◌++◌, append_assoc,
  arith, ltb, Bytes, length, length-append, length-replicate, ok,
}
use magisk_t.BtreeMap.{insert}
use magisk_t.Boot.Cpio.{CpioEntry, Entries, align_4}
use magisk_t.Boot.Cpio.Header.{hdr_sz, from_bytes}
use magisk_t.Boot.Cpio.Archive.{slice, next, load_named, load_entry, header_text, pad, dump_head}
use magisk_t.Boot.Cpio.Archive.Reading.{
  slice_at, HasRoom, Finds, header_text-Finds, length-header_text, IsName, load_member-dump,
  load_entry-magic, load_named-dump, load_name-dump,
}

-- What can be written and read back under a name.
pub record IsStorable (name : Bytes) (e : CpioEntry) : Type 0 where
  pub named : IsName name
  pub room : HasRoom e
  pub small : length e.content < 2 ^ 32

pub length-pad : (pos : ℕ) → pos + length (pad pos) ≡ align_4 pos
unfolding pad align_4
length-pad pos = omega (arith, length-replicate {A = ℕ} ((pos + 3) / 4 * 4 - pos) 0)

-- One entry in its place: `pre` was written before it and `rest` comes behind it.
module _ (pre : Bytes) (inode : ℕ) (name : Bytes) (e : CpioEntry) (rest : Bytes)
    (i : inode < 2 ^ 32) (ok_entry : IsStorable name e) where
  abbrev pub head : Bytes
  head = dump_head (length pre) inode name e

  abbrev pub body : Bytes
  body = e.content ++ pad (length pre + length head + length e.content)

  abbrev pub archive : Bytes
  archive = pre ++ (head ++ (body ++ rest))

  abbrev header : Bytes
  header = header_text inode e (length e.content) (length name + 1)

  abbrev text : Bytes
  text = header ++ (name ++ 0 ∷ [])

  length-header : length header ≡ 110
  length-header =
      length-header_text inode e (length e.content) (length name + 1) i ok_entry.room ok_entry.small
        ok_entry.named.fits

  length-text : length text ≡ 110 + (length name + 1)
  length-text =
      omega
        (arith, length-header, length-append header (name ++ 0 ∷ []), length-append name (0 ∷ []))

  head_is : head ≡ text ++ pad (length pre + length text)
  unfolding dump_head
  head_is = refl

  archive_is :
      archive
      ≡ pre ++ (header ++ ((name ++ 0 ∷ []) ++ (pad (length pre + length text) ++ (body ++ rest))))
  archive_is = rw (ap (λ h. pre ++ (h ++ (body ++ rest))) head_is) (simp append_assoc)

  end_of_head : length pre + length head ≡ align_4 (length pre + 110 + (length name + 1))
  end_of_head =
      let at_text : length pre + length text ≡ length pre + 110 + (length name + 1) =
        omega (arith, length-text) in
      let size : length head ≡ length text + length (pad (length pre + length text)) =
        ap length head_is ∙ length-append text (pad (length pre + length text)) in
      omega (arith, size, length-pad (length pre + length text)) ∙ ap align_4 at_text

  at_header : slice archive (length pre) (length pre + hdr_sz) ≡ ok header
  at_header =
      slice_at archive pre header _ (length pre) (length pre + hdr_sz) archive_is refl
        (omega (arith, length-header))

  at_name :
      slice archive (length pre + hdr_sz) (length pre + hdr_sz + (length name + 1))
      ≡ ok (name ++ 0 ∷ [])
  at_name =
      slice_at archive (pre ++ header) (name ++ 0 ∷ []) _ _ _
        (archive_is ∙ sym (append_assoc pre header _))
        (omega (arith, length-append pre header, length-header))
        (omega (arith, length-append pre header, length-header, length-append name (0 ∷ [])))

  at_content :
      slice archive (length pre + length head) (length pre + length head + length e.content)
      ≡ ok e.content
  at_content =
      slice_at archive (pre ++ head) e.content
        (pad (length pre + length head + length e.content) ++ rest) _ _ (simp append_assoc)
        (omega (arith, length-append pre head)) (omega (arith, length-append pre head))

  end_of_body :
      align_4 (length pre + length head + length e.content) ≡ length ((pre ++ head) ++ body)
  end_of_body = omega (
    arith,
    length-pad (length pre + length head + length e.content),
    length-append (pre ++ head) body,
    length-append pre head,
    length-append e.content (pad (length pre + length head + length e.content)),
  )

  finds :
      Finds inode e
        (length e.content)
        (length name + 1)
        i
        ok_entry.room
        ok_entry.small
        ok_entry.named.fits
        (from_bytes header)
  finds = header_text-Finds inode e _ _ i ok_entry.room ok_entry.small ok_entry.named.fits

  -- The reader takes the entry, and goes on behind it.
  pub load_entry-dump :
      (entries : Entries)
      → load_entry archive (length pre) entries
        ≡ ok (next (length ((pre ++ head) ++ body)) (insert name e entries))
  load_entry-dump entries =
      load_entry-magic archive (length pre) entries header at_header finds.magic
      ∙ load_name-dump archive inode name e (from_bytes header) i ok_entry.room ok_entry.small
          ok_entry.named finds (length pre + hdr_sz) entries at_name
      ∙ ap (λ p. load_named archive (from_bytes header) name p entries) (sym end_of_head)
      ∙ load_named-dump archive inode name e (from_bytes header) i ok_entry.room ok_entry.small
          ok_entry.named finds (length pre + length head) entries
      ∙ load_member-dump archive inode name e (from_bytes header) i ok_entry.room ok_entry.small
          ok_entry.named finds (length pre + length head) entries at_content
      ∙ ap (λ p. ok (next p (insert name e entries))) end_of_body

  pub length-body : length pre + length head + length body ≡ length ((pre ++ head) ++ body)
  length-body = omega (arith, length-append (pre ++ head) body, length-append pre head)

  pub is_more : ltb (length pre) (length archive) ≡ true
  is_more = ground (
    arith,
    length-append pre (head ++ (body ++ rest)),
    length-append head (body ++ rest),
    ap length head_is,
    length-append text (pad (length pre + length text)),
    length-text,
  )

  pub archive_assoc : archive ≡ ((pre ++ head) ++ body) ++ rest
  archive_assoc = simp append_assoc

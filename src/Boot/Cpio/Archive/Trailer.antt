-- ===== src/Boot/Cpio/Archive/Trailer.antt =====
-- The trailer that `dump` writes ends the loop of `load_from_data` (native/src/boot/cpio.rs).
use magisk_t.Prelude.{
  ℕ, ◌+◌, ◌^◌, ◌<◌, ◌≡◌, refl, sym, ap, ◌∙◌, true, [], ◌∷◌, ◌++◌, append-nil, append_assoc, arith,
  ltb, Bytes, length, length-append, ok,
}
use magisk_t.Boot.Cpio.{Entries, align_4}
use magisk_t.Boot.Cpio.Header.{CpioHeader, hdr_sz, from_bytes, x8u}
use magisk_t.Boot.Cpio.Archive.{
  utf8_cstr, slice, stop, find, after_trailer, load_named, load_name, load_entry, trailer,
  header_text, trailer_entry, pad, dump_from,
}
use magisk_t.Boot.Cpio.Archive.Termination.{le-align_4}
use magisk_t.Boot.Cpio.Archive.Reading.{
  slice_at, HasRoom, Finds, header_text-Finds, length-header_text, load_entry-magic,
}
use magisk_t.Boot.Cpio.Archive.Members.{length-pad}

zero_fits : 0 < 2 ^ 32
zero_fits = omega arith

eleven_fits : 11 < 2 ^ 32
eleven_fits = omega arith

trailer-HasRoom : HasRoom trailer_entry
trailer-HasRoom = omega arith

load_name-trailer :
    (bytes : Bytes) (hdr : CpioHeader) (pos : ℕ) (entries : Entries)
    → x8u hdr.namesize ≡ ok 11
    → slice bytes pos (pos + 11) ≡ ok (trailer ++ 0 ∷ [])
    → slice bytes (align_4 (pos + 11)) (length bytes) ≡ ok []
    → load_name bytes hdr pos entries ≡ ok (stop entries)
unfolding load_name load_named after_trailer utf8_cstr find
load_name-trailer bytes hdr pos entries size at_name at_end =
    rw (size, load_name) (rw at_name (rw (at_end, after_trailer)))

-- The trailer in its place.
module _ (pre : Bytes) (inode : ℕ) (i : inode < 2 ^ 32) where
  abbrev last_header : Bytes
  last_header = header_text inode trailer_entry 0 11

  abbrev last_text : Bytes
  last_text = last_header ++ (trailer ++ 0 ∷ [])

  abbrev pub ending : Bytes
  ending = pre ++ dump_from (length pre) inode []

  ending_is :
      ending ≡ pre ++ (last_header ++ ((trailer ++ 0 ∷ []) ++ pad (length pre + length last_text)))
  unfolding dump_from
  ending_is = simp append_assoc

  length-last_header : length last_header ≡ 110
  length-last_header =
      length-header_text inode trailer_entry 0 11 i trailer-HasRoom zero_fits eleven_fits

  length-ending : length ending ≡ align_4 (length pre + 110 + 11)
  length-ending =
      let tail = (trailer ++ 0 ∷ []) ++ pad (length pre + length last_text) in
      let size : length last_text ≡ 121 =
        omega (arith, length-last_header, length-append last_header (trailer ++ 0 ∷ [])) in
      let at_text : length pre + length last_text ≡ length pre + 110 + 11 = omega (arith, size) in
      let total : length ending
          ≡ length pre + length last_text + length (pad (length pre + length last_text)) =
        ap length ending_is
        ∙ omega (
          arith,
          size,
          length-last_header,
          length-append pre (last_header ++ tail),
          length-append last_header tail,
          length-append (trailer ++ 0 ∷ []) (pad (length pre + length last_text)),
        ) in
      total ∙ length-pad (length pre + length last_text) ∙ ap align_4 at_text

  last-Finds :
      Finds inode trailer_entry 0 11 i trailer-HasRoom zero_fits eleven_fits
        (from_bytes last_header)
  last-Finds = header_text-Finds inode trailer_entry 0 11 i trailer-HasRoom zero_fits eleven_fits

  at_last_header : slice ending (length pre) (length pre + hdr_sz) ≡ ok last_header
  at_last_header =
      slice_at ending pre last_header _ _ _ ending_is refl (omega (arith, length-last_header))

  at_last_name :
      slice ending (length pre + hdr_sz) (length pre + hdr_sz + 11) ≡ ok (trailer ++ 0 ∷ [])
  at_last_name =
      slice_at ending (pre ++ last_header) (trailer ++ 0 ∷ []) _ _ _
        (ending_is ∙ sym (append_assoc pre last_header _))
        (omega (arith, length-append pre last_header, length-last_header))
        (omega (arith, length-append pre last_header, length-last_header))

  at_end : slice ending (align_4 (length pre + hdr_sz + 11)) (length ending) ≡ ok []
  at_end =
      slice_at ending ending [] [] _ _ (sym (append-nil ending)) (sym length-ending) (omega arith)

  pub load_entry_trailer :
      (entries : Entries) → load_entry ending (length pre) entries ≡ ok (stop entries)
  load_entry_trailer entries =
      load_entry-magic ending (length pre) entries last_header at_last_header last-Finds.magic
      ∙ load_name-trailer ending (from_bytes last_header) (length pre + hdr_sz) entries
          last-Finds.namesize_is at_last_name at_end

  pub is_more_trailer : ltb (length pre) (length ending) ≡ true
  is_more_trailer = ground (arith, length-ending, le-align_4 (length pre + 110 + 11))

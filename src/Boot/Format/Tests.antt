-- ===== src/Boot/Format/Tests.antt =====
-- Runs of native/src/boot/format.rs, and the theorems at concrete inputs.
use magisk_t.Prelude.{◌≡◌, refl, some, map, codes, split}
use magisk_t.Boot.Format.{lz4_legacy, from_str, formats, compressed_formats}

formats_run : map from_str (split b' ' formats) ≡ map some compressed_formats
unfolding from_str formats split
formats_run = refl

lz4_legacy_run : from_str (codes "lz4_legacy") ≡ some lz4_legacy
unfolding from_str
lz4_legacy_run = refl

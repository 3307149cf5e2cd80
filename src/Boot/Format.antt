-- ===== src/Boot/Format.antt =====
-- Names and extensions of file formats (native/src/boot/format.rs), and their round trip.
mod Tests
use magisk_t.Prelude.{
  ◌+◌, ◌-◌, ◌≡◌, refl, sym, ap, ◌∙◌, inl, inr, Bool, true, false, not, Option, none, some, List, [],
  ◌∷◌, ◌++◌, map, arith, if◌then◌else◌, Bool-cases, Bytes, codes, is_empty, All, bytes_eq,
  bytes_eq_iff,
}

-- The `FileFormat` of native/src/boot/lib.rs.
pub data FileFormat : Type 0 where
  unknown chromeos aosp aosp_vendor dhtb blob gzip zopfli xz lzma bzip2 lz4 lz4_legacy lz4_lg lzop
        mtk dtb zimage :
      FileFormat

-- `match s { .. }`
unfoldable pub lookup_name : List (Bytes × FileFormat) → Bytes → Option FileFormat
lookup_name [] s = none
lookup_name ((name, f) ∷ names) s = if bytes_eq name s then some f else lookup_name names s

abbrev pub format_names : List (Bytes × FileFormat)
format_names =
    (codes "gzip", gzip)
    ∷ (codes "zopfli", zopfli)
    ∷ (codes "xz", xz)
    ∷ (codes "lzma", lzma)
    ∷ (codes "bzip2", bzip2)
    ∷ (codes "lz4", lz4)
    ∷ (codes "lz4_legacy", lz4_legacy)
    ∷ (codes "lz4_lg", lz4_lg)
    ∷ []

unfoldable pub from_str : Bytes → Option FileFormat
unfolding lookup_name
from_str s = lookup_name format_names s

unfoldable pub as_cstr : FileFormat → Bytes
as_cstr gzip = codes "gzip"
as_cstr zopfli = codes "zopfli"
as_cstr lzop = codes "lzop"
as_cstr xz = codes "xz"
as_cstr lzma = codes "lzma"
as_cstr bzip2 = codes "bzip2"
as_cstr lz4 = codes "lz4"
as_cstr lz4_legacy = codes "lz4_legacy"
as_cstr lz4_lg = codes "lz4_lg"
as_cstr dtb = codes "dtb"
as_cstr zimage = codes "zimage"
as_cstr _ = codes "raw"

unfoldable pub ext : FileFormat → Bytes
ext gzip = codes "gz"
ext zopfli = codes "gz"
ext lzop = codes "lzo"
ext xz = codes "xz"
ext lzma = codes "lzma"
ext bzip2 = codes "bz2"
ext lz4 = codes "lz4"
ext lz4_legacy = codes "lz4"
ext lz4_lg = codes "lz4"
ext _ = []

unfoldable pub is_compressed : FileFormat → Bool
is_compressed gzip = true
is_compressed zopfli = true
is_compressed xz = true
is_compressed lzma = true
is_compressed bzip2 = true
is_compressed lz4 = true
is_compressed lz4_legacy = true
is_compressed lz4_lg = true
is_compressed _ = false

unfoldable pub fmt_compressed_any : FileFormat → Bool
unfolding is_compressed
fmt_compressed_any lzop = true
fmt_compressed_any f = is_compressed f

-- `join(" ")`
pub join_blank : List Bytes → Bytes
join_blank [] = []
join_blank (w ∷ []) = w
join_blank (w ∷ v ∷ ws) = w ++ b' ' ∷ join_blank (v ∷ ws)

abbrev pub compressed_formats : List FileFormat
compressed_formats = gzip ∷ zopfli ∷ xz ∷ lzma ∷ bzip2 ∷ lz4 ∷ lz4_legacy ∷ lz4_lg ∷ []

unfoldable pub formats : Bytes
unfolding join_blank as_cstr
formats = join_blank (map as_cstr compressed_formats)

-- The name of a format is read back exactly where the format is a compressed one that can be
-- written; `lzop`, `dtb`, `zimage` and `raw` are not read.
pub from_str-as_cstr :
    (f : FileFormat) → from_str (as_cstr f) ≡ (if is_compressed f then some f else none)
unfolding from_str as_cstr is_compressed
from_str-as_cstr unknown = refl
from_str-as_cstr chromeos = refl
from_str-as_cstr aosp = refl
from_str-as_cstr aosp_vendor = refl
from_str-as_cstr dhtb = refl
from_str-as_cstr blob = refl
from_str-as_cstr gzip = refl
from_str-as_cstr zopfli = refl
from_str-as_cstr xz = refl
from_str-as_cstr lzma = refl
from_str-as_cstr bzip2 = refl
from_str-as_cstr lz4 = refl
from_str-as_cstr lz4_legacy = refl
from_str-as_cstr lz4_lg = refl
from_str-as_cstr lzop = refl
from_str-as_cstr mtk = refl
from_str-as_cstr dtb = refl
from_str-as_cstr zimage = refl

lookup_name_sound :
    (names : List (Bytes × FileFormat)) (s : Bytes) (f : FileFormat)
    → All (λ n. as_cstr n.1 ≡ n.0) names
    → lookup_name names s ≡ some f
    → as_cstr f ≡ s
unfolding lookup_name
lookup_name_sound [] s f named h = absurd (cc)
lookup_name_sound ((name, g) ∷ names) s f named h = elim (Bool-cases (bytes_eq name s)) [
  | inl hit ↦
      let same : g ≡ f = ground (arith, hit) in
      sym (ap as_cstr same) ∙ named.0 ∙ (bytes_eq_iff name s).0 hit
  | inr other ↦ lookup_name_sound names s f named.1 (ground (arith, other))
]

format_names-named : All (λ n. as_cstr n.1 ≡ n.0) format_names
unfolding as_cstr
format_names-named = (refl, (refl, (refl, (refl, (refl, (refl, (refl, (refl, tt))))))))

-- What is read as a format is that format's name.
pub from_str_sound : (s : Bytes) (f : FileFormat) → from_str s ≡ some f → as_cstr f ≡ s
unfolding from_str
from_str_sound s f h = lookup_name_sound format_names s f format_names-named h

-- A format has a file extension exactly where `fmt_compressed_any` says that it is compressed.
pub ext-fmt_compressed_any : (f : FileFormat) → is_empty (ext f) ≡ not (fmt_compressed_any f)
unfolding ext fmt_compressed_any
ext-fmt_compressed_any unknown = refl
ext-fmt_compressed_any chromeos = refl
ext-fmt_compressed_any aosp = refl
ext-fmt_compressed_any aosp_vendor = refl
ext-fmt_compressed_any dhtb = refl
ext-fmt_compressed_any blob = refl
ext-fmt_compressed_any gzip = refl
ext-fmt_compressed_any zopfli = refl
ext-fmt_compressed_any xz = refl
ext-fmt_compressed_any lzma = refl
ext-fmt_compressed_any bzip2 = refl
ext-fmt_compressed_any lz4 = refl
ext-fmt_compressed_any lz4_legacy = refl
ext-fmt_compressed_any lz4_lg = refl
ext-fmt_compressed_any lzop = refl
ext-fmt_compressed_any mtk = refl
ext-fmt_compressed_any dtb = refl
ext-fmt_compressed_any zimage = refl

-- ===== src/Boot/Cpio.antt =====
-- `magiskboot cpio` (native/src/boot/cpio.rs): the archive in memory, and path names.
pub mod PathNames
pub mod Header
pub mod Archive
pub mod Edit
pub mod Status
pub mod Backup
pub mod Extract
pub mod Commands
pub mod Display
mod Tests
use Prim.Native.Nat.{bit_and}
use magisk_t.Prelude.{ℕ, ◌+◌, ◌*◌, ◌/◌, Bool, List, [], ◌∷◌, ◌++◌, ◌==◌, Bytes, split}
use magisk_t.BtreeMap.{BtreeMap}

pub record CpioEntry : Type 0 where
  pub mode : ℕ
  pub uid : ℕ
  pub gid : ℕ
  pub rdevmajor : ℕ
  pub rdevminor : ℕ
  pub content : Bytes

abbrev pub Entries : Type 0
Entries = BtreeMap CpioEntry

-- The file type bits of `mode`, and their values.
abbrev pub s_ifmt : ℕ
s_ifmt = 0o170000

abbrev pub s_ifdir : ℕ
s_ifdir = 0o040000

abbrev pub s_ifreg : ℕ
s_ifreg = 0o100000

abbrev pub s_iflnk : ℕ
s_iflnk = 0o120000

abbrev pub s_ifblk : ℕ
s_ifblk = 0o060000

abbrev pub s_ifchr : ℕ
s_ifchr = 0o020000

-- `mode & S_IFMT == S_IFREG`
unfoldable pub is_regular : CpioEntry → Bool
is_regular e = bit_and e.mode s_ifmt == s_ifreg

-- `.filter(|x| !x.is_empty())`
pub non_empty : List Bytes → List Bytes
non_empty [] = []
non_empty ([] ∷ ws) = non_empty ws
non_empty ((c ∷ w) ∷ ws) = (c ∷ w) ∷ non_empty ws

-- `.intersperse("/").collect()`
pub join : List Bytes → Bytes
join [] = []
join (w ∷ []) = w
join (w ∷ v ∷ ws) = w ++ b'/' ∷ join (v ∷ ws)

unfoldable pub norm_path : Bytes → Bytes
unfolding split non_empty join
norm_path path = join (non_empty (split b'/' path))

-- `(x + 3) & !3`
unfoldable pub align_4 : ℕ → ℕ
align_4 x = (x + 3) / 4 * 4

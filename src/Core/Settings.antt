-- ===== src/Core/Settings.antt =====
-- The settings of native/src/core/db.rs: the table `settings` as a map from key texts to values. A
-- statement that fails changes nothing; SQLite itself is the map. An i32 is the number of its 32 bits,
-- so that -1 is 2^32 - 1, and `get_int` takes the low 32 bits of the integer in a row.
use magisk_t.Prelude.{
  ℕ, ◌%◌, ◌^◌, ◌≡◌, refl, inl, inr, Bool, true, none, some, if◌then◌else◌, Bool-cases, Bytes, codes,
  bytes_eq,
}
use magisk_t.BtreeMap as Map
use magisk_t.BtreeMap.{BtreeMap}
use magisk_t.BtreeMap.Laws as Laws

pub data DbEntryKey : Type 0 where
  su_mnt_ns : DbEntryKey
  denylist_config : DbEntryKey
  zygisk_config : DbEntryKey
  bootloop_count : DbEntryKey

unfoldable pub to_str : DbEntryKey → Bytes
to_str su_mnt_ns = codes "mnt_ns"
to_str denylist_config = codes "denylist"
to_str zygisk_config = codes "zygisk"
to_str bootloop_count = codes "bootloop"

abbrev pub i32 : ℕ
i32 = 2 ^ 32

-- `works` says whether the database opens and its statements succeed.
pub record Database : Type 0 where
  pub settings : BtreeMap ℕ
  pub works : Bool

-- `MntNsMode::Requester` is 1.
unfoldable pub default_value : Bool → DbEntryKey → ℕ
default_value is_emulator su_mnt_ns = 1
default_value is_emulator denylist_config = 0
default_value is_emulator zygisk_config = if is_emulator then 1 else 0
default_value is_emulator bootloop_count = 0

unfoldable pub get_db_setting : Bool → Database → DbEntryKey → ℕ
unfolding to_str default_value Map.get
get_db_setting is_emulator db key =
    if db.works
    then elim (Map.get (to_str key) db.settings) [
      | none ↦ default_value is_emulator key
      | some value ↦ value % i32
    ]
    else default_value is_emulator key

unfoldable pub set_db_setting : Database → DbEntryKey → ℕ → Database
unfolding to_str Map.insert
set_db_setting db key value =
    if db.works
    then record { settings = Map.insert (to_str key) value db.settings; works = true }
    else db

unfoldable pub same_key : DbEntryKey → DbEntryKey → Bool
unfolding to_str
same_key a b = bytes_eq (to_str a) (to_str b)

-- No two settings share a key text.
pub same_key-eq : (a b : DbEntryKey) → same_key a b ≡ true → a ≡ b
unfolding same_key to_str
same_key-eq su_mnt_ns su_mnt_ns h = refl
same_key-eq su_mnt_ns denylist_config h = cc h
same_key-eq su_mnt_ns zygisk_config h = cc h
same_key-eq su_mnt_ns bootloop_count h = cc h
same_key-eq denylist_config su_mnt_ns h = cc h
same_key-eq denylist_config denylist_config h = refl
same_key-eq denylist_config zygisk_config h = cc h
same_key-eq denylist_config bootloop_count h = cc h
same_key-eq zygisk_config su_mnt_ns h = cc h
same_key-eq zygisk_config denylist_config h = cc h
same_key-eq zygisk_config zygisk_config h = refl
same_key-eq zygisk_config bootloop_count h = cc h
same_key-eq bootloop_count su_mnt_ns h = cc h
same_key-eq bootloop_count denylist_config h = cc h
same_key-eq bootloop_count zygisk_config h = cc h
same_key-eq bootloop_count bootloop_count h = refl

pub get_db_setting-set_db_setting :
    (is_emulator : Bool) (db : Database) (key other : DbEntryKey) (value : ℕ)
    → db.works ≡ true
    → get_db_setting is_emulator (set_db_setting db key value) other
      ≡ (if same_key key other then value % i32 else get_db_setting is_emulator db other)
unfolding get_db_setting set_db_setting same_key
get_db_setting-set_db_setting is_emulator db key other value works =
    rw (works, Laws.get-insert (to_str key) (to_str other) value db.settings)
      (elim (Bool-cases (bytes_eq (to_str key) (to_str other))) [
        | inl hit ↦ rw (hit) refl
        | inr miss ↦ rw (miss) refl
      ])

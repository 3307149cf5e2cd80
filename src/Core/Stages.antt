-- ===== src/Core/Stages.antt =====
-- The boot stages of native/src/core/bootstages.rs, one request after the other under their lock.
pub mod Loads
pub mod Machine
pub mod Tests
use magisk_t.Prelude.{
  ℕ, ◌+◌, ◌-◌, ◌/◌, ◌%◌, ◌^◌, Bool, true, false, not, ◌&&◌, ◌||◌, Option, none, some, List, [], ◌∷◌,
  ◌++◌, ltb, leb, ◌==◌, if◌then◌else◌, Bytes, codes, is_empty, bytes_eq, starts_with,
}
use magisk_t.Core.Settings.{
  i32, Database, zygisk_config, bootloop_count, get_db_setting, set_db_setting,
}

-- The bits of `BootState`.
pub record BootState : Type 0 where
  pub post_fs_data_done : Bool
  pub late_start_done : Bool
  pub boot_complete_done : Bool
  pub safe_mode : Bool

-- What a handler makes other code do, in order.
pub data Effect : Type 0 where
  setup_magisk_env : Effect
  common_scripts : Bytes → Effect
  module_scripts : Bytes → Effect
  disable_modules : Effect
  initialize_denylist : Effect
  handle_modules : Effect
  clean_mounts : Effect
  make_secure_dir : Effect
  setup_preinit_dir : Effect
  zygisk_reset : Effect

pub record Daemon : Type 0 where
  pub state : BootState
  pub db : Database
  pub zygisk_enabled : Bool
  pub module_list : Bool
  pub effects : List Effect

-- What the device answers during one request: the lines of /proc/mounts, properties, and keys.
pub record Device : Type 0 where
  pub mounts : Option (List Bytes)
  pub get_prop : Bytes → Bytes
  pub secure_dir_exists : Bool
  pub busybox_exists : Bool
  pub key_combo : Bool
  pub is_emulator : Bool
  pub sdk_int : ℕ

unfoldable pub contains_text : Bytes → Bytes → Bool
contains_text text [] = starts_with [] text
contains_text text (c ∷ line) =
    let later = contains_text text line in starts_with (c ∷ line) text || later

unfoldable pub data_mounted : List Bytes → Bool
unfolding contains_text
data_mounted [] = false
data_mounted (line ∷ lines) =
    let later = data_mounted lines in
    if contains_text (codes " /data ") line && not (contains_text (codes "tmpfs") line)
    then true
    else later

unfoldable pub check_data : Device → Bool
unfolding data_mounted
check_data dev = elim dev.mounts [
  | none ↦ false
  | some lines ↦
      let crypto = dev.get_prop (codes "ro.crypto.state") in
      if not (data_mounted lines)
      then false
      else if is_empty crypto || not (bytes_eq crypto (codes "encrypted"))
      then true
      else not (is_empty (dev.get_prop (codes "init.svc.vold")))
]

unfoldable pub emit : List Effect → Daemon → Daemon
emit effects d = record {
  state = d.state;
  db = d.db;
  zygisk_enabled = d.zygisk_enabled;
  module_list = d.module_list;
  effects = d.effects ++ effects;
}

unfoldable pub with_db : Database → Daemon → Daemon
with_db db d = record {
  state = d.state;
  db = db;
  zygisk_enabled = d.zygisk_enabled;
  module_list = d.module_list;
  effects = d.effects;
}

unfoldable pub with_state : BootState → Daemon → Daemon
with_state state d = record {
  state = state;
  db = d.db;
  zygisk_enabled = d.zygisk_enabled;
  module_list = d.module_list;
  effects = d.effects;
}

-- `boot_cnt >= 2`, where from 2^31 on the bits are those of a negative number.
unfoldable pub safe_mode_wanted : Device → ℕ → Bool
safe_mode_wanted dev boot_cnt =
    leb 2 boot_cnt && ltb boot_cnt (2 ^ 31)
    || bytes_eq (dev.get_prop (codes "persist.sys.safemode")) (codes "1")
    || bytes_eq (dev.get_prop (codes "ro.sys.safemode")) (codes "1")
    || dev.key_combo

-- Module scripts, the tree of modules, and Zygisk as the database says.
unfoldable pub load_modules : Device → Daemon → Daemon
unfolding get_db_setting
load_modules dev d = record {
  state = d.state;
  db = d.db;
  zygisk_enabled = not (get_db_setting dev.is_emulator d.db zygisk_config == 0);
  module_list = true;
  effects =
      d.effects
      ++ common_scripts (codes "post-fs-data")
        ∷ initialize_denylist
        ∷ handle_modules
        ∷ clean_mounts
        ∷ [];
}

-- The count of boots goes up, and safe mode is entered, or the modules are loaded.
unfoldable pub count_boot : Device → Daemon → Daemon × Bool
unfolding get_db_setting set_db_setting safe_mode_wanted emit with_db load_modules
count_boot dev d =
    let boot_cnt = get_db_setting dev.is_emulator d.db bootloop_count in
    let counted = with_db (set_db_setting d.db bootloop_count ((boot_cnt + 1) % i32)) d in
    if safe_mode_wanted dev boot_cnt
    then (
      with_db (set_db_setting counted.db zygisk_config 0) (emit (disable_modules ∷ []) counted),
      true,
    )
    else (load_modules dev counted, false)

-- What is done before busybox is looked for.
unfoldable pub first_effects : Device → List Effect
first_effects dev =
    if dev.secure_dir_exists then setup_magisk_env ∷ [] else make_secure_dir ∷ setup_magisk_env ∷ []

-- `post_fs_data`: `true` when the boot goes no further.
unfoldable pub post_fs_data : Device → Daemon → Daemon × Bool
unfolding emit count_boot first_effects
post_fs_data dev d =
    if not dev.secure_dir_exists && not (ltb dev.sdk_int 24)
    then (d, true)
    else if dev.busybox_exists
    then count_boot dev (emit (first_effects dev) d)
    else (emit (first_effects dev) d, true)

unfoldable pub late_start : Daemon → Daemon
unfolding emit
late_start d =
    emit
      (common_scripts (codes "service")
        ∷ (if d.module_list then module_scripts (codes "service") ∷ [] else []))
      d

unfoldable pub boot_complete : Device → Daemon → Daemon
unfolding emit with_db set_db_setting
boot_complete dev d =
    let reset = if d.zygisk_enabled then zygisk_reset ∷ [] else [] in
    let made = if dev.secure_dir_exists then [] else make_secure_dir ∷ [] in
    emit (made ++ setup_preinit_dir ∷ reset) (with_db (set_db_setting d.db bootloop_count 0) d)

pub data StageCode : Type 0 where
  post_fs_data_code : StageCode
  late_start_code : StageCode
  boot_complete_code : StageCode

-- `state.insert(..)`
unfoldable pub insert_post_fs_data : Bool → BootState → BootState
insert_post_fs_data safe s = record {
  post_fs_data_done = true;
  late_start_done = s.late_start_done;
  boot_complete_done = s.boot_complete_done;
  safe_mode = s.safe_mode || safe;
}

unfoldable pub insert_late_start : BootState → BootState
insert_late_start s = record {
  post_fs_data_done = s.post_fs_data_done;
  late_start_done = true;
  boot_complete_done = s.boot_complete_done;
  safe_mode = s.safe_mode;
}

unfoldable pub insert_boot_complete : BootState → BootState
insert_boot_complete s = record {
  post_fs_data_done = s.post_fs_data_done;
  late_start_done = s.late_start_done;
  boot_complete_done = true;
  safe_mode = s.safe_mode;
}

unfoldable pub boot_stage_handler : Device → StageCode → Daemon → Daemon
unfolding check_data with_state post_fs_data late_start boot_complete insert_post_fs_data
    insert_late_start insert_boot_complete
boot_stage_handler dev post_fs_data_code d =
    let (after, safe) = post_fs_data dev d in
    if check_data dev && not d.state.post_fs_data_done
    then with_state (insert_post_fs_data safe d.state) after
    else d
boot_stage_handler dev late_start_code d =
    if d.state.post_fs_data_done && not d.state.safe_mode
    then with_state (insert_late_start d.state) (late_start d)
    else d
boot_stage_handler dev boot_complete_code d =
    if d.state.post_fs_data_done
    then boot_complete dev (with_state (insert_boot_complete d.state) d)
    else d

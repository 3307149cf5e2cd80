-- ===== src/Core/Stages/Tests.antt =====
-- Runs of native/src/core/bootstages.rs, and the theorems at concrete inputs.
use magisk_t.Prelude.{◌-◌, ◌^◌, ◌≡◌, refl, true, false, some, [], ◌∷◌, codes, length}
use magisk_t.Core.Settings.{Database}
use magisk_t.Core.Stages.{
  Device, check_data, post_fs_data_code, boot_complete_code, safe_mode_wanted,
}
use magisk_t.Core.Stages.Machine.{run, fresh}
use magisk_t.Core.Stages.Machine.Bootloop.{count, boot, boots, IsUsable, run-boot_complete}

abbrev pub phone : Device
phone = record {
  mounts = some (codes "tmpfs /data tmpfs" ∷ codes "/dev/dm-3 /data f2fs" ∷ []);
  get_prop = λ name. [];
  secure_dir_exists = true;
  busybox_exists = true;
  key_combo = false;
  is_emulator = false;
  sdk_int = 34;
}

abbrev pub empty_db : Database
empty_db = record { settings = []; works = true }

phone-IsUsable : IsUsable phone
unfolding check_data
phone-IsUsable = record { data_ready = refl; has_dir = refl; has_busybox = refl }

-- Three boots that nothing completes.
third_boot : (boot phone (boots (phone ∷ phone ∷ []) empty_db)).state.safe_mode ≡ true
unfolding boot boots
third_boot = refl

second_boot : (boot phone (boots (phone ∷ []) empty_db)).state.safe_mode ≡ false
unfolding boot boots
second_boot = refl

-- From the largest count on, two boots leave a negative count, and the third is in no safe mode.
abbrev full_db : Database
full_db = record { settings = (codes "bootloop", 2 ^ 31 - 1) ∷ []; works = true }

wrapped_boot : (boot phone (boots (phone ∷ phone ∷ []) full_db)).state.safe_mode ≡ false
unfolding boot boots
wrapped_boot = refl

-- A second completion starts the handler again.
completed_twice :
    length
      (run
        ((phone, post_fs_data_code)
          ∷ (phone, boot_complete_code)
          ∷ (phone, boot_complete_code)
          ∷ [])
        (fresh empty_db)).effects
    ≡ 7
unfolding run fresh
completed_twice = refl

run-boot_complete_example :
    let left =
      (run ((phone, post_fs_data_code) ∷ (phone, boot_complete_code) ∷ []) (fresh empty_db)).db in
    (count left ≡ 0) × ((boot phone left).state.safe_mode ≡ safe_mode_wanted phone 0)
run-boot_complete_example =
    run-boot_complete phone phone phone empty_db refl phone-IsUsable phone-IsUsable

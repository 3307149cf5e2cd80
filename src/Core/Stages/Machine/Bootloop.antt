-- ===== src/Core/Stages/Machine/Bootloop.antt =====
-- The count of boots that did not complete, over the boots of native/src/core/bootstages.rs.
use magisk_t.Prelude.{
  ℕ, ◌+◌, ◌%◌, ◌≡◌, refl, sym, ap, ◌∙◌, inl, inr, Bool, true, false, List, [], ◌∷◌, arith,
  Bool-cases,
}
use magisk_t.Core.Settings.{
  i32, DbEntryKey, Database, to_str, default_value, get_db_setting, set_db_setting, same_key,
  get_db_setting-set_db_setting, bootloop_count, zygisk_config,
}
use magisk_t.Core.Stages.{
  Daemon, Device, check_data, emit, with_db, with_state, safe_mode_wanted, load_modules,
  first_effects, count_boot, post_fs_data, boot_complete, post_fs_data_code, boot_complete_code,
  insert_post_fs_data, boot_stage_handler,
}
use magisk_t.Core.Stages.Machine.{run, initial, fresh}

-- The first stage of one boot, with the database that the last boot left.
unfoldable pub boot : Device → Database → Daemon
unfolding boot_stage_handler fresh
boot dev db = boot_stage_handler dev post_fs_data_code (fresh db)

unfoldable pub boots : List Device → Database → Database
unfolding boot
boots [] db = db
boots (dev ∷ devices) db = boots devices (boot dev db).db

unfoldable pub count : Database → ℕ
unfolding get_db_setting
count db = get_db_setting false db bootloop_count

-- Nothing stops the stage before the boots are counted.
pub record IsUsable (dev : Device) : Type 0 where
  pub data_ready : check_data dev ≡ true
  pub has_dir : dev.secure_dir_exists ≡ true
  pub has_busybox : dev.busybox_exists ≡ true

get_db_setting-count :
    (emulator : Bool) (db : Database) → get_db_setting emulator db bootloop_count ≡ count db
unfolding count get_db_setting default_value
get_db_setting-count emulator db = refl

works-set_db_setting :
    (db : Database) (key : DbEntryKey) (value : ℕ)
    → db.works ≡ true
    → (set_db_setting db key value).works ≡ true
unfolding set_db_setting
works-set_db_setting db key value works = rw (works) refl

count-set_db_setting :
    (db : Database) (value : ℕ)
    → db.works ≡ true
    → count (set_db_setting db bootloop_count value) ≡ value % i32
unfolding count same_key to_str
count-set_db_setting db value works =
    get_db_setting-set_db_setting false db bootloop_count bootloop_count value works

count-other :
    (db : Database) (value : ℕ)
    → db.works ≡ true
    → count (set_db_setting db zygisk_config value) ≡ count db
unfolding count same_key to_str
count-other db value works =
    get_db_setting-set_db_setting false db zygisk_config bootloop_count value works

twice : (n : ℕ) → n % i32 % i32 ≡ n % i32
twice n = omega arith

-- What one counted stage does to the database.
record Counted (dev : Device) (d : Daemon) : Type 0 where
  counts : count (count_boot dev d).0.db ≡ (count d.db + 1) % i32
  stays : (count_boot dev d).0.db.works ≡ true
  safe : (count_boot dev d).1 ≡ safe_mode_wanted dev (count d.db)

count_boot-Counted : (dev : Device) (d : Daemon) → d.db.works ≡ true → Counted dev d
count_boot-Counted dev d works =
    let cnt = get_db_setting dev.is_emulator d.db bootloop_count in
    let db = set_db_setting d.db bootloop_count ((cnt + 1) % i32) in
    let same = get_db_setting-count dev.is_emulator d.db in
    let db_works = works-set_db_setting d.db bootloop_count ((cnt + 1) % i32) works in
    let counted : count db ≡ (count d.db + 1) % i32 =
      count-set_db_setting d.db ((cnt + 1) % i32) works
      ∙ twice (cnt + 1)
      ∙ ap (λ n. (n + 1) % i32) same in
    elim (Bool-cases (safe_mode_wanted dev cnt)) [
      | inl safe ↦ record {
        counts = unfold count_boot with_db emit in rw (safe) (count-other db 0 db_works ∙ counted);
        stays =
            unfold count_boot with_db emit in
            rw (safe) (works-set_db_setting db zygisk_config 0 db_works);
        safe =
            unfold count_boot with_db emit in rw (safe) (sym safe ∙ ap (safe_mode_wanted dev) same);
      }
      | inr plain ↦ record {
        counts = unfold count_boot with_db emit load_modules in rw (plain) counted;
        stays = unfold count_boot with_db emit load_modules in rw (plain) db_works;
        safe =
            unfold count_boot with_db emit in
            rw (plain) (sym plain ∙ ap (safe_mode_wanted dev) same);
      }
    ]

ready : Device → Database → Daemon
ready dev db = emit (first_effects dev) (fresh db)

boot-IsUsable :
    (dev : Device) (db : Database)
    → IsUsable dev
    → boot dev db
      ≡ with_state
          (insert_post_fs_data (count_boot dev (ready dev db)).1 initial)
          (count_boot dev (ready dev db)).0
unfolding boot boot_stage_handler ready fresh initial post_fs_data
boot-IsUsable dev db usable = rw (usable.data_ready, usable.has_dir, usable.has_busybox) refl

boot-Counted : (dev : Device) (db : Database) → db.works ≡ true → Counted dev (ready dev db)
boot-Counted dev db works = count_boot-Counted dev (ready dev db) (unfold ready emit fresh in works)

-- A boot that reaches the count adds one to it, in 32 bits.
pub boot-count :
    (dev : Device) (db : Database)
    → IsUsable dev
    → db.works ≡ true
    → count (boot dev db).db ≡ (count db + 1) % i32
boot-count dev db usable works =
    ap (λ d. count d.db) (boot-IsUsable dev db usable)
    ∙ unfold with_state ready emit fresh in (boot-Counted dev db works).counts

pub boot-works :
    (dev : Device) (db : Database) → IsUsable dev → db.works ≡ true → (boot dev db).db.works ≡ true
boot-works dev db usable works =
    ap (λ d. d.db.works) (boot-IsUsable dev db usable)
    ∙ unfold with_state ready emit fresh in (boot-Counted dev db works).stays

pub boot-safe :
    (dev : Device) (db : Database)
    → IsUsable dev
    → db.works ≡ true
    → (boot dev db).state.safe_mode ≡ safe_mode_wanted dev (count db)
boot-safe dev db usable works =
    ap (λ d. d.state.safe_mode) (boot-IsUsable dev db usable)
    ∙ unfold with_state insert_post_fs_data initial ready emit fresh in
      (boot-Counted dev db works).safe

-- With a database that works, a boot that reaches the count and is completed leaves a count of zero,
-- and the next one to reach it is in safe mode as a device with that count is, so only when a property or
-- the keys ask for it.
pub run-boot_complete :
    (dev later next : Device) (db : Database)
    → db.works ≡ true
    → IsUsable dev
    → IsUsable next
    → let left =
        (run ((dev, post_fs_data_code) ∷ (later, boot_complete_code) ∷ []) (fresh db)).db in
      (count left ≡ 0) × ((boot next left).state.safe_mode ≡ safe_mode_wanted next 0)
run-boot_complete dev later next db works usable next_usable =
    let first = boot dev db in
    let post : first.state.post_fs_data_done ≡ true =
      ap (λ d. d.state.post_fs_data_done) (boot-IsUsable dev db usable)
      ∙ unfold with_state insert_post_fs_data in refl in
    let done = boot_stage_handler later boot_complete_code first in
    let taken : done.db ≡ set_db_setting first.db bootloop_count 0 =
      unfold boot_stage_handler in
      rw (post) (unfold boot_complete emit with_db with_state in refl) in
    let opens = boot-works dev db usable works in
    let reset : count done.db ≡ 0 = ap count taken ∙ count-set_db_setting first.db 0 opens in
    let works_done : done.db.works ≡ true =
      ap (λ b. b.works) taken ∙ works-set_db_setting first.db bootloop_count 0 opens in
    unfold run boot in
    (reset, boot-safe next done.db next_usable works_done ∙ ap (safe_mode_wanted next) reset)

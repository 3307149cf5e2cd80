-- ===== src/Core/Stages/Machine.antt =====
-- The boot stages (native/src/core/bootstages.rs) as a state machine over any sequence of requests.
pub mod Bootloop
use magisk_t.Prelude.{
  ◌-◌, ◌≤◌, ◌≡◌, refl, sym, ap, subst, ◌∙◌, inl, inr, Bool, true, false, not, ◌&&◌, List, [], ◌∷◌,
  arith, if◌then◌else◌, Bool-cases,
}
use magisk_t.Core.Settings.{Database}
use magisk_t.Core.Stages.{
  BootState, Daemon, Device, check_data, emit, with_db, with_state, post_fs_data, late_start,
  boot_complete, StageCode, post_fs_data_code, late_start_code, boot_complete_code,
  insert_post_fs_data, insert_late_start, insert_boot_complete, boot_stage_handler,
}
use magisk_t.Core.Stages.Loads.{loads, loads-post_fs_data, loads-late_start, loads-boot_complete}

-- Any requests, each with what the device answers at its time.
unfoldable pub run : List (Device × StageCode) → Daemon → Daemon
unfolding boot_stage_handler
run [] d = d
run ((dev, code) ∷ requests) d = run requests (boot_stage_handler dev code d)

unfoldable pub initial : BootState
initial = record {
  post_fs_data_done = false;
  late_start_done = false;
  boot_complete_done = false;
  safe_mode = false;
}

unfoldable pub fresh : Database → Daemon
unfolding initial
fresh db = record {
  state = initial;
  db = db;
  zygisk_enabled = false;
  module_list = false;
  effects = [];
}

-- The stages are in order, and modules are loaded once at most and never in safe mode.
pub record IsSound (d : Daemon) : Type 0 where
  pub late_after : d.state.late_start_done ≡ true → d.state.post_fs_data_done ≡ true
  pub late_not_safe : d.state.late_start_done ≡ true → d.state.safe_mode ≡ false
  pub complete_after : d.state.boot_complete_done ≡ true → d.state.post_fs_data_done ≡ true
  pub safe_after : d.state.safe_mode ≡ true → d.state.post_fs_data_done ≡ true
  pub loads_once : loads d.effects ≤ 1
  pub loads_after : d.state.post_fs_data_done ≡ false → loads d.effects ≡ 0
  pub loads_not_safe : d.state.safe_mode ≡ true → loads d.effects ≡ 0

pub fresh-IsSound : (db : Database) → IsSound (fresh db)
unfolding fresh initial loads
fresh-IsSound db = record {
  late_after = λ h. cc h;
  late_not_safe = λ h. refl;
  complete_after = λ h. cc h;
  safe_after = λ h. cc h;
  loads_once = omega arith;
  loads_after = λ h. refl;
  loads_not_safe = λ h. refl;
}

-- One request keeps all of it.
IsSound-post_fs_data :
    (dev : Device) (d : Daemon)
    → IsSound d
    → d.state.post_fs_data_done ≡ false
    → IsSound
        (with_state (insert_post_fs_data (post_fs_data dev d).1 d.state) (post_fs_data dev d).0)
unfolding with_state insert_post_fs_data
IsSound-post_fs_data dev d s new =
    let loaded = loads-post_fs_data dev d in
    let none_yet = s.loads_after new in
    let not_safe : d.state.safe_mode ≡ false = ground (arith, new, s.safe_after) in
    record {
      late_after = λ h. refl;
      late_not_safe = λ h. cc (s.late_after h, new);
      complete_after = λ h. refl;
      safe_after = λ h. refl;
      loads_once = ground (arith, loaded, none_yet);
      loads_after = λ h. cc h;
      loads_not_safe = λ h. ground (arith, h, not_safe, loaded, none_yet);
    }

IsSound-late_start :
    (d : Daemon)
    → IsSound d
    → d.state.post_fs_data_done ≡ true
    → d.state.safe_mode ≡ false
    → IsSound (with_state (insert_late_start d.state) (late_start d))
unfolding with_state insert_late_start
IsSound-late_start d s post plain =
    let same = loads-late_start d in
    record {
      late_after = λ h. post;
      late_not_safe = λ h. plain;
      complete_after = s.complete_after;
      safe_after = s.safe_after;
      loads_once = omega (arith, same, s.loads_once);
      loads_after = λ h. cc (h, post);
      loads_not_safe = λ h. cc (h, plain);
    }

IsSound-boot_complete :
    (dev : Device) (d : Daemon)
    → IsSound d
    → d.state.post_fs_data_done ≡ true
    → IsSound (boot_complete dev (with_state (insert_boot_complete d.state) d))
IsSound-boot_complete dev d s post =
    let same = loads-boot_complete dev (with_state (insert_boot_complete d.state) d) in
    unfold boot_complete with_state insert_boot_complete emit with_db in
    record {
      late_after = s.late_after;
      late_not_safe = s.late_not_safe;
      complete_after = λ h. post;
      safe_after = s.safe_after;
      loads_once = omega (arith, same, s.loads_once);
      loads_after = λ h. cc (h, post);
      loads_not_safe = λ h. same ∙ s.loads_not_safe h;
    }

boot_stage_handler-boot_complete :
    (dev : Device) (d : Daemon)
    → d.state.post_fs_data_done ≡ true
    → boot_complete dev (with_state (insert_boot_complete d.state) d)
      ≡ boot_stage_handler dev boot_complete_code d
unfolding boot_stage_handler
boot_stage_handler-boot_complete dev d post =
    ap (λ b. if b then boot_complete dev (with_state (insert_boot_complete d.state) d) else d)
      (sym post)

boot_stage_handler-early :
    (dev : Device) (d : Daemon)
    → d.state.post_fs_data_done ≡ false
    → d ≡ boot_stage_handler dev boot_complete_code d
unfolding boot_stage_handler
boot_stage_handler-early dev d early =
    ap (λ b. if b then boot_complete dev (with_state (insert_boot_complete d.state) d) else d)
      (sym early)

pub IsSound-boot_stage_handler :
    (dev : Device) (code : StageCode) (d : Daemon)
    → IsSound d
    → IsSound (boot_stage_handler dev code d)
unfolding boot_stage_handler
IsSound-boot_stage_handler dev post_fs_data_code d s =
    elim (Bool-cases (check_data dev && not d.state.post_fs_data_done)) [
      | inl start ↦ rw (start) (IsSound-post_fs_data dev d s (ground (arith, start)))
      | inr ignored ↦ rw (ignored) s
    ]
IsSound-boot_stage_handler dev late_start_code d s =
    elim (Bool-cases (d.state.post_fs_data_done && not d.state.safe_mode)) [
      | inl start ↦
          rw (start) (IsSound-late_start d s (ground (arith, start)) (ground (arith, start)))
      | inr ignored ↦ rw (ignored) s
    ]
IsSound-boot_stage_handler dev boot_complete_code d s =
    elim (Bool-cases d.state.post_fs_data_done) [
      | inl start ↦
          subst IsSound (boot_stage_handler-boot_complete dev d start)
            (IsSound-boot_complete dev d s start)
      | inr early ↦ subst IsSound (boot_stage_handler-early dev d early) s
    ]

run-kept :
    (requests : List (Device × StageCode)) (d : Daemon) → IsSound d → IsSound (run requests d)
unfolding run
run-kept [] d s = s
run-kept ((dev, code) ∷ requests) d s =
    run-kept requests (boot_stage_handler dev code d) (IsSound-boot_stage_handler dev code d s)

-- After any sequence of stage requests to a fresh daemon, late start and boot complete were only
-- reached behind post-fs-data, late start never in safe mode, and the modules were loaded once at
-- most, and in safe mode not at all.
pub run-IsSound :
    (requests : List (Device × StageCode)) (db : Database) → IsSound (run requests (fresh db))
run-IsSound requests db = run-kept requests (fresh db) (fresh-IsSound db)

-- ===== src/Core/Stages/Loads.antt =====
-- How often modules are loaded by the boot stages (native/src/core/bootstages.rs).
use magisk_t.Prelude.{
  ℕ, ◌+◌, ◌≡◌, refl, ap, ◌∙◌, inl, inr, not, ◌&&◌, List, [], ◌∷◌, ◌++◌, arith, ltb, if◌then◌else◌,
  Bool-cases, codes,
}
use magisk_t.Core.Settings.{get_db_setting, bootloop_count}
use magisk_t.Core.Stages.{
  Effect, common_scripts, module_scripts, disable_modules, handle_modules, Daemon, Device, emit,
  with_db, safe_mode_wanted, load_modules, first_effects, count_boot, post_fs_data, late_start,
  boot_complete,
}

-- How often the effects load modules.
abbrev loads_one : Effect → ℕ
loads_one handle_modules = 1
loads_one _ = 0

unfoldable pub loads : List Effect → ℕ
loads [] = 0
loads (e ∷ effects) = loads_one e + loads effects

loads-append : (a b : List Effect) → loads (a ++ b) ≡ loads a + loads b
unfolding loads
loads-append [] b = omega arith
loads-append (e ∷ a) b = omega (arith, loads-append a b)

loads-emit :
    (effects : List Effect) (d : Daemon)
    → loads (emit effects d).effects ≡ loads d.effects + loads effects
unfolding emit
loads-emit effects d = loads-append d.effects effects

-- A stage loads the modules exactly when it does not stop the boot.
loads-count_boot :
    (dev : Device) (d : Daemon)
    → loads (count_boot dev d).0.effects ≡ loads d.effects + (if (count_boot dev d).1 then 0 else 1)
unfolding count_boot with_db emit load_modules loads
loads-count_boot dev d =
    elim (Bool-cases (safe_mode_wanted dev (get_db_setting dev.is_emulator d.db bootloop_count))) [
      | inl safe ↦ rw (safe) (loads-append d.effects (disable_modules ∷ []))
      | inr plain ↦ rw (plain) (loads-append d.effects _)
    ]

loads-first_effects : (dev : Device) → loads (first_effects dev) ≡ 0
unfolding first_effects loads
loads-first_effects dev = elim (Bool-cases dev.secure_dir_exists) [
  | inl there ↦ rw (there) refl
  | inr missing ↦ rw (missing) refl
]

pub loads-post_fs_data :
    (dev : Device) (d : Daemon)
    → loads (post_fs_data dev d).0.effects
      ≡ loads d.effects + (if (post_fs_data dev d).1 then 0 else 1)
unfolding post_fs_data
loads-post_fs_data dev d =
    let ready = emit (first_effects dev) d in
    let same : loads ready.effects ≡ loads d.effects =
      omega (arith, loads-emit (first_effects dev) d, loads-first_effects dev) in
    elim (Bool-cases (not dev.secure_dir_exists && not (ltb dev.sdk_int 24))) [
      | inl abort ↦ rw (abort) (omega arith)
      | inr going ↦ elim (Bool-cases dev.busybox_exists) [
        | inl there ↦
            rw (going, there)
              (loads-count_boot dev ready
                ∙ ap (λ n. n + (if (count_boot dev ready).1 then 0 else 1)) same)
        | inr missing ↦ rw (going, missing) (omega (arith, same))
      ]
    ]

pub loads-late_start : (d : Daemon) → loads (late_start d).effects ≡ loads d.effects
unfolding late_start loads
loads-late_start d =
    let service = common_scripts (codes "service") in
    let modules : List Effect =
      if d.module_list then module_scripts (codes "service") ∷ [] else [] in
    let none_loaded : loads modules ≡ 0 = elim (Bool-cases d.module_list) [
      | inl listed ↦ rw (listed) refl
      | inr empty ↦ rw (empty) refl
    ] in
    loads-emit (service ∷ modules) d ∙ omega (arith, none_loaded)

pub loads-boot_complete :
    (dev : Device) (d : Daemon) → loads (boot_complete dev d).effects ≡ loads d.effects
unfolding boot_complete with_db loads
loads-boot_complete dev d = elim (Bool-cases d.zygisk_enabled) [
  | inl on ↦ elim (Bool-cases dev.secure_dir_exists) [
    | inl there ↦ rw (on, there) (loads-append d.effects _ ∙ omega arith)
    | inr missing ↦ rw (on, missing) (loads-append d.effects _ ∙ omega arith)
  ]
  | inr off ↦ elim (Bool-cases dev.secure_dir_exists) [
    | inl there ↦ rw (off, there) (loads-append d.effects _ ∙ omega arith)
    | inr missing ↦ rw (off, missing) (loads-append d.effects _ ∙ omega arith)
  ]
]

-- ===== src/Core/Module/Select/Marks.antt =====
-- What `collect_modules` (native/src/core/module.rs) makes of one module, by the marks in it.
use magisk_t.Prelude.{
  ℕ, ◌≡◌, refl, sym, ap, ◌∙◌, inl, inr, Bool, true, false, not, ◌&&◌, ◌||◌, Option, none, some,
  List, [], ◌∷◌, arith, if◌then◌else◌, Bool-cases, Bytes, codes, bytes_eq, bytes_eq_iff,
}
use magisk_t.Core.Module.Store.{Calls, contains_path, unlink}
use magisk_t.Core.Module.Select.{
  Arch, ModuleInfo, Selected, failed, removed, kept, plain_info, select_zygisk, select_module,
  add_info,
}

-- The marks of a module that is used, by the files in its directory.
abbrev pub is_used : Bool → Bytes → List Bytes → Bool
is_used zygisk_enabled name files =
    not (contains_path (codes "remove") files)
    && not (contains_path (codes "disable") files)
    && (if zygisk_enabled
        then not (bytes_eq name (codes "riru-core") || contains_path (codes "riru") files)
        else not (contains_path (codes "zygisk") files))

abbrev pub names : List ModuleInfo → List Bytes
names [] = []
names (info ∷ infos) = info.name ∷ names infos

contains-unlink :
    (path gone : Bytes) (files : List Bytes)
    → bytes_eq gone path ≡ false
    → contains_path path (unlink gone files) ≡ contains_path path files
unfolding contains_path unlink
contains-unlink path gone [] other = refl
contains-unlink path gone (file ∷ files) other =
    ground (
      arith,
      other,
      bytes_eq_iff file gone,
      bytes_eq_iff file path,
      contains-unlink path gone files,
    )

-- Removing a file that is no mark changes nothing about a module.
is_used-unlink :
    (z : Bool) (name gone : Bytes) (files : List Bytes)
    → bytes_eq gone (codes "remove") ≡ false
    → bytes_eq gone (codes "disable") ≡ false
    → bytes_eq gone (codes "riru") ≡ false
    → bytes_eq gone (codes "zygisk") ≡ false
    → is_used z name (unlink gone files) ≡ is_used z name files
is_used-unlink z name gone files a b c d =
    rw
      (
        contains-unlink (codes "remove") gone files a,
        contains-unlink (codes "disable") gone files b,
        contains-unlink (codes "riru") gone files c,
        contains-unlink (codes "zygisk") gone files d,
      )
      refl

-- What one module adds, and what it leaves.
abbrev pub AddsName : Bool → Bytes → List Bytes → Selected → Type 0
AddsName z name files (failed script_ran) = ⊥
AddsName z name files removed = is_used z name files ≡ false
AddsName z name files (kept left info) =
    ((rest : List ModuleInfo)
      → names (add_info info rest)
        ≡ (if is_used z name files then name ∷ names rest else names rest))
    × (is_used z name left ≡ is_used z name files)

AddsName-none :
    (z : Bool) (name : Bytes) (files left : List Bytes)
    → is_used z name files ≡ false
    → is_used z name left ≡ is_used z name files
    → AddsName z name files (kept left none)
unfolding add_info
AddsName-none z name files left e same = (λ rest. rw (e) refl, same)

AddsName-some :
    (z : Bool) (name : Bytes) (files left : List Bytes) (z32 z64 : Option ℕ)
    → is_used z name files ≡ true
    → is_used z name left ≡ is_used z name files
    → AddsName z name files (kept left (some (record { name = name; z32 = z32; z64 = z64 })))
unfolding add_info
AddsName-some z name files left z32 z64 e same = (λ rest. rw (e) refl, same)

select_zygisk-AddsName :
    (c : Calls) (arch : Arch) (z o : Bool) (name : Bytes) (files : List Bytes)
    → contains_path (codes "remove") files ≡ false
    → contains_path (codes "disable") files ≡ false
    → AddsName z name files (select_zygisk c arch z o name files)
unfolding select_zygisk plain_info
select_zygisk-AddsName c arch true o name files stays enabled =
    elim (Bool-cases (bytes_eq name (codes "riru-core") || contains_path (codes "riru") files)) [
      | inl riru ↦
          rw (riru) (AddsName-none true name files files (rw (stays, enabled, riru) refl) refl)
      | inr plain ↦
          let is : is_used true name files ≡ true = rw (stays, enabled, plain) refl in
          rw (plain) (elim (Bool-cases (o && contains_path (codes "zygisk") files)) [
            | inl opened ↦ rw (opened) (
                AddsName-some true name files (unlink (codes "zygisk/unloaded") files) _ _ is
                  (is_used-unlink true name (codes "zygisk/unloaded") files refl refl refl refl))
            | inr closed ↦ rw (closed) (AddsName-some true name files files none none is refl)
          ])
    ]
select_zygisk-AddsName c arch false o name files stays enabled =
    elim (Bool-cases (contains_path (codes "zygisk") files)) [
      | inl zygisk ↦
          rw (zygisk) (AddsName-none false name files files (rw (stays, enabled, zygisk) refl) refl)
      | inr plain ↦
          rw (plain)
            (AddsName-some false name files files none none (rw (stays, enabled, plain) refl) refl)
    ]

-- From the files without the mark of an update to all of them.
AddsName-update :
    (z : Bool) (name : Bytes) (files : List Bytes) (s : Selected)
    → AddsName z name (unlink (codes "update") files) s
    → AddsName z name files s
AddsName-update z name files s h =
    let same = is_used-unlink z name (codes "update") files refl refl refl refl in go s h same
  where
    go :
        (s : Selected)
        → AddsName z name (unlink (codes "update") files) s
        → is_used z name (unlink (codes "update") files) ≡ is_used z name files
        → AddsName z name files s
    go (failed script_ran) h same = h
    go removed h same = sym same ∙ h
    go (kept left info) (adds, leaves) same = (
      λ rest. adds rest ∙ ap (λ b. if b then name ∷ names rest else names rest) same,
      leaves ∙ same,
    )

pub select_module-AddsName :
    (c : Calls) (arch : Arch) (z o : Bool) (name : Bytes) (files : List Bytes)
    → c.opens name ≡ true
    → c.removes name ≡ true
    → AddsName z name files (select_module c arch z o name files)
unfolding select_module
select_module-AddsName c arch z o name files opens removes =
    let updated = unlink (codes "update") files in
    rw (opens) (elim (Bool-cases (contains_path (codes "remove") files)) [
      | inl gone ↦ rw (gone, removes) (rw (gone) refl)
      | inr stays ↦
          let stays' = contains-unlink (codes "remove") (codes "update") files refl ∙ stays in
          rw (stays) (
            AddsName-update z name files _
              (elim (Bool-cases (contains_path (codes "disable") updated)) [
                | inl disabled ↦
                    rw (disabled)
                      (AddsName-none z name updated updated (rw (stays', disabled) refl) refl)
                | inr enabled ↦
                    rw (enabled) (select_zygisk-AddsName c arch z o name updated stays' enabled)
              ]))
    ])

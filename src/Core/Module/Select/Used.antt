-- ===== src/Core/Module/Select/Used.antt =====
-- Which modules `collect_modules` (native/src/core/module.rs) returns, and that a second pass returns
-- the same.
use magisk_t.Prelude.{
  ◌≡◌, refl, sym, ap, ap₂, ◌∙◌, inl, inr, Bool, true, false, ◌&&◌, List, [], ◌∷◌, if◌then◌else◌,
  Bool-cases, Bytes,
}
use magisk_t.Core.Module.Store.{Item, folder, not_folder, Root, Calls, is_module}
use magisk_t.Core.Module.Select.{
  Arch, ModuleInfo, Selected, failed, removed, kept, select_module, after_select, skip_entry,
  select_modules, convert_all, collect_modules, Collection,
}
use magisk_t.Core.Module.Select.Marks.{is_used, names, AddsName, select_module-AddsName}

unfoldable pub used : Bool → Root → List Bytes
unfolding is_module
used zygisk_enabled [] = []
used zygisk_enabled ((name, not_folder) ∷ root) = used zygisk_enabled root
used zygisk_enabled ((name, folder files) ∷ root) =
    let rest = used zygisk_enabled root in
    if is_module name (folder files) && is_used zygisk_enabled name files then name ∷ rest else rest

-- The names that come out, and the names that would come out of what is left.
abbrev Lists : Bool → Root → List Bytes → List ModuleInfo → Type 0
Lists z left expected infos = (names infos ≡ expected) × (used z left ≡ expected)

used-skip :
    (z : Bool) (name : Bytes) (files : List Bytes) (root : Root)
    → is_module name (folder files) ≡ false
    → used z ((name, folder files) ∷ root) ≡ used z root
unfolding used
used-skip z name files root e = rw (e) refl

used-module :
    (z : Bool) (name : Bytes) (files : List Bytes) (root : Root)
    → is_module name (folder files) ≡ true
    → used z ((name, folder files) ∷ root)
      ≡ (if is_used z name files then name ∷ used z root else used z root)
unfolding used
used-module z name files root e = rw (e) refl

is_module_any :
    (name : Bytes) (files left : List Bytes)
    → is_module name (folder files) ≡ is_module name (folder left)
unfolding is_module
is_module_any name files left = refl

after_select-Lists :
    (z : Bool) (name : Bytes) (files : List Bytes) (rest : Root) (s : Selected) (later : Collection)
    → is_module name (folder files) ≡ true
    → AddsName z name files s
    → Lists z later.root (used z rest) later.modules
    → let now = after_select name files rest s later in
      Lists z now.root (used z ((name, folder files) ∷ rest)) now.modules
unfolding after_select
after_select-Lists z name files rest (failed script_ran) later e h l = absurd h
after_select-Lists z name files rest removed later e h (p, q) =
    let same : used z ((name, folder files) ∷ rest) ≡ used z rest =
      used-module z name files rest e ∙ rw (h) refl in
    (p ∙ sym same, q ∙ sym same)
after_select-Lists z name files rest (kept left info) later e (adds, leaves) (p, q) =
    let same = used-module z name files rest e in
    (
      adds later.modules ∙ ap (λ x. if is_used z name files then name ∷ x else x) p ∙ sym same,
      used-module z name left later.root (sym (is_module_any name files left) ∙ e)
          ∙ ap₂ (λ b x. if b then name ∷ x else x) leaves q
          ∙ sym same,
    )

skip_entry-Lists :
    (z : Bool) (name : Bytes) (item : Item) (rest : Root) (later : Collection)
    → is_module name item ≡ false
    → Lists z later.root (used z rest) later.modules
    → let now = skip_entry name item later in
      Lists z now.root (used z ((name, item) ∷ rest)) now.modules
unfolding skip_entry used
skip_entry-Lists z name (folder files) rest later e (p, q) =
    let same = used-skip z name files rest e in
    (p ∙ sym same, used-skip z name files later.root e ∙ q ∙ sym same)
skip_entry-Lists z name not_folder rest later e l = l

select_modules-Lists :
    (c : Calls) (arch : Arch) (z o : Bool)
    → ((name : Bytes) → c.opens name ≡ true)
    → ((name : Bytes) → c.removes name ≡ true)
    → (root : Root)
    → let selected = select_modules c arch z o root in
      Lists z selected.root (used z root) selected.modules
unfolding select_modules
select_modules-Lists c arch z o opens removes [] = unfold used in (refl, refl)
select_modules-Lists c arch z o opens removes ((name, not_folder) ∷ root) =
    skip_entry-Lists z name not_folder root (select_modules c arch z o root)
      (unfold is_module in refl) (select_modules-Lists c arch z o opens removes root)
select_modules-Lists c arch z o opens removes ((name, folder files) ∷ root) =
    let later = select_modules c arch z o root in
    elim (Bool-cases (is_module name (folder files))) [
      | inr core ↦ rw (core) (
          skip_entry-Lists z name (folder files) root later core
            (select_modules-Lists c arch z o opens removes root))
      | inl there ↦ rw (there) (
          after_select-Lists z name files root (select_module c arch z o name files) later there
            (select_module-AddsName c arch z o name files (opens name) (removes name))
            (select_modules-Lists c arch z o opens removes root))
    ]

names-convert_all :
    (c : Calls) (use_memfd : Bool) (infos : List ModuleInfo)
    → names (convert_all c use_memfd infos) ≡ names infos
unfolding convert_all
names-convert_all c use_memfd [] = refl
names-convert_all c use_memfd (info ∷ infos) = ap (◌∷◌ info.name) (names-convert_all c _ infos)

-- When every module can be opened and removed, the modules that are returned are, in order,
-- those without the marks remove and disable that fit Zygisk: with Zygisk on, no Riru; with it
-- off, no zygisk folder. Of what is left in the directory the same names would be chosen.
pub collect_modules-used :
    (c : Calls) (arch : Arch) (z o : Bool) (root : Root)
    → ((name : Bytes) → c.opens name ≡ true)
    → ((name : Bytes) → c.removes name ≡ true)
    → (names (collect_modules c arch z o root).modules ≡ used z root)
      × (used z (collect_modules c arch z o root).root ≡ used z root)
unfolding collect_modules
collect_modules-used c arch z o root opens removes =
    let selected = select_modules c arch z o root in
    let (same, left) = select_modules-Lists c arch z o opens removes root in
    elim (Bool-cases (z && o)) [
      | inl converted ↦ rw (converted) (names-convert_all c true selected.modules ∙ same, left)
      | inr plain ↦ rw (plain) (same, left)
    ]

-- When every module can be opened and removed, and nothing changes the directory in between, the
-- second pass returns the modules of the first.
pub collect_modules_again :
    (c : Calls) (arch : Arch) (z : Bool) (root : Root)
    → ((name : Bytes) → c.opens name ≡ true)
    → ((name : Bytes) → c.removes name ≡ true)
    → names (collect_modules c arch z true (collect_modules c arch z false root).root).modules
      ≡ names (collect_modules c arch z false root).modules
collect_modules_again c arch z root opens removes =
    let (same, left) = collect_modules-used c arch z false root opens removes in
    let first = collect_modules c arch z false root in
    (collect_modules-used c arch z true first.root opens removes).0 ∙ left ∙ sym same

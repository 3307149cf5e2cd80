-- ===== src/Core/Module/Store/Upgraded.antt =====
-- What `upgrade_modules` (native/src/core/module.rs) leaves under every name.
use magisk_t.Prelude.{
  ◌≡◌, refl, ap, subst, ◌∙◌, inl, inr, Bool, true, false, ◌&&◌, Option, none, some, List, [], ◌∷◌,
  arith, if◌then◌else◌, Bool-cases, Option-cases, Bytes, codes, bytes_eq, bytes_eq_iff,
}
use magisk_t.BtreeMap as Map
use magisk_t.BtreeMap.{BtreeMap}
use magisk_t.BtreeMap.Laws.{get-remove}
use magisk_t.Core.Module.Store.{
  Item, folder, not_folder, Root, Calls, contains_path, create, put, move_in, upgrade_one,
  upgrade_loop, upgrade_modules,
}

-- The new module, disabled when the old one was.
abbrev pub upgraded : Option Item → List Bytes → Item
upgraded (some (folder old)) files =
    if contains_path (codes "disable") old
    then folder (create (codes "disable") files)
    else folder files
upgraded _ files = folder files

get-put :
    (name k : Bytes) (files : List Bytes) (root : Root)
    → Map.get name root ≡ none
    → Map.get k (put name files root)
      ≡ (if bytes_eq name k then some (folder files) else Map.get k root)
unfolding put Map.get
get-put name k files [] free = refl
get-put name k files ((j, item) ∷ root) free = ground (
  arith,
  free,
  bytes_eq_iff j name,
  bytes_eq_iff j k,
  bytes_eq_iff name k,
  get-put name k files root,
)

-- A module that moves in to a free name.
get-move_in :
    (c : Calls) (name k : Bytes) (files : List Bytes) (disable : Bool) (root : Root)
    → Map.get name root ≡ none
    → (move_in c name files disable root).2 ≡ true
    → Map.get k (move_in c name files disable root).0 ≡ (
        if bytes_eq name k
        then some (if disable then folder (create (codes "disable") files) else folder files)
        else Map.get k root)
unfolding move_in
get-move_in c name k files false root free = elim (Bool-cases (c.renames name)) [
  | inr stuck ↦ rw (stuck) (λ done. cc done)
  | inl moved ↦ rw (moved) (λ done. get-put name k files root free)
]
get-move_in c name k files true root free = elim (Bool-cases (c.renames name)) [
  | inr stuck ↦ rw (stuck) (λ done. cc done)
  | inl moved ↦ elim (Bool-cases (c.creates name)) [
    | inl made ↦
        rw (moved, made) (λ done. get-put name k (create (codes "disable") files) root free)
    | inr stuck ↦ rw (moved, stuck) (λ done. cc done)
  ]
]

get-move_in_over :
    (c : Calls) (name k : Bytes) (files : List Bytes) (disable : Bool) (root : Root)
    → (move_in c name files disable (Map.remove name root)).2 ≡ true
    → Map.get k (move_in c name files disable (Map.remove name root)).0 ≡ (
        if bytes_eq name k
        then some (if disable then folder (create (codes "disable") files) else folder files)
        else Map.get k root)
get-move_in_over c name k files disable root done =
    get-move_in c name k files disable (Map.remove name root)
      (rw (get-remove name name root, (bytes_eq_iff name name).1 refl) refl) done
    ∙ rw (get-remove name k root) (elim (Bool-cases (bytes_eq name k)) [
      | inl hit ↦ rw (hit) refl
      | inr miss ↦ rw (miss) refl
    ])

get-upgrade_one :
    (c : Calls) (name k : Bytes) (files : List Bytes) (root : Root)
    → (upgrade_one c name files root).2 ≡ true
    → Map.get k (upgrade_one c name files root).0
      ≡ (if bytes_eq name k then some (upgraded (Map.get name root) files) else Map.get k root)
unfolding upgrade_one
get-upgrade_one c name k files root = elim (Option-cases (Map.get name root)) [
  | inl free ↦ rw (free, upgrade_one) (get-move_in c name k files false root free)
  | inr (not_folder, here) ↦ rw (here, upgrade_one) (λ done. cc done)
  | inr (folder old, here) ↦ elim (Bool-cases (c.opens name && c.removes name)) [
    | inr stuck ↦ rw (here, stuck, upgrade_one) (λ done. cc done)
    | inl gone ↦
        rw (here, gone, upgrade_one)
          (get-move_in_over c name k files (contains_path (codes "disable") old) root)
  ]
]

-- No name twice in the directory of upgrades.
abbrev pub IsDistinct : Root → Type 0
IsDistinct [] = Unit
IsDistinct ((name, item) ∷ root) = (Map.get name root ≡ none) × IsDistinct root

-- What is under a name when the upgrade of that name is done.
abbrev pub merged : Option Item → Option Item → Option Item
merged old none = old
merged old (some not_folder) = old
merged old (some (folder files)) = some (upgraded old files)

get-upgrade_loop :
    (c : Calls) (upgrades root : Root) (k : Bytes)
    → IsDistinct upgrades
    → (upgrade_loop c upgrades root).2 ≡ true
    → Map.get k (upgrade_loop c upgrades root).1 ≡ merged (Map.get k root) (Map.get k upgrades)
unfolding upgrade_loop Map.get
get-upgrade_loop c [] root k distinct = λ done. refl
get-upgrade_loop c ((name, not_folder) ∷ upgrades) root k (free, distinct) = λ done.
    get-upgrade_loop c upgrades root k distinct done ∙ elim (Bool-cases (bytes_eq name k)) [
      | inl hit ↦
          let free' : Map.get k upgrades ≡ none =
            subst (λ x. Map.get x upgrades ≡ none) ((bytes_eq_iff name k).0 hit) free in
          rw (hit, free') refl
      | inr miss ↦ rw (miss) refl
    ]
get-upgrade_loop c ((name, folder files) ∷ upgrades) root k (free, distinct) =
    let first = upgrade_one c name files root in
    elim (Bool-cases first.2) [
      | inr stuck ↦ elim (Bool-cases first.1) [
        | inl moved ↦ rw (stuck, moved) (λ done. cc done)
        | inr stayed ↦ rw (stuck, stayed) (λ done. cc done)
      ]
      | inl fine ↦ rw (fine) (λ done.
          get-upgrade_loop c upgrades first.0 k distinct done
          ∙ ap (λ x. merged x (Map.get k upgrades)) (get-upgrade_one c name k files root fine)
          ∙ elim (Bool-cases (bytes_eq name k)) [
            | inl hit ↦
                let p = (bytes_eq_iff name k).0 hit in
                let free' : Map.get k upgrades ≡ none =
                  subst (λ x. Map.get x upgrades ≡ none) p free in
                rw (hit, free', p) refl
            | inr miss ↦ rw (miss) refl
          ])
    ]

-- When no error is met and no upgrade is there twice, the directory of upgrades is gone, and
-- under every name is the upgrade, disabled when the module was, or what was there when there is
-- no upgrade of that name.
pub get-upgrade_modules :
    (c : Calls) (upgrades root : Root) (k : Bytes)
    → IsDistinct upgrades
    → (upgrade_modules c (some upgrades) root).2 ≡ true
    → ((upgrade_modules c (some upgrades) root).0 ≡ none)
      × (Map.get k (upgrade_modules c (some upgrades) root).1
          ≡ merged (Map.get k root) (Map.get k upgrades))
unfolding upgrade_modules
get-upgrade_modules c upgrades root k distinct =
    elim (Bool-cases (upgrade_loop c upgrades root).2) [
      | inr stuck ↦ rw (stuck) (λ done. cc done)
      | inl fine ↦ elim (Bool-cases c.clears) [
        | inr stuck ↦ rw (fine, stuck) (λ done. cc done)
        | inl cleared ↦
            rw (fine, cleared) (λ done. (refl, get-upgrade_loop c upgrades root k distinct fine))
      ]
    ]

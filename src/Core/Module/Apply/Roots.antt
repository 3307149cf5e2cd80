-- ===== src/Core/Module/Apply/Roots.antt =====
-- The partition roots (native/src/core/module.rs): nothing of the tree is lost when it is taken
-- apart.
use magisk_t.Prelude.{
  ◌≡◌, refl, sym, subst, ◌∙◌, ◌⊎◌, inl, inr, true, false, some, List, [], ◌∷◌, Bool-cases,
  Option-cases, Bytes, codes, All, bytes_eq, bytes_eq_iff,
}
use magisk_t.BtreeMap as Map
use magisk_t.BtreeMap.{BtreeMap}
use magisk_t.BtreeMap.Laws.{get-insert}
use magisk_t.Core.Module.{FsNode, directory, file, symlink, magisk_link, whiteout, FsNodeMap, World}
use magisk_t.Core.Module.Tree.{get, get-remove, remove, child}
use magisk_t.Core.Module.Apply.{is_partition, add_root, extract_roots, partition_roots, secondary}

abbrev pub NotSystem : Bytes → Type 0
NotSystem name = bytes_eq (codes "system") name ≡ false

-- A child is in the tree that is left, or is the root of its own partition.
abbrev pub InPart : World → Bytes → FsNode → FsNode × BtreeMap FsNode → Type 0
InPart w name n (left, roots) =
    (child name left ≡ some n)
    ⊎ ((Map.get name roots ≡ some n) × ((is_partition w name ≡ true) × NotSystem name))

InPart-insert :
    (w : World) (name other : Bytes) (n root left : FsNode) (roots : BtreeMap FsNode)
    → bytes_eq other name ≡ false
    → InPart w name n (left, roots)
    → InPart w name n (left, Map.insert other root roots)
InPart-insert w name other n root left roots miss (inl here) = inl here
InPart-insert w name other n root left roots miss (inr (there, facts)) =
    inr (rw (get-insert other name root roots, miss) there, facts)

-- A partition is taken out, whatever was taken out after it.
InPart-add_root :
    (w : World) (other name : Bytes) (m : FsNodeMap) (n : FsNode) (rest : FsNode × BtreeMap FsNode)
    → (is_partition w other ≡ true) × NotSystem other
    → get name m ≡ some n
    → (bytes_eq other name ≡ false → InPart w name n rest)
    → InPart w name n (add_root other (get other m) rest)
unfolding add_root
InPart-add_root w other name m n rest facts e h = elim (Bool-cases (bytes_eq other name)) [
  | inl hit ↦
      let p = (bytes_eq_iff other name).0 hit in
      let here : get other m ≡ some n = subst (λ x. get x m ≡ some n) (sym p) e in
      rw (here) (
        inr (
          rw (get-insert other name n rest.1, hit) refl,
          subst (λ x. (is_partition w x ≡ true) × NotSystem x) p facts,
        ))
  | inr miss ↦ elim (Option-cases (get other m)) [
    | inl free ↦ rw (free) (h miss)
    | inr (root, here) ↦ rw (here) (InPart-insert w name other n root rest.0 rest.1 miss (h miss))
  ]
]

pub extract_roots-InPart :
    (w : World) (names : List Bytes) (name : Bytes) (system n : FsNode)
    → All NotSystem names
    → child name system ≡ some n
    → InPart w name n (extract_roots w names system)
unfolding extract_roots child
extract_roots-InPart w [] name system n others e = inl e
extract_roots-InPart w (other ∷ names) name (file src) n others e = inl e
extract_roots-InPart w (other ∷ names) name (symlink to) n others e = inl e
extract_roots-InPart w (other ∷ names) name magisk_link n others e = inl e
extract_roots-InPart w (other ∷ names) name whiteout n others e = inl e
extract_roots-InPart w (other ∷ names) name (directory m) n (not_this, others) e =
    elim (Bool-cases (is_partition w other)) [
      | inr plain ↦ rw (plain) (extract_roots-InPart w names name (directory m) n others e)
      | inl partition ↦ rw (partition) (
          InPart-add_root w other name m n (extract_roots w names (directory (remove other m)))
            (partition, not_this) e
            (λ miss.
              extract_roots-InPart w names name (directory (remove other m)) n others
                (get-remove other name m ∙ rw (miss) e)))
    ]

-- Each child of the tree is the root of its own partition, if the device has that partition, or
-- is still a child of the root `system`.
pub partition_roots-child :
    (w : World) (name : Bytes) (system n : FsNode)
    → child name system ≡ some n
    → ((Map.get name (partition_roots w system) ≡ some n) × (is_partition w name ≡ true))
      ⊎ ((left : FsNode) × (Map.get (codes "system") (partition_roots w system) ≡ some left)
          × (child name left ≡ some n))
unfolding partition_roots
partition_roots-child w name system n e =
    let parts = extract_roots w secondary system in
    elim (extract_roots-InPart w secondary name system n (refl, (refl, (refl, tt))) e) [
      | inl here ↦
          inr
            (parts.0, rw (get-insert (codes "system") (codes "system") parts.0 parts.1) refl, here)
      | inr (there, (partition, not_system)) ↦
          inl (rw (get-insert (codes "system") name parts.0 parts.1, not_system) there, partition)
    ]

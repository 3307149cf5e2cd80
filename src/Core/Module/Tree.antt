-- ===== src/Core/Module/Tree.antt =====
-- `FsNodeMap` of native/src/core/module.rs as a map, and lookups along a path.
use magisk_t.Prelude.{
  ◌≡◌, refl, sym, ap, ◌∙◌, inl, inr, false, Option, none, some, List, [], ◌∷◌, if◌then◌else◌,
  Option-cases, Bytes, bytes_eq, bytes_eq_iff,
}
use magisk_t.BtreeMap as Map
use magisk_t.BtreeMap.{BtreeMap}
use magisk_t.BtreeMap.Laws
use magisk_t.Core.Module.{FsNode, directory, FsNodeMap, empty, node}

unfoldable pub to_list : FsNodeMap → BtreeMap FsNode
to_list empty = []
to_list (node name n others) = (name, n) ∷ to_list others

unfoldable pub from_list : BtreeMap FsNode → FsNodeMap
from_list [] = empty
from_list ((name, n) ∷ others) = node name n (from_list others)

unfoldable pub get : Bytes → FsNodeMap → Option FsNode
unfolding to_list Map.get
get name children = Map.get name (to_list children)

unfoldable pub insert : Bytes → FsNode → FsNodeMap → FsNodeMap
unfolding to_list from_list Map.insert
insert name n children = from_list (Map.insert name n (to_list children))

unfoldable pub remove : Bytes → FsNodeMap → FsNodeMap
unfolding to_list from_list Map.remove
remove name children = from_list (Map.remove name (to_list children))

-- `entry(name).or_insert_with(..)`
unfoldable pub or_insert : Bytes → FsNode → FsNodeMap → FsNodeMap
unfolding get insert
or_insert name n children = elim (get name children) [
  | none ↦ insert name n children
  | some _ ↦ children
]

pub to_list-from_list : (l : BtreeMap FsNode) → to_list (from_list l) ≡ l
unfolding to_list from_list
to_list-from_list [] = refl
to_list-from_list ((name, n) ∷ others) = ap (◌∷◌ (name, n)) (to_list-from_list others)

pub get-insert :
    (name other : Bytes) (n : FsNode) (children : FsNodeMap)
    → get other (insert name n children)
      ≡ (if bytes_eq name other then some n else get other children)
unfolding get insert
get-insert name other n children =
    ap (Map.get other) (to_list-from_list (Map.insert name n (to_list children)))
    ∙ Laws.get-insert name other n (to_list children)

pub get-remove :
    (name other : Bytes) (children : FsNodeMap)
    → get other (remove name children) ≡ (if bytes_eq name other then none else get other children)
unfolding get remove
get-remove name other children =
    ap (Map.get other) (to_list-from_list (Map.remove name (to_list children)))
    ∙ Laws.get-remove name other (to_list children)

-- The children of a directory, and `children.get(name)`.
unfoldable pub child : Bytes → FsNode → Option FsNode
unfolding get
child name (directory children) = get name children
child name _ = none

-- The node at a path, by the names on the way.
unfoldable pub find : List Bytes → FsNode → Option FsNode
unfolding child
find [] n = some n
find (name ∷ names) n = elim (child name n) [ none ↦ none | some below ↦ find names below ]

pub find-child :
    (name : Bytes) (m : FsNodeMap) (n : FsNode) (names : List Bytes)
    → get name m ≡ some n
    → find (name ∷ names) (directory m) ≡ find names n
unfolding find child
find-child name m n names e = rw (e, find) refl

pub find-insert :
    (name : Bytes) (n : FsNode) (m : FsNodeMap) (names : List Bytes)
    → find (name ∷ names) (directory (insert name n m)) ≡ find names n
find-insert name n m names =
    find-child name (insert name n m) n names
      (rw (get-insert name name n m, (bytes_eq_iff name name).1 refl) refl)

pub find-insert_other :
    (name other : Bytes) (n : FsNode) (m : FsNodeMap) (names : List Bytes)
    → bytes_eq name other ≡ false
    → find (other ∷ names) (directory (insert name n m)) ≡ find (other ∷ names) (directory m)
unfolding find child
find-insert_other name other n m names miss =
    ap (λ x. elim x [ none ↦ none | some below ↦ find names below ])
      (get-insert name other n m ∙ rw (miss) refl)

pub get-node :
    (name j : Bytes) (n : FsNode) (others : FsNodeMap)
    → get name (node j n others) ≡ (if bytes_eq j name then some n else get name others)
unfolding get to_list
get-node name j n others = refl

-- A path that ends in a node goes through a child.
pub find-through :
    (name : Bytes) (names : List Bytes) (m : FsNodeMap) (n : FsNode)
    → find (name ∷ names) (directory m) ≡ some n
    → (c : FsNode) × (get name m ≡ some c) × (find names c ≡ some n)
unfolding find child
find-through name names m n e = elim (Option-cases (get name m)) [
  | inl gone ↦ cc (e, gone)
  | inr (c, here) ↦ (c, here, sym (find-child name m c names here) ∙ e)
]

-- ===== src/Hierarchy.antt =====
-- crates/reprocut-workspace/src/hierarchy.rs: the directories of the project as groups of units, which
-- the directory phase of the reducer tries to remove.
use reprocut.Prelude.{ℕ, suc, ◌==◌, if◌then◌else◌, List, [], ◌∷◌, ◌++◌, map}
use Prim.Native.Nat.{compare, Ordering}
use reprocut.Prelude.Orders.{compare_list, then_with}
use reprocut.Prelude.Sorting.{sort_by, dedup, by_ordering}
use reprocut.Transformation.{Bytes, split, is_empty}
use reprocut.Reducer.{ReductionUnit}
pub mod Groups
mod Tests

pub data HierarchyGroupKind : Type 0 where
  directory file : HierarchyGroupKind

pub record HierarchyGroup : Type 0 where
  pub kind : HierarchyGroupKind
  pub path : Bytes
  pub unit_ids : List ℕ

-- The map from a directory to the identifiers pushed for it, in the order of the keys.
abbrev pub Directories : Type 0
Directories = List (Bytes × List ℕ)

-- `.entry(path).or_default().push(id)`
unfoldable pub push_id : Bytes → ℕ → Directories → Directories
push_id path id [] = (path, id ∷ []) ∷ []
push_id path id ((key, ids) ∷ rest) =
    let later = (key, ids) ∷ push_id path id rest in
    by_ordering (compare_list compare path key) ((path, id ∷ []) ∷ (key, ids) ∷ rest)
      ((key, ids ++ id ∷ []) ∷ rest) later

-- The loop over the components of one path but the last, with the prefix so far.
unfoldable pub push_prefixes : ℕ → Bytes → List Bytes → Directories → Directories
push_prefixes id prefix [] directories = directories
push_prefixes id prefix (component ∷ []) directories = directories
push_prefixes id prefix (component ∷ next ∷ rest) directories =
    let longer = (if is_empty prefix then prefix else prefix ++ 47 ∷ []) ++ component in
    push_prefixes id longer (next ∷ rest) (push_id longer id directories)

-- The loop over the units.
unfoldable pub collect : List ReductionUnit → Directories → Directories
collect [] directories = directories
collect (unit ∷ units) directories =
    collect units (push_prefixes unit.id [] (split 47 unit.path) directories)

abbrev pub directory_group : Bytes × List ℕ → HierarchyGroup
directory_group (path, unit_ids) = record {
  kind = directory;
  path = path;
  unit_ids = dedup compare (sort_by compare unit_ids);
}

-- The number of slashes.
unfoldable pub path_depth : Bytes → ℕ
path_depth [] = 0
path_depth (byte ∷ rest) = if byte == 47 then suc (path_depth rest) else path_depth rest

abbrev pub group_order : HierarchyGroup → HierarchyGroup → Ordering
group_order left right =
    then_with (compare (path_depth left.path) (path_depth right.path))
      (compare_list compare left.path right.path)

abbrev pub file_group : ReductionUnit → HierarchyGroup
file_group unit = record { kind = file; path = unit.path; unit_ids = unit.id ∷ [] }

-- `DirectoryHierarchy::from_units`
unfoldable pub from_units : List ReductionUnit → List HierarchyGroup
from_units units =
    sort_by group_order (map directory_group (collect units [])) ++ map file_group units

-- A group of the given kind in front of the groups taken behind it.
abbrev pub take_group : HierarchyGroupKind → List ℕ → List (List ℕ) → List (List ℕ)
take_group directory unit_ids rest = unit_ids ∷ rest
take_group file unit_ids rest = []

-- `.take_while(kind == Directory).map(unit_ids)`
unfoldable pub directory_unit_ids : List HierarchyGroup → List (List ℕ)
directory_unit_ids [] = []
directory_unit_ids (group ∷ groups) =
    take_group group.kind group.unit_ids (directory_unit_ids groups)

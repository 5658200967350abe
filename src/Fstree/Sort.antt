-- ===== src/Fstree/Sort.antt =====
-- Sorting the tree: the source's order of steps, what lookups give afterwards, and the order itself.
use mathlib.Core.Option
use zipring.Prelude.{
  ℕ, ◌≡◌, refl, sym, ap, ◌∙◌, Bool, true, Option, List, [], ◌∷◌, inl, inr, arith, Option-cases,
  Bool-cases,
}
use zipring.Prelude.Bytes.{Bytes, eq_bytes, eq_bytes_iff, le_bytes, le_bytes_refl, le_bytes_total}
use zipring.Fstree.{
  FsTreeNode, dir, file, Children, nil, cons, name, find_named, find, insert_sorted, sort_by_name,
  reindex, recursive_sort, sort_children, map_recursive_sort,
}
use zipring.Fstree.Walk.{walk, walk-absent, walk-found, segments, find-eq-walk}

module _ {E : Type 0} where
  pub name-recursive_sort : (c : FsTreeNode E) → name (recursive_sort c) ≡ name c
  unfolding recursive_sort
  name-recursive_sort (dir n cs r i) = refl
  name-recursive_sort (file n e) = refl

  map-insert_sorted :
      (c : FsTreeNode E) (ds : Children E)
      → insert_sorted (recursive_sort c) (map_recursive_sort ds)
        ≡ map_recursive_sort (insert_sorted c ds)
  unfolding insert_sorted map_recursive_sort
  map-insert_sorted c nil = refl
  map-insert_sorted c (cons d ds) =
      rw (name-recursive_sort c, name-recursive_sort d, map-insert_sorted c ds)
        (elim (Bool-cases (le_bytes (name c) (name d))) [ inl h ↦ rw h | inr h ↦ rw h ])

  sort_children-eq-map : (cs : Children E) → sort_children cs ≡ map_recursive_sort (sort_by_name cs)
  unfolding recursive_sort sort_by_name map_recursive_sort
  sort_children-eq-map nil = refl
  sort_children-eq-map (cons c cs) =
      rw (sort_children-eq-map cs) (map-insert_sorted c (sort_by_name cs))

  -- Sorting a directory is the three steps of `recursive_sort` in their order: its children are
  -- sorted by name, each is sorted inside, and a recorded index is looked up anew.
  recursive_sort_lem :
      (n : Bytes) (cs : Children E) (r : Bool) (i : Option ℕ)
      → let sorted = map_recursive_sort (sort_by_name cs) in
        recursive_sort (dir n cs r i) ≡ dir n sorted r (reindex i sorted)
  unfolding recursive_sort
  recursive_sort_lem n cs r i = rw (sort_children-eq-map cs)

  find_named-insert_sorted :
      (s : Bytes) (c : FsTreeNode E) (ds : Children E)
      → find_named s (insert_sorted c ds) ≡ find_named s (cons c ds)
  unfolding find_named insert_sorted
  find_named-insert_sorted s c nil = refl
  find_named-insert_sorted s c (cons d ds) = ground (
    arith,
    find_named-insert_sorted s c ds,
    eq_bytes_iff (name c) s,
    eq_bytes_iff (name d) s,
    le_bytes_refl s,
  )

  pub find_named-sort_children :
      (s : Bytes) (cs : Children E)
      → find_named s (sort_children cs) ≡ Option.map recursive_sort (find_named s cs)
  unfolding find_named recursive_sort
  find_named-sort_children s nil = refl
  find_named-sort_children s (cons c cs) =
      find_named-insert_sorted s (recursive_sort c) (sort_children cs)
      ∙ rw (name-recursive_sort c, find_named-sort_children s cs)
          (elim (Bool-cases (eq_bytes (name c) s)) [ inl h ↦ rw h | inr h ↦ rw h ])

  walk-recursive_sort :
      (segs : List Bytes) (node : FsTreeNode E)
      → walk (recursive_sort node) segs ≡ Option.map recursive_sort (walk node segs)
  unfolding recursive_sort
  walk-recursive_sort [] node = unfold walk in refl
  walk-recursive_sort (s ∷ rest) (file n e) = unfold walk in refl
  walk-recursive_sort (s ∷ rest) (dir n cs r i) =
      let index = reindex i (sort_children cs) in
      elim (Option-cases (find_named s cs)) [
        | inl absent ↦
            walk-absent n (sort_children cs) r index s rest
              (find_named-sort_children s cs ∙ ap (Option.map recursive_sort) absent)
            ∙ ap (Option.map recursive_sort) (sym (walk-absent n cs r i s rest absent))
        | inr (c, found) ↦
            walk-found n (sort_children cs) r index s rest (recursive_sort c)
              (find_named-sort_children s cs ∙ ap (Option.map recursive_sort) found)
            ∙ walk-recursive_sort rest c
            ∙ ap (Option.map recursive_sort) (sym (walk-found n cs r i s rest c found))
      ]

  -- Sorting moves no path: `find` in the sorted tree gives what it gave before, sorted.
  pub find-recursive_sort :
      (node : FsTreeNode E) (path : Bytes)
      → find (recursive_sort node) path ≡ Option.map recursive_sort (find node path)
  find-recursive_sort node path =
      find-eq-walk (recursive_sort node) path
      ∙ walk-recursive_sort (segments path) node
      ∙ ap (Option.map recursive_sort) (sym (find-eq-walk node path))

  -- The names of a list of children ascend, and so inside each of them.
  abbrev pub BelowFirst : Bytes → Children E → Type 0
  BelowFirst n nil = Unit
  BelowFirst n (cons c cs) = le_bytes n (name c) ≡ true

  abbrev mutual
    pub IsSorted : FsTreeNode E → Type 0
    IsSorted (dir n cs r i) = IsSortedChildren cs
    IsSorted (file n e) = Unit

    pub IsSortedChildren : Children E → Type 0
    IsSortedChildren nil = Unit
    IsSortedChildren (cons c cs) = BelowFirst (name c) cs × IsSorted c × IsSortedChildren cs

  BelowFirst-insert_sorted :
      (c d : FsTreeNode E) (ds : Children E)
      → le_bytes (name d) (name c) ≡ true
      → BelowFirst (name d) ds
      → BelowFirst (name d) (insert_sorted c ds)
  unfolding insert_sorted
  BelowFirst-insert_sorted c d nil h k = h
  BelowFirst-insert_sorted c d (cons e es) h k = elim (Bool-cases (le_bytes (name c) (name e))) [
    | inl le ↦ rw le h
    | inr gt ↦ rw gt k
  ]

  insert_sorted-IsSortedChildren :
      (c : FsTreeNode E) (ds : Children E)
      → IsSorted c
      → IsSortedChildren ds
      → IsSortedChildren (insert_sorted c ds)
  unfolding insert_sorted
  insert_sorted-IsSortedChildren c nil h k = (tt, h, tt)
  insert_sorted-IsSortedChildren c (cons d ds) h k =
      elim (Bool-cases (le_bytes (name c) (name d))) [
        | inl le ↦ rw le (le, h, k)
        | inr gt ↦ rw gt (
          BelowFirst-insert_sorted c d ds (le_bytes_total _ _ gt) k.0,
          k.1,
          insert_sorted-IsSortedChildren c ds h k.2,
        )
      ]

  mutual
    unfolding recursive_sort

    recursive_sort-IsSorted_of : (node : FsTreeNode E) → IsSorted (recursive_sort node)
    recursive_sort-IsSorted_of (dir n cs r i) = sort_children-IsSortedChildren cs
    recursive_sort-IsSorted_of (file n e) = tt

    sort_children-IsSortedChildren : (cs : Children E) → IsSortedChildren (sort_children cs)
    sort_children-IsSortedChildren nil = tt
    sort_children-IsSortedChildren (cons c cs) =
        insert_sorted-IsSortedChildren (recursive_sort c) (sort_children cs)
          (recursive_sort-IsSorted_of c) (sort_children-IsSortedChildren cs)

  -- Throughout the sorted tree the children of a directory stand in ascending order of their names.
  pub recursive_sort-IsSorted : (node : FsTreeNode E) → IsSorted (recursive_sort node)
  recursive_sort-IsSorted node = recursive_sort-IsSorted_of node

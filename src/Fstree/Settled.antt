-- ===== src/Fstree/Settled.antt =====
-- After sorting, a directory's recorded index is that of the first child named `index.html`, and
-- `resolve` answers as if it looked that child up by name.
use mathlib.Core.Option
use mathlib.Core.Option.{some-injective}
use mathlib.Core.Path.{subst}
use zipring.Prelude.{
  ℕ, zero, suc, ◌≡◌, ◌≢◌, refl, sym, ap, ◌∙◌, Bool, true, false, not, ◌||◌, ◌&&◌, Option, none,
  some, List, [], ◌∷◌, inl, inr, arith, Option-cases, Bool-cases, if◌then◌else◌, ret,
}
use zipring.Prelude.Bytes.{Bytes, eq_bytes, le_bytes}
use zipring.Fstree.{
  FsTreeNode, dir, file, Children, nil, cons, Target, entry, listing, redirect, name, get,
  find_named, find, insert_sorted, ends_with, resolve, resolve_found, index_or_listing, index_entry,
  position, reindex, recursive_sort, sort_children, index_html,
}
use zipring.Fstree.Walk.{walk, walk-absent, walk-found, segments, find-eq-walk}
use zipring.Fstree.Index.{is_some, is_file_named, has_file, IsIndexed, AllIndexed}

module _ {E : Type 0} where
  get-position :
      (s : Bytes) (cs : Children E) (i : ℕ) → position s cs ≡ some i → get cs i ≡ find_named s cs
  unfolding position find_named
  get-position s nil i h = cc
  get-position s (cons c cs) zero h = ground (arith, h)
  get-position s (cons c cs) (suc i) h = ground (arith, get-position s cs i)

  position_of_absent : (s : Bytes) (cs : Children E) → find_named s cs ≡ none → position s cs ≡ none
  unfolding position find_named
  position_of_absent s nil h = refl
  position_of_absent s (cons c cs) h = ground (arith, position_of_absent s cs)

  has_file_of_found :
      (s n : Bytes) (e : E) (cs : Children E)
      → find_named s cs ≡ some (file n e)
      → has_file s cs ≡ true
  unfolding find_named
  has_file_of_found s n e nil h = cc
  has_file_of_found s n e (cons (dir m ds r i) cs) h = ground (arith, has_file_of_found s n e cs)
  has_file_of_found s n e (cons (file m x) cs) h = ground (arith, has_file_of_found s n e cs)

  position-has_file : (s : Bytes) (cs : Children E) → position s cs ≡ none → has_file s cs ≡ false
  unfolding position
  position-has_file s nil h = refl
  position-has_file s (cons (dir m ds r i) cs) h = ground (arith, position-has_file s cs)
  position-has_file s (cons (file m x) cs) h = ground (arith, position-has_file s cs)

  -- The index that a sorted directory should record.
  abbrev pub settled_index : Children E → Option ℕ
  settled_index cs = if has_file index_html cs then position index_html cs else none

  abbrev mutual
    pub IsSettled : FsTreeNode E → Type 0
    IsSettled (dir n cs r i) = (i ≡ settled_index cs) × AllSettled cs
    IsSettled (file n e) = Unit

    pub AllSettled : Children E → Type 0
    AllSettled nil = Unit
    AllSettled (cons c cs) = IsSettled c × AllSettled cs

  is_file_named-recursive_sort :
      (s : Bytes) (c : FsTreeNode E) → is_file_named s (recursive_sort c) ≡ is_file_named s c
  unfolding recursive_sort
  is_file_named-recursive_sort s (dir n cs r i) = refl
  is_file_named-recursive_sort s (file n e) = refl

  has_file-insert_sorted :
      (s : Bytes) (c : FsTreeNode E) (ds : Children E)
      → has_file s (insert_sorted c ds) ≡ (is_file_named s c || has_file s ds)
  unfolding insert_sorted
  has_file-insert_sorted s c nil = refl
  has_file-insert_sorted s c (cons d ds) = ground (arith, has_file-insert_sorted s c ds)

  has_file-sort_children :
      (s : Bytes) (cs : Children E) → has_file s (sort_children cs) ≡ has_file s cs
  unfolding recursive_sort
  has_file-sort_children s nil = refl
  has_file-sort_children s (cons c cs) =
      has_file-insert_sorted s (recursive_sort c) (sort_children cs)
      ∙ rw (is_file_named-recursive_sort s c, has_file-sort_children s cs)

  AllSettled-insert_sorted :
      (c : FsTreeNode E) (ds : Children E)
      → IsSettled c
      → AllSettled ds
      → AllSettled (insert_sorted c ds)
  unfolding insert_sorted
  AllSettled-insert_sorted c nil h k = (h, tt)
  AllSettled-insert_sorted c (cons d ds) h k = elim (Bool-cases (le_bytes (name c) (name d))) [
    | inl le ↦ rw le (h, k)
    | inr gt ↦ rw gt (k.0, AllSettled-insert_sorted c ds h k.1)
  ]

  reindex-settled :
      (i : Option ℕ) (cs ds : Children E)
      → is_some i ≡ has_file index_html cs
      → has_file index_html ds ≡ has_file index_html cs
      → reindex i ds ≡ settled_index ds
  reindex-settled none cs ds h k = rw (k, ← h)
  reindex-settled (some i) cs ds h k = rw (k, ← h)

  mutual
    unfolding recursive_sort

    recursive_sort-IsSettled_of :
        (node : FsTreeNode E) → IsIndexed node → IsSettled (recursive_sort node)
    recursive_sort-IsSettled_of (dir n cs r i) h = (
      reindex-settled i cs (sort_children cs) h.1 (has_file-sort_children index_html cs),
      sort_children-AllSettled cs h.2,
    )
    recursive_sort-IsSettled_of (file n e) h = tt

    sort_children-AllSettled : (cs : Children E) → AllIndexed cs → AllSettled (sort_children cs)
    sort_children-AllSettled nil h = tt
    sort_children-AllSettled (cons c cs) h =
        AllSettled-insert_sorted (recursive_sort c) (sort_children cs)
          (recursive_sort-IsSettled_of c h.0) (sort_children-AllSettled cs h.1)

  pub recursive_sort-IsSettled :
      (node : FsTreeNode E) → IsIndexed node → IsSettled (recursive_sort node)
  recursive_sort-IsSettled node = recursive_sort-IsSettled_of node

  AllSettled-found :
      (s : Bytes) (cs : Children E) (c : FsTreeNode E)
      → find_named s cs ≡ some c
      → AllSettled cs
      → IsSettled c
  unfolding find_named
  AllSettled-found s nil c h k = cc
  AllSettled-found s (cons d ds) c h k = elim (Bool-cases (eq_bytes (name d) s)) [
    | inl here ↦ subst IsSettled (some-injective d c (rw here at h)) k.0
    | inr there ↦ AllSettled-found s ds c (rw there at h) k.1
  ]

  walk-IsSettled :
      (segs : List Bytes) (node c : FsTreeNode E)
      → walk node segs ≡ some c
      → IsSettled node
      → IsSettled c
  unfolding walk
  walk-IsSettled [] node c h k = subst IsSettled (some-injective node c h) k
  walk-IsSettled (s ∷ rest) (file n e) c h k = cc
  walk-IsSettled (s ∷ rest) (dir n cs r i) c h k = elim (Option-cases (find_named s cs)) [
    | inl absent ↦ cc (h, walk-absent n cs r i s rest absent)
    | inr (d, found) ↦
        walk-IsSettled rest d c (sym (walk-found n cs r i s rest d found) ∙ h)
          (AllSettled-found s cs d found k.1)
  ]

  -- What a node is answered with: a file with its entry; a directory asked for without the slash
  -- with a redirect, unless it is the root; else with the file that is the first of its children
  -- named `index.html`, or with the listing where that is no file or missing.
  abbrev pub file_or : Option (FsTreeNode E) → Target E → Target E
  file_or none other = other
  file_or (some (file _ e)) other = entry e
  file_or (some (dir _ _ _ _)) other = other

  abbrev pub answer : Bytes → FsTreeNode E → Target E
  answer path (file _ e) = entry e
  answer path (dir n cs r _) =
      if not r && not (ends_with b'/' path)
      then redirect n
      else file_or (find_named index_html cs) (listing r cs)

  file_or_missing :
      (o : Option (FsTreeNode E)) (cs : Children E) (other : Target E)
      → find_named index_html cs ≡ o
      → has_file index_html cs ≡ false
      → file_or o other ≡ other
  file_or_missing none cs other f h = refl
  file_or_missing (some (dir n ds r i)) cs other f h = refl
  file_or_missing (some (file n e)) cs other f h = cc (has_file_of_found index_html n e cs f, h)

  index_entry-file_or :
      (o : Option (FsTreeNode E)) (other : Target E)
      → o ≢ none
      → index_entry o other ≡ ret (some (file_or o other))
  index_entry-file_or none other h = absurd (h refl)
  index_entry-file_or (some (file n e)) other h = refl
  index_entry-file_or (some (dir n ds r i)) other h = refl

  index_or_listing_lem :
      (i : Option ℕ) (cs : Children E) (r : Bool)
      → i ≡ settled_index cs
      → index_or_listing i cs r ≡ ret (some (file_or (find_named index_html cs) (listing r cs)))
  index_or_listing_lem none cs r h = elim (Bool-cases (has_file index_html cs)) [
    | inl there ↦ cc (there, position-has_file index_html cs (sym (rw there at h)))
    | inr absent ↦
        ap (λ t. ret (some t))
          (sym (file_or_missing (find_named index_html cs) cs (listing r cs) refl absent))
  ]
  index_or_listing_lem (some i) cs r h = elim (Bool-cases (has_file index_html cs)) [
    | inl there ↦
        let at : position index_html cs ≡ some i = sym (rw there at h) in
        rw (get-position index_html cs i at) (
          index_entry-file_or (find_named index_html cs) (listing r cs)
            (λ absent. cc (at, position_of_absent index_html cs absent)))
    | inr absent ↦ cc (rw absent at h)
  ]

  resolve_found_lem :
      (path : Bytes) (node : FsTreeNode E)
      → IsSettled node
      → resolve_found path (some node) ≡ ret (some (answer path node))
  resolve_found_lem path (file n e) h = refl
  resolve_found_lem path (dir n cs r i) h = elim (Bool-cases (not r && not (ends_with b'/' path))) [
    | inl away ↦ rw away
    | inr stay ↦ rw stay (index_or_listing_lem i cs r h.0)
  ]

  -- In a sorted tree `resolve` does not panic, and gives the answer of the node at the path.
  pub resolve_lem :
      (tree : FsTreeNode E) (path : Bytes)
      → IsSettled tree
      → resolve tree path ≡ ret (Option.map (answer path) (find tree path))
  unfolding resolve
  resolve_lem tree path h = elim (Option-cases (find tree path)) [
    | inl absent ↦ rw absent
    | inr (node, found) ↦ rw found (
        resolve_found_lem path node
          (walk-IsSettled (segments path) tree node (sym (find-eq-walk tree path) ∙ found) h))
  ]

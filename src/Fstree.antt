-- ===== src/Fstree.antt =====
-- src/fstree.rs: the directory tree of an archive. The entries are values of a type `E`, which is
-- `rc_zip::Entry` in the server.
pub mod Walk
pub mod Insert
pub mod Fresh
pub mod Sort
pub mod Index
pub mod Settled
pub mod Archive
mod Tests
use mathlib.Core.Option
use zipring.Prelude.{
  ℕ, zero, suc, ◌+◌, Bool, true, false, not, ◌&&◌, ◌||◌, Option, none, some, List, [], ◌∷◌, ◌==◌,
  ltb, length, take, drop, if◌then◌else◌, Run, panic, ret, ◌>>=◌, is_empty,
}
use zipring.Prelude.Bytes.{Bytes, codes, eq_bytes, le_bytes, find_byte}

-- `children` is a `Vec`, in order.
mutual
  pub data FsTreeNode (E : Type 0) : Type 0 where
    dir : Bytes → Children E → Bool → Option ℕ → FsTreeNode E
    file : Bytes → E → FsTreeNode E

  pub data Children (E : Type 0) : Type 0 where
    nil : Children E
    cons : FsTreeNode E → Children E → Children E

pub data Target (E : Type 0) : Type 0 where
  entry : E → Target E
  listing : Bool → Children E → Target E
  redirect : Bytes → Target E

abbrev pub index_html : Bytes
index_html = codes "index.html"

-- `path.ends_with(c)`
abbrev pub ends_with : ℕ → Bytes → Bool
ends_with c [] = false
ends_with c (x ∷ []) = x == c
ends_with c (x ∷ y ∷ p) = ends_with c (y ∷ p)

-- The first segment of a path and what is behind its separator, as `find` cuts it.
unfoldable pub cut : Bytes → Bytes × Bytes
cut path = elim (find_byte b'/' path) [
  | some sep ↦ (take sep path, drop (suc sep) path)
  | none ↦ (path, [])
]

module _ {E : Type 0} where
  abbrev pub root : FsTreeNode E
  root = dir [] nil true none

  abbrev pub name : FsTreeNode E → Bytes
  name (dir n _ _ _) = n
  name (file n _) = n

  -- `children.len()`, `children.push(c)` and `children.get(i)`
  abbrev pub len : Children E → ℕ
  len nil = 0
  len (cons c cs) = suc (len cs)

  abbrev pub push : Children E → FsTreeNode E → Children E
  push nil x = cons x nil
  push (cons c cs) x = cons c (push cs x)

  abbrev pub get : Children E → ℕ → Option (FsTreeNode E)
  get nil i = none
  get (cons c cs) zero = some c
  get (cons c cs) (suc i) = get cs i

  -- `matches!(ch, FsTreeNode::Dir { name, .. } if head.eq(name))`
  abbrev pub is_dir_named : Bytes → FsTreeNode E → Bool
  is_dir_named head (dir n _ _ _) = eq_bytes head n
  is_dir_named head (file _ _) = false

  -- The body of `insert_at` on the child that the path leads into: the first directory of that
  -- name, or a new one behind the others.
  unfoldable pub descend :
      Bytes → (FsTreeNode E → Run (FsTreeNode E)) → Children E → Run (Children E)
  descend head below nil = do child ← below (dir head nil false none); ret (cons child nil)
  descend head below (cons c cs) =
      if is_dir_named head c
      then (do child ← below c; ret (cons child cs))
      else (do rest ← descend head below cs; ret (cons c rest))

  -- `insert_at` on fuel. It recurs on what is behind the first separator, so the length of the
  -- path is fuel enough (`insert_at-ret`).
  unfoldable pub insert_onto : ℕ → E → Bytes → FsTreeNode E → Run (FsTreeNode E)
  insert_onto zero new_entry path node = panic
  insert_onto (suc fuel) new_entry path (file _ _) = panic
  insert_onto (suc fuel) new_entry path (dir n children is_root index_html_index) =
      elim (find_byte b'/' path) [
        | some separator ↦
            let head = take separator path in
            let tail = drop separator path in
            let below = insert_onto fuel new_entry (drop 1 tail) in
            do
              children' ← descend head (if ltb 1 (length tail) then below else ret) children
              ret (dir n children' is_root index_html_index)
        | none ↦
            let index =
              if eq_bytes path index_html then some (len children) else index_html_index in
            ret (dir n (push children (file path new_entry)) is_root index)
      ]

  unfoldable pub insert_at : FsTreeNode E → E → Bytes → Run (FsTreeNode E)
  insert_at self new_entry path = insert_onto (suc (length path)) new_entry path self

  -- `children.iter().find(|c| c.name() == head)`
  unfoldable pub find_named : Bytes → Children E → Option (FsTreeNode E)
  find_named head nil = none
  find_named head (cons c cs) = if eq_bytes (name c) head then some c else find_named head cs

  -- `match self { Dir { children, .. } => …, File { .. } => None }`, then `below` on the child found
  abbrev pub find_child :
      Bytes → (FsTreeNode E → Option (FsTreeNode E)) → FsTreeNode E → Option (FsTreeNode E)
  find_child head below (dir _ children _ _) = elim (find_named head children) [
    | none ↦ none
    | some c ↦ below c
  ]
  find_child head below (file _ _) = none

  -- `find` on fuel, which is the length of the path again (`find-eq-walk`).
  unfoldable pub find_in : ℕ → FsTreeNode E → Bytes → Option (FsTreeNode E)
  find_in zero self path = none
  find_in (suc fuel) self path =
      let head = (cut path).0 in
      let tail = (cut path).1 in
      let again = find_in fuel self tail in
      let below = λ (c : FsTreeNode E). find_in fuel c tail in
      if is_empty path || eq_bytes path (codes "/")
      then some self
      else if is_empty head
      then again
      else find_child head below self

  unfoldable pub find : FsTreeNode E → Bytes → Option (FsTreeNode E)
  find self path = find_in (suc (length path)) self path

  -- `&children[idx]`, and the test that it is a file; else the last arm
  abbrev pub index_entry : Option (FsTreeNode E) → Target E → Run (Option (Target E))
  index_entry none other = panic
  index_entry (some (file _ e)) other = ret (some (entry e))
  index_entry (some (dir _ _ _ _)) other = ret (some other)

  abbrev pub index_or_listing : Option ℕ → Children E → Bool → Run (Option (Target E))
  index_or_listing none children is_root = ret (some (listing is_root children))
  index_or_listing (some idx) children is_root =
      index_entry (get children idx) (listing is_root children)

  -- The `match` of `resolve` on what `find` gave.
  abbrev pub resolve_found : Bytes → Option (FsTreeNode E) → Run (Option (Target E))
  resolve_found path none = ret none
  resolve_found path (some (file _ e)) = ret (some (entry e))
  resolve_found path (some (dir n children is_root index_html_index)) =
      if not is_root && not (ends_with b'/' path)
      then ret (some (redirect n))
      else index_or_listing index_html_index children is_root

  unfoldable pub resolve : FsTreeNode E → Bytes → Run (Option (Target E))
  resolve self path = resolve_found path (find self path)

  -- One step of the stable `sort_by` on names: `c` goes in front of the first name not below its own.
  unfoldable pub insert_sorted : FsTreeNode E → Children E → Children E
  insert_sorted c nil = cons c nil
  insert_sorted c (cons d ds) =
      if le_bytes (name c) (name d) then cons c (cons d ds) else cons d (insert_sorted c ds)

  unfoldable pub sort_by_name : Children E → Children E
  sort_by_name nil = nil
  sort_by_name (cons c cs) = insert_sorted c (sort_by_name cs)

  -- `children.iter().position(|c| c.name() == wanted)`
  unfoldable pub position : Bytes → Children E → Option ℕ
  position wanted nil = none
  position wanted (cons c cs) =
      if eq_bytes (name c) wanted then some 0 else Option.map suc (position wanted cs)

  abbrev pub reindex : Option ℕ → Children E → Option ℕ
  reindex none children = none
  reindex (some _) children = position index_html children

  -- Each child is sorted inside on its way to its place; sorting inside keeps its name, so the
  -- order is that of sorting the children first and each inside then (`recursive_sort_lem`).
  unfoldable mutual
    pub recursive_sort : FsTreeNode E → FsTreeNode E
    recursive_sort (dir n children is_root index_html_index) =
        let sorted = sort_children children in
        dir n sorted is_root (reindex index_html_index sorted)
    recursive_sort (file n e) = file n e

    pub sort_children : Children E → Children E
    sort_children nil = nil
    sort_children (cons c cs) = insert_sorted (recursive_sort c) (sort_children cs)

  -- `for_each(FsTreeNode::recursive_sort)`
  unfoldable pub map_recursive_sort : Children E → Children E
  map_recursive_sort nil = nil
  map_recursive_sort (cons c cs) = cons (recursive_sort c) (map_recursive_sort cs)

-- The loop of `read_zip_tree` (src/main.rs): every entry is inserted, then the tree is sorted.
-- `insert` puts an entry at its own name.
module _ {E : Type 0} (name_of : E → Bytes) where
  unfoldable pub insert : FsTreeNode E → E → Run (FsTreeNode E)
  insert self new_entry = insert_at self new_entry (name_of new_entry)

  unfoldable pub insert_all : FsTreeNode E → List E → Run (FsTreeNode E)
  unfolding insert
  insert_all tree [] = ret tree
  insert_all tree (e ∷ es) = do tree' ← insert tree e; insert_all tree' es

  unfoldable pub read_zip_tree : List E → Run (FsTreeNode E)
  read_zip_tree entries = do tree ← insert_all root entries; ret (recursive_sort tree)

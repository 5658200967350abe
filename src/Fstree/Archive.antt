-- ===== src/Fstree/Archive.antt =====
-- The tree that the server builds from an archive's entries (`read_zip_tree` of src/main.rs), and
-- what it answers.
use mathlib.Core.Option
use mathlib.Core.Path.{fun_ext}
use zipring.Prelude.{
  ℕ, ◌≡◌, refl, sym, ap, ◌∙◌, Bool, true, Option, none, some, List, [], ◌∷◌, ◌++◌, ret, ◌>>=◌,
  >>=_assoc, ret-injective,
}
use zipring.Prelude.Bytes.{Bytes, split_on}
use zipring.Fstree.{
  FsTreeNode, dir, file, Children, nil, entry, find, root, resolve, insert, insert_all,
  read_zip_tree, recursive_sort,
}
use zipring.Fstree.Insert.{find-insert_at_of_file}
use zipring.Fstree.Fresh.{IsPlain, last_of, is_free, find-insert_at}
use zipring.Fstree.Sort.{find-recursive_sort, IsSorted, recursive_sort-IsSorted}
use zipring.Fstree.Index.{IsIndexed, Indexed, insert_at-Indexed}
use zipring.Fstree.Settled.{recursive_sort-IsSettled, answer, resolve_lem}

module _ {E : Type 0} (name_of : E → Bytes) where
  insert_all-Indexed :
      (es : List E) (n : Bytes) (cs : Children E) (r : Bool) (i : Option ℕ)
      → IsIndexed (dir n cs r i)
      → Indexed n r (insert_all name_of (dir n cs r i) es)
  unfolding insert_all
  insert_all-Indexed [] n cs r i h = record {
    children = cs;
    index = i;
    returned = refl;
    indexed = h;
  }
  insert_all-Indexed (e ∷ es) n cs r i h =
      let x = insert_at-Indexed e (name_of e) n cs r i h in
      let y = insert_all-Indexed es n x.children r x.index x.indexed in
      record {
        children = y.children;
        index = y.index;
        returned = rw x.returned y.returned;
        indexed = y.indexed;
      }

  insert_all-append :
      (es fs : List E) (tree : FsTreeNode E)
      → insert_all name_of tree (es ++ fs)
        ≡ (insert_all name_of tree es >>= λ t. insert_all name_of t fs)
  unfolding insert_all
  insert_all-append [] fs tree = refl
  insert_all-append (e ∷ es) fs tree =
      ap (λ k. insert name_of tree e >>= k) (fun_ext (insert_all-append es fs))
      ∙ sym (
          >>=_assoc (insert name_of tree e) (λ t. insert_all name_of t es)
            (λ t. insert_all name_of t fs))

  -- A file found stays found through further insertions.
  insert_all-keeps :
      (es : List E) (n : Bytes) (cs : Children E) (r : Bool) (i : Option ℕ) (q m : Bytes) (x : E)
      → IsIndexed (dir n cs r i)
      → find (dir n cs r i) q ≡ some (file m x)
      → (new : FsTreeNode E) × (insert_all name_of (dir n cs r i) es ≡ ret new)
        × (find new q ≡ some (file m x))
  unfolding insert_all
  insert_all-keeps [] n cs r i q m x h f = (dir n cs r i, refl, f)
  insert_all-keeps (e ∷ es) n cs r i q m x h f =
      let y = insert_at-Indexed e (name_of e) n cs r i h in
      let (t, done, f') = find-insert_at_of_file e (name_of e) n cs r i q m x f in
      let same : t ≡ dir n y.children r y.index =
        ret-injective t (dir n y.children r y.index) (sym done ∙ y.returned) in
      let (new, rest, f'') =
        insert_all-keeps es n y.children r y.index q m x y.indexed (rw same at f') in
      (new, rw y.returned rest, f'')

  -- For any list of entries the tree is built without a panic. It is sorted, and no request path
  -- makes `resolve` panic: the answer is that of the node that `find` gives.
  pub resolve-read_zip_tree :
      (entries : List E) (path : Bytes)
      → (tree : FsTreeNode E) × (read_zip_tree name_of entries ≡ ret tree)
        × IsSorted tree
        × (resolve tree path ≡ ret (Option.map (answer path) (find tree path)))
  unfolding read_zip_tree
  resolve-read_zip_tree entries path =
      let x = insert_all-Indexed entries [] nil true none (tt, refl, tt) in
      let built : FsTreeNode E = dir [] x.children true x.index in
      (
        recursive_sort built,
        rw x.returned,
        recursive_sort-IsSorted built,
        resolve_lem (recursive_sort built) path (recursive_sort-IsSettled built x.indexed),
      )

  -- The tree of an archive answers the path of an entry with that entry, whatever entries come
  -- after it, if the path has no empty segment and the entries before it left the path free: no
  -- file stands on the way to it, and nothing at the path itself.
  pub resolve-read_zip_tree_of_entry :
      (before after : List E) (e : E) (t : FsTreeNode E)
      → IsPlain (name_of e)
      → insert_all name_of root before ≡ ret t
      → is_free t (split_on b'/' (name_of e)) ≡ true
      → (tree : FsTreeNode E) × (read_zip_tree name_of (before ++ e ∷ after) ≡ ret tree)
        × (resolve tree (name_of e) ≡ ret (some (entry e)))
  unfolding read_zip_tree insert_all recursive_sort
  resolve-read_zip_tree_of_entry before after e t plain done free =
      let path = name_of e in
      let x = insert_all-Indexed before [] nil true none (tt, refl, tt) in
      let built : FsTreeNode E = dir [] x.children true x.index in
      let same : t ≡ built = ret-injective t built (sym done ∙ x.returned) in
      let (t', in', found) =
        find-insert_at e path [] x.children true x.index plain (rw same at free) in
      let y = insert_at-Indexed e path [] x.children true x.index x.indexed in
      let mid : FsTreeNode E = dir [] y.children true y.index in
      let same' : t' ≡ mid = ret-injective t' mid (sym in' ∙ y.returned) in
      let (new, rest, found') =
        insert_all-keeps after [] y.children true y.index path _ e y.indexed (rw same' at found) in
      let z = insert_all-Indexed after [] y.children true y.index y.indexed in
      let last : FsTreeNode E = dir [] z.children true z.index in
      let same'' : new ≡ last = ret-injective new last (sym rest ∙ z.returned) in
      let n : Bytes = last_of (split_on b'/' path) in
      let at : find last path ≡ some (file n e) = rw same'' at found' in
      (
        recursive_sort last,
        rw (insert_all-append before (e ∷ after) root, x.returned, y.returned, z.returned),
        resolve_lem (recursive_sort last) path (recursive_sort-IsSettled last z.indexed)
            ∙ ap (λ o. ret (Option.map (answer path) o))
                (find-recursive_sort last path ∙ ap (Option.map recursive_sort) at),
      )

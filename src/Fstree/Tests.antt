-- ===== src/Fstree/Tests.antt =====
-- Runs of the tree, after the tests of src/fstree.rs, and the theorems at concrete archives.
use mathlib.Core.Option
use Prim.Native.String.{String}
use zipring.Prelude.{ℕ, ◌≡◌, refl, true, false, Option, none, some, List, [], ◌∷◌, Run, ret, ◌>>=◌}
use zipring.Prelude.Bytes.{Bytes, codes, eq_bytes, le_bytes, find_byte, split_on}
use zipring.Fstree.{
  FsTreeNode, dir, file, nil, cons, Target, entry, listing, redirect, root, find, find_in, cut,
  find_named, resolve, descend, insert_onto, insert_at, insert_all, read_zip_tree, recursive_sort,
  insert_sorted, position,
}
use zipring.Fstree.Insert.{find-insert_at_of_file}
use zipring.Fstree.Walk.{walk, segments, find-eq-walk}
use zipring.Fstree.Fresh.{IsPlain, last_of, is_free, find-insert_at}
use zipring.Fstree.Sort.{find-recursive_sort, IsSorted, recursive_sort-IsSorted}
use zipring.Fstree.Settled.{answer}
use zipring.Fstree.Archive.{resolve-read_zip_tree, resolve-read_zip_tree_of_entry}

abbrev Item : Type 0
Item = Bytes × ℕ

abbrev item : String → ℕ → Item
item s n = (codes s, n)

abbrev items : List Item
items = item "z.txt" 1 ∷ item "a/index.html" 2 ∷ item "a/b.txt" 3 ∷ []

abbrev name_of : Item → Bytes
name_of i = i.0

tree : Run (FsTreeNode Item)
unfolding read_zip_tree insert_all insert_at insert_onto descend find_byte eq_bytes recursive_sort
    insert_sorted le_bytes position
tree = read_zip_tree name_of items

ask : String → Run (Option (Target Item))
unfolding tree resolve find find_in cut find_byte find_named eq_bytes
ask path = tree >>= λ t. resolve t (codes path)

runs :
    (ask "/a/b.txt" ≡ ret (some (entry (item "a/b.txt" 3))))
    × (ask "/a/" ≡ ret (some (entry (item "a/index.html" 2))))
    × (ask "/a" ≡ ret (some (redirect (codes "a"))))
    × (ask "/nope" ≡ ret none)
unfolding ask
runs = (refl, refl, refl, refl)

-- A directory of the same name hides `index.html` once the tree is sorted.
hidden_index :
    (read_zip_tree name_of (item "index.html/x" 1 ∷ item "index.html" 2 ∷ []) >>= λ t. resolve t [])
    ≡ ret (
        some (
          listing true (
            cons
              (dir
                (codes "index.html")
                (cons (file (codes "x") (item "index.html/x" 1)) nil)
                false
                none)
              (cons (file (codes "index.html") (item "index.html" 2)) nil))))
unfolding ask
hidden_index = refl

abbrev small : FsTreeNode Item
small = dir [] (cons (file (codes "z") (item "z" 1)) nil) true none

find-insert_at_of_file_example :
    (new : FsTreeNode Item) × (insert_at small (item "a/b" 2) (codes "a/b") ≡ ret new)
    × (find new (codes "/z") ≡ some (file (codes "z") (item "z" 1)))
unfolding find find_in cut find_byte find_named eq_bytes
find-insert_at_of_file_example =
    find-insert_at_of_file (item "a/b" 2) (codes "a/b") []
      (cons (file (codes "z") (item "z" 1)) nil) true none (codes "/z") (codes "z") (item "z" 1)
      refl

ab-IsPlain : IsPlain (codes "a/b")
unfolding split_on
ab-IsPlain = (λ e. cc, (λ e. cc, tt))

ab_free : is_free small (split_on b'/' (codes "a/b")) ≡ true
unfolding split_on is_free find_named eq_bytes
ab_free = refl

find-insert_at_example :
    (new : FsTreeNode Item) × (insert_at small (item "a/b" 2) (codes "a/b") ≡ ret new)
    × (find new (codes "a/b") ≡ some (file (last_of (split_on b'/' (codes "a/b"))) (item "a/b" 2)))
find-insert_at_example =
    find-insert_at (item "a/b" 2) (codes "a/b") [] (cons (file (codes "z") (item "z" 1)) nil) true
      none ab-IsPlain ab_free

find-eq-walk_example : find small (codes "//z") ≡ walk small (segments (codes "//z"))
find-eq-walk_example = find-eq-walk small (codes "//z")

find-recursive_sort_example :
    find (recursive_sort small) (codes "/z") ≡ Option.map recursive_sort (find small (codes "/z"))
find-recursive_sort_example = find-recursive_sort small (codes "/z")

recursive_sort-IsSorted_example : IsSorted (recursive_sort small)
recursive_sort-IsSorted_example = recursive_sort-IsSorted small

resolve-read_zip_tree_example :
    (tree : FsTreeNode Item) × (read_zip_tree name_of items ≡ ret tree)
    × IsSorted tree
    × (resolve tree (codes "/a/")
        ≡ ret (Option.map (answer (codes "/a/")) (find tree (codes "/a/"))))
resolve-read_zip_tree_example = resolve-read_zip_tree name_of items (codes "/a/")

before_done : insert_all name_of root (item "z" 1 ∷ []) ≡ ret small
unfolding insert_all insert_at insert_onto find_byte eq_bytes
before_done = refl

resolve-read_zip_tree_of_entry_example :
    (tree : FsTreeNode Item) × (read_zip_tree name_of
        (item "z" 1 ∷ item "a/b" 2 ∷ item "a/b" 3 ∷ [])
      ≡ ret tree)
    × (resolve tree (codes "a/b") ≡ ret (some (entry (item "a/b" 2))))
resolve-read_zip_tree_of_entry_example =
    resolve-read_zip_tree_of_entry name_of (item "z" 1 ∷ []) (item "a/b" 3 ∷ []) (item "a/b" 2)
      small ab-IsPlain before_done ab_free

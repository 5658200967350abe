-- ===== src/Fstree/Walk.antt =====
-- `find` against an independent description: a walk along the segments of the path.
use mathlib.Core.Path.{fun_ext}
use zipring.Prelude.{
  ℕ, zero, suc, ◌<◌, ◌≡◌, ◌≢◌, refl, sym, ap, Bool, Option, none, some, List, [], ◌∷◌, inl, inr,
  arith, Option-cases, Bool-cases, length, take, drop, length-drop, if◌then◌else◌, is_empty,
}
use zipring.Prelude.Bytes.{
  Bytes, codes, eq_bytes, eq_bytes_iff, find_byte, find_byte-lt-length, split_on,
  split_on-find_byte-none, split_on-find_byte-some,
}
use zipring.Fstree.{FsTreeNode, dir, Children, find_named, find_child, cut, find_in, find}

abbrev pub keep : Bytes → List Bytes → List Bytes
keep p ps = if is_empty p then ps else p ∷ ps

abbrev pub drop_empty : List Bytes → List Bytes
drop_empty [] = []
drop_empty (p ∷ ps) = keep p (drop_empty ps)

-- The pieces of a path between its separators that are not empty.
unfoldable pub segments : Bytes → List Bytes
segments path = drop_empty (split_on b'/' path)

unfoldable pub walk : {E : Type 0} → FsTreeNode E → List Bytes → Option (FsTreeNode E)
walk node [] = some node
walk node (s ∷ rest) = find_child s (λ c. walk c rest) node

segments_nil : segments [] ≡ []
unfolding segments split_on
segments_nil = refl

segments_slash : segments (codes "/") ≡ []
unfolding segments split_on
segments_slash = refl

cut-none : (path : Bytes) → find_byte b'/' path ≡ none → cut path ≡ (path, [])
unfolding cut
cut-none path h = ground arith

cut-some :
    (path : Bytes) (i : ℕ)
    → find_byte b'/' path ≡ some i
    → cut path ≡ (take i path, drop (suc i) path)
unfolding cut
cut-some path i h = ground arith

pub segments-cut : (path : Bytes) → segments path ≡ keep (cut path).0 (segments (cut path).1)
segments-cut path = elim (Option-cases (find_byte b'/' path)) [
  | inl absent ↦ rw (cut-none path absent) (
      unfold segments in
      rw (split_on-find_byte-none b'/' path absent) (sym (ap (keep path) segments_nil)))
  | inr (i, at) ↦
      rw (cut-some path i at) (unfold segments in rw (split_on-find_byte-some b'/' path i at))
]

length-cut : (path : Bytes) → path ≢ [] → length (cut path).1 < length path
length-cut [] ne = absurd (ne refl)
length-cut (x ∷ path) ne = elim (Option-cases (find_byte b'/' (x ∷ path))) [
  | inl absent ↦ rw (cut-none _ absent) (omega arith)
  | inr (i, at) ↦
      rw (cut-some _ i at)
        (omega (arith, length-drop {0} i path, find_byte-lt-length b'/' (x ∷ path) i at))
]

-- One step of `find`, where `below` is already known to walk along `rest`.
walk-keep :
    {E : Type 0} (head : Bytes) (rest : List Bytes) (node : FsTreeNode E)
    (below : FsTreeNode E → Option (FsTreeNode E))
    → below ≡ (λ c. walk c rest)
    → (if is_empty head then below node else find_child head below node)
      ≡ walk node (keep head rest)
unfolding walk
walk-keep [] rest node below e = ap (λ f. f node) e
walk-keep (x ∷ head) rest node below e = ap (λ f. find_child (x ∷ head) f node) e

-- `find` with any fuel above the length of the path gives the node that the segments lead to.
find_in-eq-walk :
    {E : Type 0} (fuel : ℕ) (node : FsTreeNode E) (path : Bytes)
    → length path < fuel
    → find_in fuel node path ≡ walk node (segments path)
unfolding find_in walk
find_in-eq-walk zero node path h = elim h [ ]
find_in-eq-walk (suc fuel) node [] h = rw segments_nil
find_in-eq-walk {E} (suc fuel) node (x ∷ xs) h =
    let path = x ∷ xs in
    let shorter : length (cut path).1 < fuel = omega (arith, length-cut path (λ e. cc)) in
    let ih = λ (c : FsTreeNode E). find_in-eq-walk fuel c (cut path).1 shorter in
    elim (Bool-cases (eq_bytes path (codes "/"))) [
      | inl slash ↦ rw slash (rw ((eq_bytes_iff _ _).0 slash, segments_slash))
      | inr more ↦
          rw (more, segments-cut path)
            (walk-keep (cut path).0 (segments (cut path).1) node (λ c. find_in fuel c (cut path).1)
              (fun_ext ih))
    ]

-- `find`, which cuts the path at its separators one by one, is a walk along the segments of the path
-- that are not empty, from any node.
pub find-eq-walk :
    {E : Type 0} (node : FsTreeNode E) (path : Bytes) → find node path ≡ walk node (segments path)
unfolding find
find-eq-walk node path = find_in-eq-walk _ node path (omega arith)

module _ {E : Type 0} (m : Bytes) (cs : Children E) (r : Bool) (i : Option ℕ) (s : Bytes)
    (rest : List Bytes) where
  pub walk-absent : find_named s cs ≡ none → walk (dir m cs r i) (s ∷ rest) ≡ none
  unfolding walk
  walk-absent h = ground arith

  pub walk-found :
      (c : FsTreeNode E) → find_named s cs ≡ some c → walk (dir m cs r i) (s ∷ rest) ≡ walk c rest
  unfolding walk
  walk-found c h = ground arith

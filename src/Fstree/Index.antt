-- ===== src/Fstree/Index.antt =====
-- The recorded index of `index.html`: it always names such a child, so `resolve` does not panic.
use mathlib.Core.Option.{some-injective}
use zipring.Prelude.{
  ℕ, zero, suc, ◌≡◌, refl, sym, ap, ◌∙◌, Bool, true, false, ◌||◌, Option, none, some, [], ◌∷◌, inl,
  inr, arith, Option-cases, Bool-cases, if◌then◌else◌, ◌<◌, length, length-drop, take, drop, Run,
  ret, ◌>>=◌,
}
use zipring.Prelude.Bytes.{Bytes, eq_bytes, eq_bytes_iff, find_byte, find_byte-lt-length}
use zipring.Fstree.{
  FsTreeNode, dir, file, Children, nil, cons, name, len, push, get, index_html, descend,
  insert_onto, insert_at,
}
use zipring.Fstree.Insert.{enter, insert_onto-file, insert_onto-dir}

abbrev pub is_some : Option ℕ → Bool
is_some none = false
is_some (some i) = true

module _ {E : Type 0} where
  -- Some file of the list has the name.
  abbrev pub is_file_named : Bytes → FsTreeNode E → Bool
  is_file_named s (dir _ _ _ _) = false
  is_file_named s (file n _) = eq_bytes n s

  abbrev pub has_file : Bytes → Children E → Bool
  has_file s nil = false
  has_file s (cons c cs) = is_file_named s c || has_file s cs

  -- The index is that of a child with the name `index.html`.
  abbrev pub PointsAt : Option ℕ → Children E → Type 0
  PointsAt none cs = Unit
  PointsAt (some i) cs = (c : FsTreeNode E) × (get cs i ≡ some c) × (name c ≡ index_html)

  -- In every directory an index is recorded exactly when a file `index.html` is there, and it is
  -- then the index of a child of that name.
  abbrev mutual
    pub IsIndexed : FsTreeNode E → Type 0
    IsIndexed (dir n cs r i) = PointsAt i cs × (is_some i ≡ has_file index_html cs) × AllIndexed cs
    IsIndexed (file n e) = Unit

    pub AllIndexed : Children E → Type 0
    AllIndexed nil = Unit
    AllIndexed (cons c cs) = IsIndexed c × AllIndexed cs

  get-push : (cs : Children E) (x : FsTreeNode E) → get (push cs x) (len cs) ≡ some x
  get-push nil x = refl
  get-push (cons c cs) x = get-push cs x

  get-push_old :
      (cs : Children E) (x c : FsTreeNode E) (i : ℕ)
      → get cs i ≡ some c
      → get (push cs x) i ≡ some c
  get-push_old nil x c i h = cc
  get-push_old (cons d ds) x c zero h = h
  get-push_old (cons d ds) x c (suc i) h = get-push_old ds x c i h

  has_file-push :
      (s : Bytes) (cs : Children E) (x : FsTreeNode E)
      → has_file s (push cs x) ≡ (has_file s cs || is_file_named s x)
  has_file-push s nil x = ground arith
  has_file-push s (cons c cs) x = ground (arith, has_file-push s cs x)

  AllIndexed-push :
      (cs : Children E) (x : FsTreeNode E) → AllIndexed cs → IsIndexed x → AllIndexed (push cs x)
  AllIndexed-push nil x h k = (k, tt)
  AllIndexed-push (cons c cs) x h k = (h.0, AllIndexed-push cs x h.1 k)

  push-IsIndexed :
      (path : Bytes) (e : E) (n : Bytes) (cs : Children E) (r : Bool) (i : Option ℕ)
      → IsIndexed (dir n cs r i)
      → IsIndexed
          (dir n (push cs (file path e)) r (if eq_bytes path index_html then some (len cs) else i))
  push-IsIndexed path e n cs r i h = elim (Bool-cases (eq_bytes path index_html)) [
    | inl same ↦ rw same (
      (file path e, get-push cs (file path e), (eq_bytes_iff path index_html).0 same),
      rw (has_file-push index_html cs (file path e)) (ground arith),
      AllIndexed-push cs (file path e) h.2 tt,
    )
    | inr other ↦ rw other (
      PointsAt-push i h.0,
      rw (has_file-push index_html cs (file path e)) (ground arith),
      AllIndexed-push cs (file path e) h.2 tt,
    )
  ]
    where
      PointsAt-push : (i : Option ℕ) → PointsAt i cs → PointsAt i (push cs (file path e))
      PointsAt-push none p = tt
      PointsAt-push (some i) (c, at, named) = (c, get-push_old cs (file path e) c i at, named)

  -- What an insertion owes at a directory: it returns one with the same name and the invariant.
  pub record Indexed (n : Bytes) (r : Bool) (run : Run (FsTreeNode E)) : Type 0 where
    pub children : Children E
    pub index : Option ℕ
    pub returned : run ≡ ret (dir n children r index)
    pub indexed : IsIndexed (dir n children r index)

  -- The children after a descent: the same names at the same indices, and the same files.
  record Follows (cs : Children E) (run : Run (Children E)) : Type 0 where
    children : Children E
    returned : run ≡ ret children
    points : (i : Option ℕ) → PointsAt i cs → PointsAt i children
    files : has_file index_html children ≡ has_file index_html cs
    indexed : AllIndexed children

  PointsAt-head :
      (c c' : FsTreeNode E) (cs : Children E) (i : Option ℕ)
      → name c' ≡ name c
      → PointsAt i (cons c cs)
      → PointsAt i (cons c' cs)
  PointsAt-head c c' cs none e p = tt
  PointsAt-head c c' cs (some zero) e (d, at, named) =
      (c', refl, e ∙ ap name (some-injective c d at) ∙ named)
  PointsAt-head c c' cs (some (suc i)) e p = p

  PointsAt-tail :
      (c : FsTreeNode E) (cs cs' : Children E) (i : Option ℕ)
      → ((i : Option ℕ) → PointsAt i cs → PointsAt i cs')
      → PointsAt i (cons c cs)
      → PointsAt i (cons c cs')
  PointsAt-tail c cs cs' none f p = tt
  PointsAt-tail c cs cs' (some zero) f p = p
  PointsAt-tail c cs cs' (some (suc i)) f p = f (some i) p

  Follows-tail :
      (c : FsTreeNode E) (cs : Children E) (run : Run (Children E))
      → IsIndexed c
      → Follows cs run
      → Follows (cons c cs) (run >>= λ rest. ret (cons c rest))
  Follows-tail c cs run h f = record {
    children = cons c f.children;
    returned = rw f.returned;
    points = λ i. PointsAt-tail c cs f.children i f.points;
    files = ap (λ b. is_file_named index_html c || b) f.files;
    indexed = (h, f.indexed);
  }

  Follows-head :
      (n : Bytes) (ds : Children E) (q : Bool) (j : Option ℕ) (cs : Children E)
      (run : Run (FsTreeNode E))
      → AllIndexed cs
      → Indexed n q run
      → Follows (cons (dir n ds q j) cs) (run >>= λ child. ret (cons child cs))
  Follows-head n ds q j cs run h x = record {
    children = cons (dir n x.children q x.index) cs;
    returned = rw x.returned;
    points = λ i. PointsAt-head (dir n ds q j) (dir n x.children q x.index) cs i refl;
    files = refl;
    indexed = (x.indexed, h);
  }

  PointsAt-nil : (x : FsTreeNode E) (i : Option ℕ) → PointsAt i nil → PointsAt i (cons x nil)
  PointsAt-nil x none p = tt
  PointsAt-nil x (some i) (c, at, named) = cc

  descend-Follows :
      (head : Bytes) (below : FsTreeNode E → Run (FsTreeNode E))
      → ((n : Bytes) (cs : Children E) (r : Bool) (i : Option ℕ)
          → IsIndexed (dir n cs r i)
          → Indexed n r (below (dir n cs r i)))
      → (cs : Children E) → AllIndexed cs
      → Follows cs (descend head below cs)
  unfolding descend
  descend-Follows head below ok nil h =
      let x = ok head nil false none (tt, refl, tt) in
      record {
        children = cons (dir head x.children false x.index) nil;
        returned = rw x.returned;
        points = PointsAt-nil (dir head x.children false x.index);
        files = refl;
        indexed = (x.indexed, tt);
      }
  descend-Follows head below ok (cons (file n e) cs) h =
      Follows-tail (file n e) cs _ tt (descend-Follows head below ok cs h.1)
  descend-Follows head below ok (cons (dir n ds q j) cs) h = elim (Bool-cases (eq_bytes head n)) [
    | inl here ↦ rw here (Follows-head n ds q j cs _ h.1 (ok n ds q j h.0))
    | inr there ↦
        rw there (Follows-tail (dir n ds q j) cs _ h.0 (descend-Follows head below ok cs h.1))
  ]

  enter-Indexed :
      (fuel : ℕ) (e : E) (rest n : Bytes) (cs : Children E) (r : Bool) (i : Option ℕ)
      → IsIndexed (dir n cs r i)
      → Indexed n r (insert_onto fuel e rest (dir n cs r i))
      → Indexed n r (enter fuel e rest (dir n cs r i))
  enter-Indexed fuel e [] n cs r i h x = record {
    children = cs;
    index = i;
    returned = refl;
    indexed = h;
  }
  enter-Indexed fuel e (b ∷ rest) n cs r i h x = x

  pub insert_onto-Indexed :
      (fuel : ℕ) (e : E) (path n : Bytes) (cs : Children E) (r : Bool) (i : Option ℕ)
      → length path < fuel
      → IsIndexed (dir n cs r i)
      → Indexed n r (insert_onto fuel e path (dir n cs r i))
  insert_onto-Indexed zero e path n cs r i l h = elim l [ ]
  insert_onto-Indexed (suc fuel) e path n cs r i l h = elim (Option-cases (find_byte b'/' path)) [
    | inl absent ↦ record {
      children = push cs (file path e);
      index = if eq_bytes path index_html then some (len cs) else i;
      returned = insert_onto-file fuel e path n cs r i absent;
      indexed = push-IsIndexed path e n cs r i h;
    }
    | inr (sep, at) ↦
        let rest = drop (suc sep) path in
        let shorter : length rest < fuel =
          omega (arith, length-drop {0} (suc sep) path, find_byte-lt-length b'/' path sep at) in
        let f =
          descend-Follows (take sep path) (enter fuel e rest)
            (λ m ds q j k.
              enter-Indexed fuel e rest m ds q j k
                (insert_onto-Indexed fuel e rest m ds q j shorter k))
            cs h.2 in
        record {
          children = f.children;
          index = i;
          returned = rw (insert_onto-dir fuel e path n cs r i sep at, f.returned);
          indexed = (f.points i h.0, h.1 ∙ sym f.files, f.indexed);
        }
  ]

  pub insert_at-Indexed :
      (e : E) (path n : Bytes) (cs : Children E) (r : Bool) (i : Option ℕ)
      → IsIndexed (dir n cs r i)
      → Indexed n r (insert_at (dir n cs r i) e path)
  unfolding insert_at
  insert_at-Indexed e path n cs r i h = insert_onto-Indexed _ e path n cs r i (omega arith) h

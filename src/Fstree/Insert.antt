-- ===== src/Fstree/Insert.antt =====
-- What an insertion does to the lookups: the new file is found, and no other file is lost.
use mathlib.Core.Option.{some-injective}
use mathlib.Core.Path.{subst}
use zipring.Prelude.{
  ℕ, zero, suc, ◌<◌, ◌≡◌, refl, sym, ◌∙◌, Bool, false, Option, none, some, List, [], ◌∷◌, inl, inr,
  arith, Option-cases, Bool-cases, length, take, drop, length-drop, if◌then◌else◌, is_empty, ltb,
  Run, ret, ◌>>=◌, lt→ltb,
}
use zipring.Prelude.Bytes.{Bytes, eq_bytes, find_byte, find_byte-lt-length}
use zipring.Fstree.{
  FsTreeNode, dir, file, Children, nil, cons, name, len, push, index_html, descend, insert_onto,
  insert_at, find_named, find,
}
use zipring.Fstree.Walk.{walk, walk-absent, walk-found, segments, find-eq-walk}

module _ {E : Type 0} where
  -- What `insert_at` does to the child that the path leads into.
  abbrev pub enter : ℕ → E → Bytes → FsTreeNode E → Run (FsTreeNode E)
  enter fuel e rest = if is_empty rest then ret else insert_onto fuel e rest

  below-enter :
      (fuel : ℕ) (e : E) (path : Bytes) (i : ℕ)
      → i < length path
      → (if ltb 1 (length (drop i path)) then insert_onto fuel e (drop 1 (drop i path)) else ret)
        ≡ enter fuel e (drop (suc i) path)
  below-enter fuel e [] i h = elim h [ ]
  below-enter fuel e (x ∷ []) zero h = refl
  below-enter fuel e (x ∷ y ∷ p) zero h = rw (lt→ltb 1 (suc (suc (length p))) (omega arith))
  below-enter fuel e (x ∷ p) (suc i) h = below-enter fuel e p i (omega arith)

  pub insert_onto-file :
      (fuel : ℕ) (e : E) (path n : Bytes) (cs : Children E) (r : Bool) (i : Option ℕ)
      → find_byte b'/' path ≡ none
      → insert_onto (suc fuel) e path (dir n cs r i)
        ≡ ret (
            dir n (push cs (file path e)) r (if eq_bytes path index_html then some (len cs) else i))
  unfolding insert_onto
  insert_onto-file fuel e path n cs r i h = ground arith

  pub insert_onto-dir :
      (fuel : ℕ) (e : E) (path n : Bytes) (cs : Children E) (r : Bool) (i : Option ℕ) (sep : ℕ)
      → find_byte b'/' path ≡ some sep
      → insert_onto (suc fuel) e path (dir n cs r i) ≡ (
          descend (take sep path) (enter fuel e (drop (suc sep) path)) cs >>= λ cs'.
          ret (dir n cs' r i))
  unfolding insert_onto
  insert_onto-dir fuel e path n cs r i sep h =
      rw (← below-enter fuel e path sep (find_byte-lt-length b'/' path sep h)) (ground (arith, h))

  -- `new` keeps the name of `old`, and every file that a walk finds in `old` is found there.
  pub record Grows (old new : FsTreeNode E) : Type 0 where
    pub name_kept : name new ≡ name old
    pub files_kept :
        (segs : List Bytes) (n : Bytes) (e : E)
        → walk old segs ≡ some (file n e)
        → walk new segs ≡ some (file n e)

  Grows-refl : (c : FsTreeNode E) → Grows c c
  Grows-refl c = record { name_kept = refl; files_kept = λ segs n e h. h }

  -- The same of a list of children: the first child of each name stays first, and grows.
  abbrev GrowsChildren : Children E → Children E → Type 0
  GrowsChildren cs cs' =
      (s : Bytes) (c : FsTreeNode E)
      → find_named s cs ≡ some c
      → (c' : FsTreeNode E) × (find_named s cs' ≡ some c') × Grows c c'

  GrowsChildren-push : (cs : Children E) (x : FsTreeNode E) → GrowsChildren cs (push cs x)
  unfolding find_named
  GrowsChildren-push nil x s c h = cc
  GrowsChildren-push (cons d ds) x s c h = elim (Bool-cases (eq_bytes (name d) s)) [
    | inl same ↦ rw same (c, rw same at h, Grows-refl c)
    | inr other ↦ rw other (GrowsChildren-push ds x s c (rw other at h))
  ]

  GrowsChildren-cons_head :
      (c c' : FsTreeNode E) (cs : Children E) → Grows c c' → GrowsChildren (cons c cs) (cons c' cs)
  unfolding find_named
  GrowsChildren-cons_head c c' cs g s d h =
      rw g.name_kept (elim (Bool-cases (eq_bytes (name c) s)) [
        | inl same ↦
            rw same (c', refl, subst (λ x. Grows x c') (some-injective c d (rw same at h)) g)
        | inr other ↦ rw other (d, rw other at h, Grows-refl d)
      ])

  GrowsChildren-cons_tail :
      (c : FsTreeNode E) (cs cs' : Children E)
      → GrowsChildren cs cs'
      → GrowsChildren (cons c cs) (cons c cs')
  unfolding find_named
  GrowsChildren-cons_tail c cs cs' g s d h = elim (Bool-cases (eq_bytes (name c) s)) [
    | inl same ↦ rw same (d, rw same at h, Grows-refl d)
    | inr other ↦ rw other (g s d (rw other at h))
  ]

  walk-GrowsChildren :
      (m : Bytes) (cs cs' : Children E) (r : Bool) (i i' : Option ℕ)
      → GrowsChildren cs cs'
      → (segs : List Bytes) (n : Bytes) (e : E) → walk (dir m cs r i) segs ≡ some (file n e)
      → walk (dir m cs' r i') segs ≡ some (file n e)
  unfolding walk
  walk-GrowsChildren m cs cs' r i i' g [] n e h = cc
  walk-GrowsChildren m cs cs' r i i' g (s ∷ rest) n e h = elim (Option-cases (find_named s cs)) [
    | inl absent ↦ cc (h, walk-absent m cs r i s rest absent)
    | inr (c, found) ↦
        let (c', found', grows) = g s c found in
        walk-found m cs' r i' s rest c' found'
        ∙ grows.files_kept rest n e (sym (walk-found m cs r i s rest c found) ∙ h)
  ]

  Grows-dir :
      (n : Bytes) (cs cs' : Children E) (r : Bool) (i i' : Option ℕ)
      → GrowsChildren cs cs'
      → Grows (dir n cs r i) (dir n cs' r i')
  Grows-dir n cs cs' r i i' g = record {
    name_kept = refl;
    files_kept = walk-GrowsChildren n cs cs' r i i' g;
  }

  -- The run returns, and what it returns has grown out of `old`.
  pub record GrowsInto (old : FsTreeNode E) (run : Run (FsTreeNode E)) : Type 0 where
    pub new : FsTreeNode E
    pub returned : run ≡ ret new
    pub grows : Grows old new

  module _ (head : Bytes) (below : FsTreeNode E → Run (FsTreeNode E))
      (below_grows : (n : Bytes) (cs : Children E) (r : Bool) (i : Option ℕ)
        → GrowsInto (dir n cs r i) (below (dir n cs r i))) where
    descend-GrowsChildren :
        (cs : Children E)
        → (cs' : Children E) × (descend head below cs ≡ ret cs') × GrowsChildren cs cs'
    unfolding descend find_named
    descend-GrowsChildren nil =
        let g = below_grows head nil false none in (cons g.new nil, rw g.returned, λ s c h. cc)
    descend-GrowsChildren (cons (file n e) cs) =
        let (cs', e', g) = descend-GrowsChildren cs in
        (cons (file n e) cs', rw e', GrowsChildren-cons_tail (file n e) cs cs' g)
    descend-GrowsChildren (cons (dir n ds r i) cs) = elim (Bool-cases (eq_bytes head n)) [
      | inl here ↦
          let g = below_grows n ds r i in
          (
            cons g.new cs,
            rw (here, g.returned),
            GrowsChildren-cons_head (dir n ds r i) g.new cs g.grows,
          )
      | inr there ↦
          let (cs', e', g) = descend-GrowsChildren cs in
          (cons (dir n ds r i) cs', rw (there, e'), GrowsChildren-cons_tail (dir n ds r i) cs cs' g)
    ]

  enter-GrowsInto :
      (rest : Bytes) (fuel : ℕ) (e : E) (c : FsTreeNode E)
      → GrowsInto c (insert_onto fuel e rest c)
      → GrowsInto c (enter fuel e rest c)
  enter-GrowsInto [] fuel e c g = record { new = c; returned = refl; grows = Grows-refl c }
  enter-GrowsInto (x ∷ rest) fuel e c g = g

  insert_onto-GrowsInto :
      (fuel : ℕ) (e : E) (path n : Bytes) (cs : Children E) (r : Bool) (i : Option ℕ)
      → length path < fuel
      → GrowsInto (dir n cs r i) (insert_onto fuel e path (dir n cs r i))
  insert_onto-GrowsInto zero e path n cs r i h = elim h [ ]
  insert_onto-GrowsInto (suc fuel) e path n cs r i h = elim (Option-cases (find_byte b'/' path)) [
    | inl absent ↦ record {
      new = _;
      returned = insert_onto-file fuel e path n cs r i absent;
      grows = Grows-dir n cs _ r i _ (GrowsChildren-push cs (file path e));
    }
    | inr (sep, at) ↦
        let rest = drop (suc sep) path in
        let shorter : length rest < fuel =
          omega (arith, length-drop {0} (suc sep) path, find_byte-lt-length b'/' path sep at) in
        let (cs', returned', g) =
          descend-GrowsChildren (take sep path) (enter fuel e rest)
            (λ m ds q j.
              enter-GrowsInto rest fuel e (dir m ds q j)
                (insert_onto-GrowsInto fuel e rest m ds q j shorter))
            cs in
        record {
          new = dir n cs' r i;
          returned = rw (insert_onto-dir fuel e path n cs r i sep at, returned');
          grows = Grows-dir n cs cs' r i i g;
        }
  ]

  pub insert_at-GrowsInto :
      (e : E) (path n : Bytes) (cs : Children E) (r : Bool) (i : Option ℕ)
      → GrowsInto (dir n cs r i) (insert_at (dir n cs r i) e path)
  unfolding insert_at
  insert_at-GrowsInto e path n cs r i = insert_onto-GrowsInto _ e path n cs r i (omega arith)

  -- An insertion into a directory does not panic, and a path at which `find` gave a file gives the
  -- same file afterwards.
  pub find-insert_at_of_file :
      (e : E) (path n : Bytes) (cs : Children E) (r : Bool) (i : Option ℕ) (q m : Bytes) (x : E)
      → find (dir n cs r i) q ≡ some (file m x)
      → (new : FsTreeNode E) × (insert_at (dir n cs r i) e path ≡ ret new)
        × (find new q ≡ some (file m x))
  find-insert_at_of_file e path n cs r i q m x h =
      let g = insert_at-GrowsInto e path n cs r i in
      (
        g.new,
        g.returned,
        find-eq-walk g.new q
            ∙ g.grows.files_kept (segments q) m x (sym (find-eq-walk (dir n cs r i) q) ∙ h),
      )

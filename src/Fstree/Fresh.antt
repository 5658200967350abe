-- ===== src/Fstree/Fresh.antt =====
-- The file that an insertion adds is found at its path, if nothing stood in its way.
use mathlib.Core.Option.{some-injective}
use zipring.Prelude.{
  ℕ, zero, suc, ◌<◌, ◌≡◌, ◌≢◌, refl, ap, ◌∙◌, Bool, true, false, Option, none, some, List, [], ◌∷◌,
  inl, inr, ◌⊎◌, arith, Option-cases, Bool-cases, length, take, drop, length-drop, if◌then◌else◌,
  Run, ret, ◌>>=◌, All,
}
use zipring.Prelude.Bytes.{
  Bytes, eq_bytes, eq_bytes_iff, eq_bytes_refl, eq_bytes_comm, split_on-eq_cons, find_byte,
  find_byte-lt-length, split_on, split_on-find_byte-none, split_on-find_byte-some,
}
use zipring.Fstree.{
  FsTreeNode, dir, file, Children, nil, cons, name, len, push, is_dir_named, index_html, descend,
  insert_onto, insert_at, find_named, find,
}
use zipring.Fstree.Walk.{drop_empty, walk, walk-found, segments, find-eq-walk}
use zipring.Fstree.Insert.{enter, insert_onto-file, insert_onto-dir}

-- A path to a file: no segment is empty, so it neither begins nor ends with a slash.
abbrev pub IsPlain : Bytes → Type 0
IsPlain path = All (λ s. s ≢ []) (split_on b'/' path)

-- The last segment.
abbrev pub last_of : List Bytes → Bytes
last_of [] = []
last_of (s ∷ []) = s
last_of (s ∷ t ∷ rest) = last_of (t ∷ rest)

segments_of_plain : (path : Bytes) → IsPlain path → segments path ≡ split_on b'/' path
unfolding segments
segments_of_plain path plain = go (split_on b'/' path) plain
  where
    go : (ps : List Bytes) → All (λ s. s ≢ []) ps → drop_empty ps ≡ ps
    go [] h = refl
    go ([] ∷ ps) h = absurd (h.0 refl)
    go ((x ∷ p) ∷ ps) h = ap (◌∷◌ (x ∷ p)) (go ps h.1)

module _ {E : Type 0} where
  -- Nothing stands at the segments, and no file on the way.
  unfoldable pub is_free : FsTreeNode E → List Bytes → Bool
  is_free node [] = false
  is_free (file _ _) (s ∷ rest) = false
  is_free (dir _ cs _ _) (s ∷ rest) = elim (find_named s cs) [
    | none ↦ true
    | some c ↦ is_free c rest
  ]

  find_named-push :
      (cs : Children E) (x : FsTreeNode E)
      → find_named (name x) cs ≡ none
      → find_named (name x) (push cs x) ≡ some x
  unfolding find_named
  find_named-push nil x h = rw (eq_bytes_refl (name x))
  find_named-push (cons d ds) x h = ground (arith, find_named-push ds x)

  module _ (head : Bytes) (below : FsTreeNode E → Run (FsTreeNode E)) where
    -- Where no child has the name, a new directory is entered and put behind the others.
    descend_absent :
        (cs : Children E) (t : FsTreeNode E)
        → find_named head cs ≡ none
        → below (dir head nil false none) ≡ ret t
        → descend head below cs ≡ ret (push cs t)
    unfolding descend find_named
    descend_absent nil t h b = rw b
    descend_absent (cons (file n e) cs) t h b = ground (arith, descend_absent cs t)
    descend_absent (cons (dir n ds r i) cs) t h b =
        ground (arith, descend_absent cs t, eq_bytes_iff head n, eq_bytes_iff n head)

    is_dir_named_of_other :
        (c : FsTreeNode E) → eq_bytes (name c) head ≡ false → is_dir_named head c ≡ false
    is_dir_named_of_other (dir n _ _ _) h = eq_bytes_comm head n ∙ h
    is_dir_named_of_other (file _ _) h = refl

    descend_here :
        (n : Bytes) (ds : Children E) (r : Bool) (i : Option ℕ) (cs : Children E) (t : FsTreeNode E)
        → eq_bytes n head ≡ true
        → below (dir n ds r i) ≡ ret t
        → descend head below (cons (dir n ds r i) cs) ≡ ret (cons t cs)
    unfolding descend
    descend_here n ds r i cs t h b = rw (eq_bytes_comm head n, h, b)

    -- Where the first child of the name is a directory, that one is entered, and stays the first.
    descend_found :
        (cs : Children E) (n : Bytes) (ds : Children E) (r : Bool) (i : Option ℕ) (t : FsTreeNode E)
        → find_named head cs ≡ some (dir n ds r i)
        → below (dir n ds r i) ≡ ret t
        → name t ≡ n
        → (cs' : Children E) × (descend head below cs ≡ ret cs') × (find_named head cs' ≡ some t)
    unfolding descend find_named
    descend_found nil n ds r i t h b same = cc
    descend_found (cons c cs) n ds r i t h b same = elim (Bool-cases (eq_bytes (name c) head)) [
      | inl here ↦
          let e : c ≡ dir n ds r i = some-injective c (dir n ds r i) (rw here at h) in
          (
            cons t cs,
            rw e (descend_here n ds r i cs t (rw e at here) b),
            rw same (rw (rw e at here)),
          )
      | inr there ↦
          let (cs', d, f) = descend_found cs n ds r i t (rw there at h) b same in
          (cons c cs', rw (is_dir_named_of_other c there, d), rw there f)
    ]

  -- What `insert_onto` owes at a directory: the file is there afterwards.
  record Inserted (e : E) (n : Bytes) (segs : List Bytes) (run : Run (FsTreeNode E)) : Type 0 where
    new : FsTreeNode E
    returned : run ≡ ret new
    name_kept : name new ≡ n
    there : walk new segs ≡ some (file (last_of segs) e)

  is_free-cons :
      (n : Bytes) (cs : Children E) (r : Bool) (i : Option ℕ) (s : Bytes) (rest : List Bytes)
      → is_free (dir n cs r i) (s ∷ rest) ≡ true
      → (find_named s cs ≡ none)
        ⊎ ((c : FsTreeNode E) × (find_named s cs ≡ some c) × (is_free c rest ≡ true))
  unfolding is_free
  is_free-cons n cs r i s rest h = elim (Option-cases (find_named s cs)) [
    | inl absent ↦ inl absent
    | inr (c, found) ↦ inr (c, found, ground arith)
  ]

  Inserted-file :
      (fuel : ℕ) (e : E) (path n : Bytes) (cs : Children E) (r : Bool) (i : Option ℕ)
      → find_byte b'/' path ≡ none
      → find_named path cs ≡ none
      → Inserted e n (path ∷ []) (insert_onto (suc fuel) e path (dir n cs r i))
  unfolding walk
  Inserted-file fuel e path n cs r i absent h = record {
    new = _;
    returned = insert_onto-file fuel e path n cs r i absent;
    name_kept = refl;
    there =
        walk-found n (push cs (file path e)) r
          (if eq_bytes path index_html then some (len cs) else i) path [] (file path e)
          (find_named-push cs (file path e) h);
  }

  is_free-new :
      (e : E) (n s : Bytes) (rest : List Bytes) → is_free (dir n nil false none) (s ∷ rest) ≡ true
  unfolding is_free find_named
  is_free-new e n s rest = refl

  is_free-file :
      (n : Bytes) (e : E) (s : Bytes) (rest : List Bytes) → is_free (file n e) (s ∷ rest) ≡ false
  unfolding is_free
  is_free-file n e s rest = refl

  -- The recursive case, given what the call below owes at each directory with free `rest`.
  Inserted-dir :
      (fuel : ℕ) (e : E) (path n : Bytes) (cs : Children E) (r : Bool) (i : Option ℕ) (sep : ℕ)
      (s : Bytes) (rest : List Bytes)
      → find_byte b'/' path ≡ some sep
      → is_free (dir n cs r i) (take sep path ∷ s ∷ rest) ≡ true
      → ((m : Bytes) (ds : Children E) (q : Bool) (j : Option ℕ)
          → is_free (dir m ds q j) (s ∷ rest) ≡ true
          → Inserted e m (s ∷ rest) (enter fuel e (drop (suc sep) path) (dir m ds q j)))
      → Inserted e n (take sep path ∷ s ∷ rest) (insert_onto (suc fuel) e path (dir n cs r i))
  Inserted-dir fuel e path n cs r i sep s rest at free below =
      elim (is_free-cons n cs r i head (s ∷ rest) free) [
        | inl absent ↦
            let b = below head nil false none (is_free-new e head s rest) in
            record {
              new = dir n (push cs b.new) r i;
              returned = step ∙ rw (descend_absent head go cs b.new absent b.returned);
              name_kept = refl;
              there =
                  walk-found n (push cs b.new) r i head (s ∷ rest) b.new
                    (rw b.name_kept at (find_named-push cs b.new (rw b.name_kept absent)))
                  ∙ b.there;
            }
        | inr (file m x, found, free') ↦ cc (is_free-file m x s rest, free')
        | inr (dir m ds q j, found, free') ↦
            let b = below m ds q j free' in
            let (cs', d, f) =
              descend_found head go cs m ds q j b.new found b.returned b.name_kept in
            record {
              new = dir n cs' r i;
              returned = step ∙ rw d;
              name_kept = refl;
              there = walk-found n cs' r i head (s ∷ rest) b.new f ∙ b.there;
            }
      ]
    where
      head : Bytes
      head = take sep path

      go : FsTreeNode E → Run (FsTreeNode E)
      go = enter fuel e (drop (suc sep) path)

      step :
          insert_onto (suc fuel) e path (dir n cs r i)
          ≡ (descend head go cs >>= λ cs'. ret (dir n cs' r i))
      step = insert_onto-dir fuel e path n cs r i sep at

  enter_of_plain :
      (fuel : ℕ) (e : E) (rest : Bytes) → IsPlain rest → enter fuel e rest ≡ insert_onto fuel e rest
  unfolding split_on
  enter_of_plain fuel e [] plain = absurd (plain.0 refl)
  enter_of_plain fuel e (x ∷ rest) plain = refl

  is_free-single :
      (n : Bytes) (cs : Children E) (r : Bool) (i : Option ℕ) (s : Bytes)
      → is_free (dir n cs r i) (s ∷ []) ≡ true
      → find_named s cs ≡ none
  unfolding is_free
  is_free-single n cs r i s h = ground arith

  insert_onto-Inserted :
      (fuel : ℕ) (e : E) (path n : Bytes) (cs : Children E) (r : Bool) (i : Option ℕ)
      → length path < fuel
      → IsPlain path
      → is_free (dir n cs r i) (split_on b'/' path) ≡ true
      → Inserted e n (split_on b'/' path) (insert_onto fuel e path (dir n cs r i))
  insert_onto-Inserted zero e path n cs r i h plain free = elim h [ ]
  insert_onto-Inserted (suc fuel) e path n cs r i h plain free =
      elim (Option-cases (find_byte b'/' path)) [
        | inl absent ↦
            let one = split_on-find_byte-none b'/' path absent in
            rw one (
              Inserted-file fuel e path n cs r i absent
                (is_free-single n cs r i path (rw one at free)))
        | inr (sep, at) ↦
            let rest = drop (suc sep) path in
            let cutting = split_on-find_byte-some b'/' path sep at in
            let (s, ps, more) = split_on-eq_cons b'/' rest in
            let plain' : IsPlain rest = (rw cutting at plain).1 in
            let shorter : length rest < fuel =
              omega (arith, length-drop {0} (suc sep) path, find_byte-lt-length b'/' path sep at) in
            rw (cutting, more)
              (Inserted-dir fuel e path n cs r i sep s ps at (rw (cutting, more) at free)
                (λ m ds q j free'.
                  rw (enter_of_plain fuel e rest plain', ← more)
                    (insert_onto-Inserted fuel e rest m ds q j shorter plain' (rw more free'))))
      ]

  -- Inserting an entry at a plain path of a directory, where no file stands on the way and nothing
  -- at the path itself, does not panic, and `find` then gives a file of the last segment's name
  -- that holds the entry.
  pub find-insert_at :
      (e : E) (path n : Bytes) (cs : Children E) (r : Bool) (i : Option ℕ)
      → IsPlain path
      → is_free (dir n cs r i) (split_on b'/' path) ≡ true
      → (new : FsTreeNode E) × (insert_at (dir n cs r i) e path ≡ ret new)
        × (find new path ≡ some (file (last_of (split_on b'/' path)) e))
  unfolding insert_at
  find-insert_at e path n cs r i plain free =
      let done = insert_onto-Inserted _ e path n cs r i (omega arith) plain free in
      (
        done.new,
        done.returned,
        find-eq-walk done.new path ∙ rw (segments_of_plain path plain) done.there,
      )

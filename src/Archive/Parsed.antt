-- ===== src/Archive/Parsed.antt =====
-- On reading an archive that rc_zip's machine parses.
use mathlib.Core.Option
use zipring.Prelude.{
  ℕ, zero, suc, ◌≤◌, ◌<◌, ◌≡◌, ◌⊎◌, refl, inl, inr, min, none, some, List, Run, ret, length,
  ltb-eq-false, arith, Option-cases,
}
use zipring.Prelude.Bytes.{Bytes}
use zipring.Fstree.{FsTreeNode, find, resolve}
use zipring.Fstree.Archive.{resolve-read_zip_tree}
use zipring.Fstree.Settled.{answer}
use zipring.Fstree.Sort.{IsSorted}
use zipring.Response.Entry.{Entry}
use zipring.Response.Body.Decoded.{ReadAt}
use zipring.Archive.{
  ArchiveFsm, done, continued, Reading, archive, buf_len, after_step, read_loop, read_zip_from_file,
  read_tree,
}

module _ (F : ArchiveFsm) (read_at : ReadAt) where
  -- A read that a machine wants gives bytes that it has room for.
  pub record Feeds (Ready : F.State → Type 0) (effort : F.State → ℕ) (fsm : F.State) (offset : ℕ)
      : Type 0 where
    pub bytes : Bytes
    pub is_read : read_at offset (min (F.space fsm) buf_len) ≡ some bytes
    pub fits : length bytes ≤ F.space fsm
    pub ready : Ready (F.fill fsm bytes)
    pub same_effort : effort (F.fill fsm bytes) ≤ effort fsm

  -- A turn that does not finish leaves less to do.
  pub record Goes (Good : F.State → Type 0) (effort : F.State → ℕ) (fsm : F.State) : Type 0 where
    pub next : F.State
    pub is : F.process fsm ≡ continued next
    pub good : Good next
    pub less : effort next < effort fsm

  -- On a file of `size` bytes that the machine parses as an archive of `entries`, in fewer than `most`
  -- turns.
  pub record Parses (size most : ℕ) (entries : List Entry) : Type 1 where
    pub Good : F.State → Type 0
    pub Ready : F.State → Type 0
    pub effort : F.State → ℕ
    pub starts : Good (F.start size) × (effort (F.start size) < most)
    pub idle : (fsm : F.State) → Good fsm → F.wants_read fsm ≡ none → Ready fsm
    pub feeds :
        (fsm : F.State) (offset : ℕ)
        → Good fsm
        → F.wants_read fsm ≡ some offset
        → Feeds Ready effort fsm offset
    pub turns : (fsm : F.State) → Ready fsm → (F.process fsm ≡ done entries) ⊎ Goes Good effort fsm

  module _ (size most : ℕ) (entries : List Entry) (P : Parses size most entries) where
    after_step-archive :
        (again : F.State → Run Reading) (fsm : F.State)
        → P.Ready fsm
        → ((next : F.State)
            → P.Good next
            → P.effort next < P.effort fsm
            → again next ≡ ret (archive entries))
        → after_step F read_at again (F.process fsm) ≡ ret (archive entries)
    after_step-archive again fsm ready go = elim (P.turns fsm ready) [
      | inl e ↦ rw e refl
      | inr goes ↦ rw goes.is (go goes.next goes.good goes.less)
    ]

    read_loop-archive :
        (fuel : ℕ) (fsm : F.State)
        → P.Good fsm
        → P.effort fsm < fuel
        → read_loop F read_at fuel fsm ≡ ret (archive entries)
    unfolding read_loop
    read_loop-archive zero fsm good enough = absurd (omega arith)
    read_loop-archive (suc fuel) fsm good enough = elim (Option-cases (F.wants_read fsm)) [
      | inl e ↦ rw e (
          after_step-archive (read_loop F read_at fuel) fsm (P.idle fsm good e)
            (λ next good' less. read_loop-archive fuel next good' (omega arith)))
      | inr (offset, e) ↦
          let f = P.feeds fsm offset good e in
          let same = f.same_effort in
          rw (e, f.is_read, ltb-eq-false (F.space fsm) (length f.bytes) f.fits)
            (after_step-archive (read_loop F read_at fuel) (F.fill fsm f.bytes) f.ready
              (λ next good' less. read_loop-archive fuel next good' (omega arith)))
    ]

    -- On a file that rc_zip's machine parses as an archive, with fuel for its turns, reading the file
    -- ends, with the machine's entries. Their tree is built without a panic, it is sorted, and no
    -- request path makes `resolve` panic: the answer is that of the node that `find` gives.
    pub read_tree-archive :
        (read_zip_from_file F read_at most (some size) ≡ ret (archive entries))
        × ((path : Bytes)
            → (tree : FsTreeNode Entry) × (read_tree F read_at most (some size) ≡ ret (some tree))
              × IsSorted tree
              × (resolve tree path ≡ ret (Option.map (answer path) (find tree path))))
    unfolding read_zip_from_file read_tree
    read_tree-archive =
        let read = read_loop-archive most (F.start size) P.starts.0 P.starts.1 in
        (
          read,
          λ path.
              let (tree, built, sorted, answers) =
                resolve-read_zip_tree (λ e. e.name) entries path in
              (tree, rw (read, built) refl, sorted, answers),
        )

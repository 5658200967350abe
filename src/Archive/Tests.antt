-- ===== src/Archive/Tests.antt =====
-- An example of reading an archive.
use mathlib.Core.Option
use mathlib.Core.Option.{none-ne-some, some-injective}
use zipring.Prelude.{
  ℕ, zero, suc, ◌-◌, ◌≤◌, ◌≡◌, refl, ap, inl, Option, none, some, [], ◌∷◌, ret, length, length-take,
  take, min, subst, arith,
}
use zipring.Prelude.Bytes.{Bytes}
use zipring.Fstree.{FsTreeNode, find, resolve}
use zipring.Fstree.Settled.{answer}
use zipring.Fstree.Sort.{IsSorted}
use zipring.Response.Entry.{Entry}
use zipring.Response.Tests.{entry_a}
use zipring.Response.Samples.{read_some}
use zipring.Archive.{
  ArchiveFsm, buf_len, Step, done, continued, archive, read_zip_from_file, read_tree,
}
use zipring.Archive.Parsed.{Feeds, Parses, read_tree-archive}
use zipring.Response.Tests

-- A machine that reads the whole file from its front. Its state is how much of it is still to come.
abbrev step_counter : ℕ → Step ℕ
step_counter zero = done (entry_a ∷ [])
step_counter (suc n) = continued (suc n)

abbrev wanted : ℕ → Option ℕ
wanted zero = none
wanted (suc n) = some 0

abbrev counter_fsm : ArchiveFsm
counter_fsm = record {
  State = ℕ;
  start = λ size. size;
  wants_read = wanted;
  space = λ n. n;
  fill = λ n bytes. n - length bytes;
  process = step_counter;
}

wanted_lem : (n : ℕ) → wanted n ≡ none → n ≡ 0
wanted_lem zero e = refl
wanted_lem (suc n) e = cc

counter-Feeds :
    (n offset : ℕ)
    → n ≤ 34
    → wanted n ≡ some offset
    → Feeds counter_fsm (read_some Tests.archive) (λ k. k ≡ 0) (λ _. 0) n offset
counter-Feeds zero offset small e = absurd (none-ne-some offset e)
counter-Feeds (suc n) offset small e =
    let bytes = take (min (suc n) buf_len) Tests.archive in
    let size : length bytes ≡ suc n =
      omega (arith, length-take {0} (min (suc n) buf_len) Tests.archive) in
    subst (Feeds counter_fsm (read_some Tests.archive) (λ k. k ≡ 0) (λ _. 0) (suc n))
      (some-injective 0 offset e)
      (record {
        bytes = bytes;
        is_read = refl;
        fits = omega arith;
        ready = omega arith;
        same_effort = omega arith;
      })

abbrev counter-Parses : Parses counter_fsm (read_some Tests.archive) 34 1 (entry_a ∷ [])
counter-Parses = record {
  Good = λ n. n ≤ 34;
  Ready = λ n. n ≡ 0;
  effort = λ _. 0;
  starts = (omega arith, omega arith);
  idle = λ n _ e. wanted_lem n e;
  feeds = counter-Feeds;
  turns = λ n ready. inl (ap step_counter ready);
}

read_tree-archive_example :
    (read_zip_from_file counter_fsm (read_some Tests.archive) 1 (some 34)
      ≡ ret (archive (entry_a ∷ [])))
    × ((path : Bytes)
        → (tree : FsTreeNode Entry) × (read_tree counter_fsm (read_some Tests.archive) 1 (some 34)
            ≡ ret (some tree))
          × IsSorted tree
          × (resolve tree path ≡ ret (Option.map (answer path) (find tree path))))
read_tree-archive_example =
    read_tree-archive counter_fsm (read_some Tests.archive) 34 1 (entry_a ∷ []) counter-Parses

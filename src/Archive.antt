-- ===== src/Archive.antt =====
-- `read_zip_from_file` of src/rc_zip_compio.rs, and `read_zip_tree` of src/main.rs on the file. rc_zip's
-- state machine for an archive's directory, `ArchiveFsm`, is a parameter.
pub mod Parsed
mod Tests
use zipring.Prelude.{
  ℕ, zero, suc, ◌*◌, min, Option, none, some, List, Run, panic, ret, ◌>>=◌, length, ltb,
  if◌then◌else◌,
}
use zipring.Prelude.Bytes.{Bytes}
use zipring.Fstree.{FsTreeNode, read_zip_tree}
use zipring.Response.Entry.{Entry}
use zipring.Response.Body.Decoded.{ReadAt}

abbrev pub buf_len : ℕ
buf_len = 256 * 1024

-- What `ArchiveFsm::process` gives; an archive is its entries.
pub data Step (S : Type 0) : Type 0 where
  done : List Entry → Step S
  continued : S → Step S
  failed : Step S

-- `start` is `ArchiveFsm::new` of the file's size; `wants_read` is where from, `space` the length of the
-- room for it, and `fill` takes bytes that were put there.
pub record ArchiveFsm : Type 1 where
  pub State : Type 0
  pub start : ℕ → State
  pub wants_read : State → Option ℕ
  pub space : State → ℕ
  pub fill : State → Bytes → State
  pub process : State → Step State

-- How reading ends: with the entries, an error, or its fuel.
pub data Reading : Type 0 where
  archive : List Entry → Reading
  failed : Reading
  out_of_fuel : Reading

module _ (F : ArchiveFsm) (read_at : ReadAt) where
  -- `dst[..n]` panics out of range.
  abbrev pub fill_space : (F.State → Run Reading) → F.State → Option Bytes → Run Reading
  fill_space next fsm none = ret failed
  fill_space next fsm (some bytes) =
      if ltb (F.space fsm) (length bytes) then panic else next (F.fill fsm bytes)

  abbrev pub read_wanted : (F.State → Run Reading) → F.State → Option ℕ → Run Reading
  read_wanted next fsm none = next fsm
  read_wanted next fsm (some offset) =
      fill_space next fsm (read_at offset (min (F.space fsm) buf_len))

  abbrev pub after_step : (F.State → Run Reading) → Step F.State → Run Reading
  after_step again (done entries) = ret (archive entries)
  after_step again (continued fsm) = again fsm
  after_step again failed = ret failed

  -- The loop, on fuel.
  unfoldable pub read_loop : ℕ → F.State → Run Reading
  read_loop zero fsm = ret out_of_fuel
  read_loop (suc fuel) fsm =
      let again = read_loop fuel in
      read_wanted (λ ready. after_step again (F.process ready)) fsm (F.wants_read fsm)

  -- The size is `none` where the file's metadata cannot be read.
  unfoldable pub read_zip_from_file : ℕ → Option ℕ → Run Reading
  unfolding read_loop
  read_zip_from_file fuel none = ret failed
  read_zip_from_file fuel (some size) = read_loop fuel (F.start size)

  -- The tree, or `none` for an error.
  abbrev pub tree_of : Reading → Run (Option (FsTreeNode Entry))
  tree_of (archive entries) = do tree ← read_zip_tree (λ e. e.name) entries; ret (some tree)
  tree_of failed = ret none
  tree_of out_of_fuel = ret none

  unfoldable pub read_tree : ℕ → Option ℕ → Run (Option (FsTreeNode Entry))
  unfolding read_zip_from_file read_zip_tree
  read_tree fuel size = read_zip_from_file fuel size >>= tree_of

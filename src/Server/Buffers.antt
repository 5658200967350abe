-- ===== src/Server/Buffers.antt =====
-- `take_buf` and `return_buf` of src/main.rs, on the pool of a thread's response buffers.
use zipring.Prelude.{
  ℕ, ◌*◌, ◌≡◌, List, [], ◌∷◌, Run, panic, ret, length, replicate, if◌then◌else◌, ◌==◌, All,
}
use zipring.Prelude.Bytes.{Bytes}

abbrev pub connection_buf_size : ℕ
connection_buf_size = 64 * 1024

-- The buffer that was returned last is first.
abbrev pub BufPool : Type 0
BufPool = List Bytes

unfoldable pub take_buf : BufPool → Bytes × BufPool
take_buf [] = (replicate connection_buf_size 0, [])
take_buf (buf ∷ pool) = (buf, pool)

-- `assert_eq!(buf.len(), CONNECTION_BUF_SIZE)` panics.
unfoldable pub return_buf : Bytes → BufPool → Run BufPool
return_buf buf pool = if length buf == connection_buf_size then ret (buf ∷ pool) else panic

-- Every buffer in the pool has the one length.
abbrev pub IsPool : BufPool → Type 0
IsPool = All (λ buf. length buf ≡ connection_buf_size)

-- ===== src/Response/Body/EntryBody.antt =====
-- `EntryBody` of src/response/body.rs: an entry's bytes in its native coding, inflated or decoded. The
-- crates that decode are parameters.
use zipring.Prelude.{ℕ, Bool, true, false, ◌&&◌, Option, none, some, Run, ret, ◌>>=◌, if◌then◌else◌}
use zipring.Prelude.Bytes.{Bytes}
use zipring.Response.Entry.{Entry, Method, Features, ReadExactAt}
use zipring.Response.Coding.{NativeCoding}
use zipring.Response.Body.Contract.{Body}
use zipring.Response.Body.Native
use zipring.Response.Body.Native.{NativeBody}
use zipring.Response.Body.Decoded
use zipring.Response.Body.Decoded.{EntryFsm, DecodedBody, ReadAt}
use zipring.Response.Body.Inflated
use zipring.Response.Body.Inflated.{Inflate, Hasher, InflatedBody, InflaterPool, lend, give_back}

-- What decodes entries, and how many rounds a decoder may take before it gives any bytes.
pub record Decoding : Type 1 where
  pub fsm : EntryFsm
  pub inflate : Inflate
  pub hasher : Hasher
  pub rounds : ℕ

-- The archive's file.
pub record Disk : Type 0 where
  pub read_exact_at : ReadExactAt
  pub read_at : ReadAt

abbrev pub is_deflate : Method → Bool
is_deflate Method.deflate = true
is_deflate Method.store = false
is_deflate Method.zstd = false
is_deflate Method.deflate64 = false
is_deflate Method.bzip2 = false
is_deflate Method.lzma = false
is_deflate (Method.other _) = false

module _ (C : Decoding) where
  pub data EntryBody : Type 0 where
    native : NativeCoding → NativeBody → EntryBody
    inflated : InflatedBody C.inflate C.hasher → EntryBody
    decoded : DecodedBody C.fsm → EntryBody

  -- `EntryBody::new`, with the pool after an inflater was lent.
  unfoldable pub new :
      Features
      → Entry
      → Option NativeCoding
      → InflaterPool C.inflate
      → EntryBody × InflaterPool C.inflate
  unfolding lend
  new features entry (some coding) pool = (native coding (Native.new entry), pool)
  new features entry none pool =
      if features.deflate && is_deflate entry.method
      then (
        inflated (Inflated.new C.inflate C.hasher entry (lend C.inflate pool).0),
        (lend C.inflate pool).1,
      )
      else (decoded (Decoded.new C.fsm entry), pool)

  -- A body is dropped, and an inflater that it was lent goes back.
  unfoldable pub drop_body : EntryBody → InflaterPool C.inflate → InflaterPool C.inflate
  unfolding give_back
  drop_body (native _ _) pool = pool
  drop_body (inflated body) pool = give_back C.inflate body.inflater pool
  drop_body (decoded _) pool = pool

  abbrev pub wrap :
      {S : Type 0} → (S → EntryBody) → Option ℕ × Bytes × S → Run (Option ℕ × Bytes × EntryBody)
  wrap kind (n, buf, body) = ret (n, buf, kind body)

  module _ (disk : Disk) (entry : Entry) where
    unfoldable pub fill : EntryBody → Bytes → ℕ → Run (Option ℕ × Bytes × EntryBody)
    unfolding Native.fill Inflated.fill Decoded.fill
    fill (native coding body) buf at =
        Native.fill disk.read_exact_at entry coding body buf at >>= wrap (native coding)
    fill (inflated body) buf at =
        Inflated.fill C.inflate C.hasher disk.read_exact_at entry C.rounds body buf at
        >>= wrap inflated
    fill (decoded body) buf at =
        Decoded.fill C.fsm disk.read_at C.rounds body buf at >>= wrap decoded

    abbrev pub entry_body : Body
    entry_body = record { State = EntryBody; fill = fill }

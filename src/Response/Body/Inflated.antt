-- ===== src/Response/Body/Inflated.antt =====
-- `InflaterPool`, `LentInflater` and `InflatedBody` of src/response/body.rs: a deflated entry, inflated
-- and checked. The decoder (sirocco) and the checksum (crc32fast) are parameters.
use zipring.Prelude.{
  ℕ, zero, suc, ◌+◌, ◌-◌, ◌*◌, min, Bool, true, false, not, ◌&&◌, ◌||◌, Option, none, some, List,
  [], ◌∷◌, Run, panic, ret, ◌>>=◌, length, take, drop, replicate, ltb, leb, if◌then◌else◌, ◌==◌,
}
pub mod Laws
pub mod Sound
pub mod Reading
pub mod Making
pub mod Advancing
pub mod Decoding
pub mod Filling
pub mod Whole
pub mod Pool
use zipring.Prelude.Bytes.{Bytes}
use zipring.Response.Entry.{Entry, ReadExactAt, copy_at, find_entry_compressed_data}

abbrev pub window_len : ℕ
window_len = 64 * 1024

abbrev pub input_len : ℕ
input_len = 16 * 1024

-- `sirocco::inflate::Progress`: how much input was consumed, what was written to the window, whether
-- the window is full, and whether the stream has ended.
pub record Progress : Type 0 where
  pub consumed : ℕ
  pub output : Bytes
  pub full : Bool
  pub done : Bool

-- `sirocco::inflate::Decoder` for a raw DEFLATE stream. `make_room` moves the window, and gives how far;
-- `decompress` has the input, the window and whether no more input will follow.
pub record Inflate : Type 1 where
  pub State : Type 0
  pub new : State
  pub reset : State → State
  pub make_room : State → Bytes → ℕ × State × Bytes
  pub decompress : State → Bytes → Bytes → Bool → Option Progress × State × Bytes
  pub total_out : State → ℕ

-- `crc32fast::Hasher`
pub record Hasher : Type 1 where
  pub State : Type 0
  pub new : State
  pub update : State → Bytes → State
  pub finalize : State → ℕ

module _ (I : Inflate) where
  pub record Inflater : Type 0 where
    pub decoder : I.State
    pub window : Bytes
    pub input : Bytes

  -- The pool is the last of its inflaters first.
  abbrev pub InflaterPool : Type 0
  InflaterPool = List Inflater

  abbrev pub new_inflater : Inflater
  new_inflater = record {
    decoder = I.new;
    window = replicate window_len 0;
    input = replicate input_len 0;
  }

  unfoldable pub lend : InflaterPool → Inflater × InflaterPool
  lend [] = (new_inflater, [])
  lend (inflater ∷ pool) = (inflater, pool)

  -- `LentInflater::drop`
  unfoldable pub give_back : Inflater → InflaterPool → InflaterPool
  give_back inflater pool = record inflater { decoder = I.reset inflater.decoder } ∷ pool

module _ (I : Inflate) (H : Hasher) where
  pub record InflatedBody : Type 0 where
    pub inflater : Inflater I
    pub history_len : ℕ
    pub pending_start : ℕ
    pub pending_end : ℕ
    pub window_full : Bool
    pub unconsumed_start : ℕ
    pub unconsumed_end : ℕ
    pub data_offset : Option ℕ
    pub unread : ℕ
    pub crc : H.State
    pub done : Bool

  abbrev pub new : Entry → Inflater I → InflatedBody
  new entry inflater = record {
    inflater = inflater;
    history_len = 0;
    pending_start = 0;
    pending_end = 0;
    window_full = false;
    unconsumed_start = 0;
    unconsumed_end = 0;
    data_offset = none;
    unread = entry.compressed_size;
    crc = H.new;
    done = false;
  }

  -- Whether it went well, with the buffer and the body.
  abbrev pub Step : Type 0
  Step = Bool × Bytes × InflatedBody

  -- `if self.window_full { … }`
  abbrev pub moved : InflatedBody → ℕ × I.State × Bytes → Run InflatedBody
  moved body (by, decoder, window) =
      if ltb body.history_len by
      then panic
      else ret (record body {
        inflater = record body.inflater { decoder = decoder; window = window };
        history_len = body.history_len - by;
        window_full = false;
      })

  unfoldable pub make_room : InflatedBody → Run InflatedBody
  make_room body =
      if body.window_full
      then moved body (I.make_room body.inflater.decoder body.inflater.window)
      else ret body

  -- The body after some progress, before the checks.
  abbrev pub advanced : InflatedBody → I.State → Bytes → Progress → InflatedBody
  advanced body decoder window progress = record body {
    inflater = record body.inflater { decoder = decoder; window = window };
    unconsumed_start = body.unconsumed_start + progress.consumed;
    crc = H.update body.crc progress.output;
    history_len = body.history_len + length progress.output;
    pending_start = body.history_len;
    pending_end = body.history_len + length progress.output;
    window_full = progress.full;
    done = progress.done;
  }

  -- The checks at the end of `decode`: the size, and at the end the checksum.
  abbrev pub is_sound : Entry → InflatedBody → Bool
  is_sound entry body =
      let total = I.total_out body.inflater.decoder in
      not (ltb entry.uncompressed_size total || (body.done && ltb total entry.uncompressed_size))
      && not (body.done && not (H.finalize body.crc == entry.crc32))

  abbrev pub checked :
      Entry → InflatedBody → Option Progress × I.State × Bytes → Bool × InflatedBody
  checked entry body (none, decoder, window) = (
    false,
    record body { inflater = record body.inflater { decoder = decoder; window = window } },
  )
  checked entry body (some progress, decoder, window) = (
    is_sound entry (advanced body decoder window progress),
    advanced body decoder window progress,
  )

  -- `&input[self.unconsumed.clone()]` panics out of range.
  abbrev pub decompress : Entry → InflatedBody → Run (Bool × InflatedBody)
  decompress entry body =
      if ltb body.unconsumed_end body.unconsumed_start
        || ltb (length body.inflater.input) body.unconsumed_end
      then panic
      else ret (
          checked entry body (
            I.decompress body.inflater.decoder
              (drop body.unconsumed_start (take body.unconsumed_end body.inflater.input))
              body.inflater.window (body.unread == 0)))

  unfoldable pub decode : Entry → InflatedBody → Run (Bool × InflatedBody)
  unfolding make_room
  decode entry body = make_room body >>= decompress entry

module _ (I : Inflate) (H : Hasher) (read_exact_at : ReadExactAt) (entry : Entry) where
  unfoldable pub offset_of : InflatedBody I H → Bytes → ℕ → Run (Option ℕ × Bytes)
  offset_of body buf at = elim body.data_offset [
    | some offset ↦ ret (some offset, buf)
    | none ↦ find_entry_compressed_data read_exact_at entry at buf
  ]

  abbrev pub store_input : InflatedBody I H → ℕ → ℕ → ℕ → Bytes → Option Bytes → Run (Step I H)
  store_input body at offset n buf none = ret (false, buf, body)
  store_input body at offset n buf (some bytes) = do
    buf' ← copy_at at bytes buf
    input ← copy_at 0 bytes body.inflater.input
    ret (
      true,
      buf',
      record body {
        inflater = record body.inflater { input = input };
        unconsumed_start = 0;
        unconsumed_end = n;
        data_offset = some (offset + n);
        unread = body.unread - n;
      },
    )

  abbrev pub input_at : InflatedBody I H → ℕ → Option ℕ × Bytes → Run (Step I H)
  input_at body at (none, buf) = ret (false, buf, body)
  input_at body at (some offset, buf) =
      let n = min (min body.unread input_len) (length buf - at) in
      store_input body at offset n buf (read_exact_at offset n)

  unfoldable pub read_input : InflatedBody I H → Bytes → ℕ → Run (Step I H)
  unfolding offset_of
  read_input body buf at = offset_of body buf at >>= input_at body at

  -- `none` is an error, as in `Response.Body.Contract`.
  abbrev pub Filled : Type 0
  Filled = Option ℕ × Bytes × InflatedBody I H

  -- What `fill` does behind its loop.
  unfoldable pub hand_out : InflatedBody I H → Bytes → ℕ → Run Filled
  hand_out body buf at =
      let n = min (body.pending_end - body.pending_start) (length buf - at) in
      if ltb (length body.inflater.window) (body.pending_start + n) then panic else (do
        buf' ← copy_at at (take n (drop body.pending_start body.inflater.window)) buf
        ret (some n, buf', record body { pending_start = body.pending_start + n }))

  abbrev pub is_empty_handed : InflatedBody I H → Bool
  is_empty_handed body = leb body.pending_end body.pending_start && not body.done

  abbrev pub wants_input : InflatedBody I H → Bool
  wants_input body = leb body.unconsumed_end body.unconsumed_start && ltb 0 body.unread

  abbrev pub after_decode :
      (InflatedBody I H → Bytes → Run Filled) → Bytes → Bool × InflatedBody I H → Run Filled
  after_decode again buf (false, body) = ret (none, buf, body)
  after_decode again buf (true, body) = again body buf

  abbrev pub after_input : (InflatedBody I H → Bytes → Run Filled) → Step I H → Run Filled
  after_input again (false, buf, body) = ret (none, buf, body)
  after_input again (true, buf, body) = decode I H entry body >>= after_decode again buf

  -- `fill` on fuel: each round reads input or decodes some, so a bound on the decoder's rounds is
  -- fuel enough.
  unfoldable pub fill : ℕ → InflatedBody I H → Bytes → ℕ → Run Filled
  unfolding hand_out read_input decode
  fill zero body buf at = panic
  fill (suc fuel) body buf at =
      let again = λ (body' : InflatedBody I H) (buf' : Bytes). fill fuel body' buf' at in
      let round =
        (if wants_input body then read_input body buf at else ret (true, buf, body))
        >>= after_input again in
      if is_empty_handed body then round else hand_out body buf at

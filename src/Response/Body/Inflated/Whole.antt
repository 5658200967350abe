-- ===== src/Response/Body/Inflated/Whole.antt =====
-- An inflated body as a whole: what `EntryBody::new` makes gives the whole content.
use zipring.Prelude.{◌∷◌, All, length-replicate, ℕ, ◌≡◌, sym, [], length, arith}
use zipring.Prelude.Bytes.{Bytes}
use zipring.Response.Entry.{Entry, ReadExactAt}
use zipring.Response.Body.Contract.{Body, Gives}
use zipring.Response.Body.Native.Puts.{Holds, IsWithin}
use zipring.Response.Body.Inflated.{
  InflaterPool, lend, Inflate, Hasher, Inflater, InflatedBody, Progress, input_len, window_len,
  make_room, decode, moved, advanced, checked, decompress, is_sound, offset_of, store_input,
  input_at, read_input, Filled, hand_out, is_empty_handed, wants_input, after_decode, after_input,
  fill,
}
use zipring.Response.Body.Inflated.Laws.{Hashes, Inflates}
use zipring.Response.Body.Inflated
use zipring.Response.Body.Inflated.Laws.{Starts}
use zipring.Response.Body.Inflated.Sound.{Sound, rest}
use zipring.Response.Body.Inflated.Filling.{fill-Fills}
use zipring.Response.Body.Native.Whole.{stored}

abbrev pub inflated_body : (I : Inflate) (H : Hasher) → ReadExactAt → Entry → ℕ → Body
inflated_body I H read_exact_at entry most = record {
  State = InflatedBody I H;
  fill = fill I H read_exact_at entry most;
}

-- An inflater that can be lent.
pub record IsReady {I : Inflate} (Fresh : I.State → Type 0) (inflater : Inflater I) : Type 0 where
  pub fresh : Fresh inflater.decoder
  pub window_size : length inflater.window ≡ window_len
  pub input_size : length inflater.input ≡ input_len

pub lend-IsReady :
    {I : Inflate} (Fresh : I.State → Type 0)
    → Fresh I.new
    → (pool : InflaterPool I) → All (IsReady Fresh) pool
    → IsReady Fresh (lend I pool).0
unfolding lend
lend-IsReady {I} Fresh fresh [] ready = record {
  fresh = fresh;
  window_size = length-replicate {A = ℕ} window_len 0;
  input_size = length-replicate {A = ℕ} input_len 0;
}
lend-IsReady {I} Fresh fresh (inflater ∷ pool) (ready, others) = ready

module _ (I : Inflate) (H : Hasher) (read_exact_at : ReadExactAt) (contents : Bytes) (entry : Entry)
    (holds : Holds read_exact_at contents) (w : IsWithin contents entry) (content : Bytes)
    (most : ℕ) (L : Inflates I most (length content)) (S : Hashes H) where
  pub new-Sound :
      (T : Starts I L (stored contents entry) content) (inflater : Inflater I)
      → IsReady T.Fresh inflater
      → Sound I H read_exact_at contents entry holds w content most L S
          (Inflated.new I H entry inflater)
  new-Sound T inflater ready = record {
    before = [];
    decoded = sym (T.gives inflater.decoder inflater.window ready.fresh ready.window_size);
    hashed = sym S.hash_none;
    good = T.good inflater.decoder inflater.window ready.fresh ready.window_size;
    pending_within = omega arith;
    pending_order = omega arith;
    input_order = omega arith;
    input_within = omega arith;
    input_room = ready.input_size;
    window_room = ready.window_size;
    data_within = w.data_within;
    ended = λ done. absurd (cc);
  }

  pub new-rest :
      (T : Starts I L (stored contents entry) content) (inflater : Inflater I)
      → IsReady T.Fresh inflater
      → rest I H read_exact_at contents entry holds w content most L S
          (Inflated.new I H entry inflater)
        ≡ content
  new-rest T inflater ready = T.gives inflater.decoder inflater.window ready.fresh ready.window_size

  module _ (size : length content ≡ entry.uncompressed_size)
      (sum : H.finalize (S.hash content) ≡ entry.crc32) where
    abbrev pub inflated_body-Gives : Gives (inflated_body I H read_exact_at entry most)
    inflated_body-Gives = record {
      rest = rest I H read_exact_at contents entry holds w content most L S;
      Ok = Sound I H read_exact_at contents entry holds w content most L S;
      need = 30;
      fill-Fills = fill-Fills I H read_exact_at contents entry holds w content most L S size sum;
    }

-- ===== src/Io61/ReadExamples.antt =====
-- Reading a fifo through the cache of pset4/io61.cc. A fifo cannot be mapped, which has set `errno`.
use cs61_f23_psets_tomkhe.Io61.Reading.Finishing.{IsPersistent}
use cs61_f23_psets_tomkhe.Io61.Reading.OneByte.{as_char, io61_readc-io61_read_cache}
use cs61_f23_psets_tomkhe.Prelude.{
  ℕ, zero, suc, ◌≤◌, ◌≡◌, refl, ap, true, false, some, none, List, [], ◌∷◌, ◌++◌, arith, length,
  take, drop, get_or, not, ◌||◌, ◌==◌, if◌then◌else◌,
}
use cs61_f23_psets_tomkhe.Io61.Cache.{read_only, Cached, returns, slice, copy_in}
use cs61_f23_psets_tomkhe.Io61.Reading.{
  ReadResult, got, Source, filled, fill_loop, io61_fill, refill, read_loop, read_result,
  io61_read_cache, take_char, io61_readc,
}
use cs61_f23_psets_tomkhe.Io61.Reading.Filling.{IsStream, IsReader}
use cs61_f23_psets_tomkhe.Io61.Reading.Stream.{Reads, io61_read_cache-Reads}

abbrev read_pipe : List ℕ → ℕ → ReadResult × List ℕ
read_pipe bytes n = (got (take n bytes), drop n bytes)

-- 19 is `ENODEV`.
abbrev fifo : Source
fifo = record { Os = List ℕ; read = read_pipe; errno = λ bytes. 19 }

take-drop : (n : ℕ) (bytes : List ℕ) → bytes ≡ take n bytes ++ drop n bytes
take-drop zero bytes = refl
take-drop (suc n) [] = refl
take-drop (suc n) (x ∷ bytes) = ap (◌∷◌ x) (take-drop n bytes)

take_le : (n : ℕ) (bytes : List ℕ) → length (take n bytes) ≤ n
take_le zero bytes = omega arith
take_le (suc n) [] = omega arith
take_le (suc n) (x ∷ bytes) = omega (arith, take_le n bytes)

fifo-IsStream : IsStream fifo
fifo-IsStream = record {
  remaining = λ bytes. bytes;
  read_some = some_read;
  read_none = none_read;
  read_again = λ os after n e. cc;
  read_failed = λ os after n e. cc;
}
  where
    some_read :
        (os after : List ℕ) (n : ℕ) (bytes : List ℕ)
        → read_pipe os n ≡ (got bytes, after)
        → (length bytes ≤ n) × (os ≡ bytes ++ after)
    some_read os after n bytes e =
        let bytes_is : take n os ≡ bytes = cc in
        let after_is : drop n os ≡ after = cc in
        rw (← bytes_is, ← after_is) (take_le n os, take-drop n os)

    none_read : (os after : List ℕ) (n : ℕ) → read_pipe os (suc n) ≡ (got [], after) → os ≡ []
    none_read [] after n e = refl
    none_read (x ∷ os) after n e = cc

abbrev opened_pipe : Cached
opened_pipe = record {
  mode = read_only;
  seekable = false;
  cbuf = λ i. 0;
  tag = 0;
  pos_tag = 0;
  end_tag = 0;
  map_failed = true;
  dirty = false;
  positioned = false;
}

opened-IsReader : IsReader opened_pipe
opened-IsReader = record { tag_le = omega arith; pos_le = omega arith; fits = omega arith }

abbrev letters : List ℕ
letters = b'a' ∷ b'b' ∷ b'c' ∷ []

abbrev two_read : Cached
two_read = record opened_pipe {
  cbuf = copy_in 0 (λ i. get_or letters i 0) 0 3 (λ i. 0);
  pos_tag = 2;
  end_tag = 3;
}

two_bytes :
    io61_read_cache fifo 2 2 opened_pipe letters ≡ returns (some (b'a' ∷ b'b' ∷ [])) two_read []
unfolding io61_read_cache read_loop refill io61_fill fill_loop read_result slice
two_bytes = refl

-- at the end of the file, -1
at_end : io61_read_cache fifo 2 2 opened_pipe [] ≡ returns none (filled [] opened_pipe) []
unfolding io61_read_cache read_loop refill io61_fill fill_loop read_result slice
at_end = refl

io61_read_cache-Reads_example :
    (out : List ℕ) × (some (b'a' ∷ b'b' ∷ [])
      ≡ (if not (length out == 0) || 2 == 0 || 19 == 0 then some out else none))
    × Reads fifo fifo-IsStream 2 [] opened_pipe letters out two_read []
io61_read_cache-Reads_example =
    io61_read_cache-Reads fifo fifo-IsStream 2 2 (some (b'a' ∷ b'b' ∷ [])) opened_pipe two_read
      letters [] opened-IsReader refl two_bytes

fifo-IsPersistent : IsPersistent fifo
fifo-IsPersistent = record {
  retries = λ bytes. 0;
  fewer = λ os after n e. cc;
  no_more = λ os after n bytes e. omega arith;
  gives_up = λ os after n e. omega arith;
}

one_char :
    io61_readc fifo 2 opened_pipe letters ≡ returns (some b'a') (record two_read { pos_tag = 1 }) []
unfolding io61_readc take_char refill io61_fill fill_loop
one_char = refl

io61_readc-io61_read_cache_example :
    io61_readc fifo 2 opened_pipe letters ≡ as_char (io61_read_cache fifo 2 1 opened_pipe letters)
io61_readc-io61_read_cache_example =
    io61_readc-io61_read_cache fifo fifo-IsStream 2 opened_pipe letters opened-IsReader refl

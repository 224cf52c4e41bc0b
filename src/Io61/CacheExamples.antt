-- ===== src/Io61/CacheExamples.antt =====
-- Writing through the cache of pset4/io61.cc to a system that writes at most three bytes at a time,
-- after a number of interruptions.
use cs61_f23_psets_tomkhe.Prelude.{
  ℕ, zero, suc, ◌+◌, ◌≤◌, ◌<◌, ◌≡◌, refl, ◌≢◌, inl, inr, min, true, false, Option, some, List, [],
  ◌∷◌, ◌++◌, arith, length, take,
}
use cs61_f23_psets_tomkhe.Io61.Cache.{
  write_only, Cached, WriteResult, wrote, interrupted, write_error, Kernel, returns, slice, copy_in,
  io61_flush_dirty, io61_flush, io61_writec, io61_write, make_room, write_loop, written, put_byte,
}
use cs61_f23_psets_tomkhe.Io61.Cache.Flushing.{IsSink, IsPatient, IsWriter}
use cs61_f23_psets_tomkhe.Io61.Cache.Delivery.{IsEmptied, Delivers, io61_flush-Delivers}
use cs61_f23_psets_tomkhe.Io61.Cache.Sending.{
  WriteOutcome, io61_write-Writes, WritesAll, no_more, one_more, all_bytes, write_then_flush,
}
use cs61_f23_psets_tomkhe.Io61.Cache.Characters.{PutOutcome, io61_writec-Outcome}
use cs61_f23_psets_tomkhe.Io61.Cache.Finishing.{io61_write_ends}

abbrev Disk : Type 0
Disk = List ℕ × ℕ

abbrev part : List ℕ → ℕ
part bytes = min 3 (length bytes)

abbrev slow_write : Disk → List ℕ → WriteResult × Disk
slow_write (bytes, suc n) more = (interrupted, (bytes, n))
slow_write (bytes, zero) more = (wrote (part more), (bytes ++ take (part more) more, zero))

abbrev slow : Kernel
slow = record {
  Os = Disk;
  write = slow_write;
  pwrite = λ d bytes off. slow_write d bytes;
  lseek = λ d off. (true, d);
}

slow-IsSink : IsSink slow
slow-IsSink = record {
  accepted = λ d. d.0;
  write_some = some_written;
  write_interrupted = stopped;
  write_failed = never;
  seek_keeps = λ d off. refl;
}
  where
    some_written :
        (d after : Disk) (bytes : List ℕ) (n : ℕ)
        → slow_write d bytes ≡ (wrote n, after)
        → (n ≤ length bytes) × (after.0 ≡ d.0 ++ take n bytes)
    some_written (b, suc m) after bytes n e = cc
    some_written (b, zero) after bytes n e =
        let n_is : part bytes ≡ n = cc in
        let after_is : (b ++ take (part bytes) bytes, zero) ≡ after = cc in
        rw (← after_is, ← n_is) (omega arith, refl)

    stopped :
        (d after : Disk) (bytes : List ℕ)
        → slow_write d bytes ≡ (interrupted, after)
        → after.0 ≡ d.0
    stopped (b, suc m) after bytes e = let after_is : (b, m) ≡ after = cc in rw (← after_is) refl
    stopped (b, zero) after bytes e = cc

    never :
        (d after : Disk) (bytes : List ℕ)
        → slow_write d bytes ≡ (write_error, after)
        → after.0 ≡ d.0
    never (b, suc m) after bytes e = cc
    never (b, zero) after bytes e = cc

slow-IsPatient : IsPatient slow
slow-IsPatient = record {
  interruptions = λ d. d.1;
  write_progress = progress;
  write_fewer = fewer;
  write_gives_up = never;
  seek_patient = λ d off. omega arith;
}
  where
    progress :
        (d after : Disk) (bytes : List ℕ) (n : ℕ)
        → bytes ≢ []
        → slow_write d bytes ≡ (wrote n, after)
        → (0 < n) × (after.1 ≤ d.1)
    progress (b, suc m) after bytes n ne e = cc
    progress (b, zero) after [] n ne e = absurd (ne refl)
    progress (b, zero) after (x ∷ bytes) n ne e =
        let n_is : part (x ∷ bytes) ≡ n = cc in
        let after_is : (b ++ take (part (x ∷ bytes)) (x ∷ bytes), zero) ≡ after = cc in
        rw (← after_is, ← n_is) (omega arith, omega arith)

    fewer :
        (d after : Disk) (bytes : List ℕ)
        → slow_write d bytes ≡ (interrupted, after)
        → after.1 < d.1
    fewer (b, suc m) after bytes e =
        let after_is : (b, m) ≡ after = cc in rw (← after_is) (omega arith)
    fewer (b, zero) after bytes e = cc

    never :
        (d after : Disk) (bytes : List ℕ)
        → slow_write d bytes ≡ (write_error, after)
        → after.1 ≤ d.1
    never (b, suc m) after bytes e = cc
    never (b, zero) after bytes e = cc

abbrev fresh : Cached
fresh = record {
  mode = write_only;
  seekable = false;
  cbuf = λ i. 0;
  tag = 0;
  pos_tag = 0;
  end_tag = 0;
  map_failed = false;
  dirty = false;
  positioned = false;
}

fresh-IsEmptied : IsEmptied fresh
fresh-IsEmptied = (
  record {
    mode_is = refl;
    not_positioned = refl;
    tag_le = omega arith;
    pos_is = refl;
    fits = omega arith;
    clean = inr refl;
  },
  refl,
)

abbrev digits : ℕ → ℕ
digits i = b'0' + i

abbrev five_written : Cached
five_written = record fresh {
  cbuf = copy_in 0 digits 0 5 (λ i. 0);
  pos_tag = 5;
  end_tag = 5;
  dirty = true;
}

abbrev idle : Disk
idle = ([], 2)

five_bytes : io61_write slow 9000 digits 5 fresh idle ≡ returns (some 5) five_written idle
unfolding io61_write make_room write_loop written
five_bytes = refl

io61_write-Writes_example :
    WriteOutcome slow slow-IsSink digits 5 fresh idle (some 5) five_written idle
io61_write-Writes_example =
    io61_write-Writes slow slow-IsSink 9000 5 digits (some 5) fresh five_written idle idle
      fresh-IsEmptied.0 five_bytes

abbrev sent_digits : Disk
sent_digits = (b'0' ∷ b'1' ∷ b'2' ∷ b'3' ∷ b'4' ∷ [], 0)

abbrev flushed : Cached
flushed = record five_written { dirty = false; tag = 5 }

flush_run : io61_flush slow 9000 five_written idle ≡ returns true flushed sent_digits
unfolding io61_flush io61_flush_dirty slice
flush_run = refl

five_all : WritesAll slow slow-IsSink 9000 ((digits, 5) ∷ []) fresh idle five_written idle
five_all =
    one_more digits 5 [] fresh five_written five_written idle idle idle five_bytes
      (no_more five_written idle)

write_then_flush_example : sent_digits.0 ≡ [] ++ all_bytes slow slow-IsSink ((digits, 5) ∷ [])
unfolding slow-IsSink slice
write_then_flush_example =
    write_then_flush slow slow-IsSink 9000 ((digits, 5) ∷ []) fresh five_written flushed idle idle
      sent_digits fresh-IsEmptied five_all flush_run

five-IsWriter : IsWriter five_written
five-IsWriter = record {
  mode_is = refl;
  not_positioned = refl;
  tag_le = omega arith;
  pos_is = refl;
  fits = omega arith;
  clean = inl refl;
}

io61_flush-Delivers_example : Delivers slow slow-IsSink five_written idle true flushed sent_digits
io61_flush-Delivers_example =
    io61_flush-Delivers slow slow-IsSink 9000 five_written flushed idle sent_digits true
      five-IsWriter flush_run

abbrev one_put : Cached
one_put = record fresh {
  cbuf = copy_in 0 (λ i. b'x') 0 1 (λ i. 0);
  pos_tag = 1;
  end_tag = 1;
  dirty = true;
}

put_run : io61_writec slow 9000 b'x' fresh idle ≡ returns true one_put idle
unfolding io61_writec make_room put_byte
put_run = refl

io61_writec-Outcome_example : PutOutcome slow slow-IsSink b'x' fresh idle true one_put idle
io61_writec-Outcome_example =
    io61_writec-Outcome slow slow-IsSink 9000 b'x' fresh one_put idle idle true fresh-IsEmptied.0
      put_run

io61_write_ends_example :
    (r : Option ℕ) × (g : Cached) × (after : Disk) × (io61_write slow 9000 digits 5 fresh idle
      ≡ returns r g after)
unfolding slow-IsPatient
io61_write_ends_example =
    io61_write_ends slow slow-IsSink slow-IsPatient 9000 5 digits fresh idle fresh-IsEmptied.0
      (omega arith)

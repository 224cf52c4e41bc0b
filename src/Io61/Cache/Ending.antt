-- ===== src/Io61/Cache/Ending.antt =====
-- The loop of `io61_flush` of pset4/io61.cc ends.
use cs61_f23_psets_tomkhe.Prelude.{
  ℕ, zero, suc, ◌+◌, ◌-◌, ◌≤◌, ◌<◌, ◌≡◌, refl, ◌≢◌, inl, inr, Bool, true, false, [], arith, ◌==◌,
  ==_iff, Bool-cases, length,
}
use cs61_f23_psets_tomkhe.Io61.Cache.{
  Cached, WriteResult, wrote, interrupted, write_error, Kernel, Result, returns, emptied,
  io61_flush_dirty, io61_flush,
}
use cs61_f23_psets_tomkhe.Io61.Cache.Bytes.{length-slice}
use cs61_f23_psets_tomkhe.Io61.Cache.Flushing.{
  IsSink, IsPatient, IsWriter, rest_of, flush_done, flush_round, after_answer, flush_dirty_is,
  flush_seeks, flush_stays, sought,
}

module _ (k : Kernel) (s : IsSink k) (p : IsPatient k) where
  abbrev pub Ends : k.Os → Result k.Os Bool → Type 0
  Ends os r =
      (ok : Bool) × (g : Cached) × (after : k.Os) × (r ≡ returns ok g after)
      × (p.interruptions after ≤ p.interruptions os)

  module _ (fuel i : ℕ) (f : Cached) (os : k.Os) where
    round-Ends :
        (r : WriteResult × k.Os)
        → k.write os (rest_of (f.tag + i) f) ≡ r
        → f.tag + i < f.end_tag
        → f.end_tag - (f.tag + i) + p.interruptions os < suc fuel
        → ((j : ℕ) (o : k.Os)
            → f.tag + j ≤ f.end_tag
            → f.end_tag - (f.tag + j) + p.interruptions o < fuel
            → Ends o (io61_flush_dirty k fuel (f.tag + j) f o))
        → Ends os (after_answer k fuel (f.tag + i) f os r)
    round-Ends (wrote n, o) w lt enough rest =
        let size_is = length-slice f.cbuf (f.tag + i - f.tag) (f.end_tag - (f.tag + i)) in
        let short = (s.write_some os o _ n w).0 in
        let (some_sent, no_more) = p.write_progress os o _ n (bytes_left size_is) w in
        let step : f.tag + i + n ≡ f.tag + (i + n) = omega arith in
        let (ok, g, after, e, le) = rest (i + n) o (omega arith) (omega arith) in
        (ok, g, after, rw step e, omega arith)
      where
        bytes_left :
            length (rest_of (f.tag + i) f) ≡ f.end_tag - (f.tag + i) → rest_of (f.tag + i) f ≢ []
        bytes_left size_is z =
            let none_left : length (rest_of (f.tag + i) f) ≡ 0 = rw z refl in omega arith
    round-Ends (interrupted, o) w lt enough rest =
        let fewer = p.write_fewer os o _ w in
        let (ok, g, after, e, le) = rest i o (omega arith) (omega arith) in
        (ok, g, after, e, omega arith)
    round-Ends (write_error, o) w lt enough rest = (false, f, o, refl, p.write_gives_up os o _ w)

  flush_dirty-Ends :
      (fuel i : ℕ) (f : Cached) (os : k.Os)
      → f.tag + i ≤ f.end_tag
      → f.end_tag - (f.tag + i) + p.interruptions os < fuel
      → Ends os (io61_flush_dirty k fuel (f.tag + i) f os)
  flush_dirty-Ends zero i f os le enough = absurd (omega arith)
  flush_dirty-Ends (suc fuel) i f os le enough = elim (Bool-cases (f.tag + i == f.end_tag)) [
    | inl d ↦ (true, emptied f, os, flush_done k fuel (f.tag + i) f os d, omega arith)
    | inr d ↦
        let lt : f.tag + i < f.end_tag = ground (arith, ==_iff (f.tag + i) f.end_tag) in
        rw (flush_round k fuel (f.tag + i) f os d)
          (round-Ends fuel i f os _ refl lt enough (λ j o. flush_dirty-Ends fuel j f o))
  ]

  -- A flush of a file that is open for writing returns, 0 or -1, if its fuel is more than the number
  -- of pending bytes and of interruptions yet to come.
  pub io61_flush-Ends :
      (fuel : ℕ) (f : Cached) (os : k.Os)
      → IsWriter f
      → f.end_tag - f.tag + p.interruptions os < fuel
      → Ends os (io61_flush k fuel f os)
  io61_flush-Ends fuel f os w enough = elim (Bool-cases f.dirty) [
    | inl d ↦
        let z : f.tag + 0 ≡ f.tag = omega arith in
        rw (flush_dirty_is k f os w fuel d)
          (rw z at (flush_dirty-Ends fuel 0 f os (omega (arith, w.tag_le)) (rw z enough)))
    | inr d ↦ elim (Bool-cases f.seekable) [
      | inl y ↦
          rw (flush_seeks k f os w fuel d y)
            (seek_ends (k.lseek os f.pos_tag) (p.seek_patient os f.pos_tag))
      | inr n ↦ (true, f, os, flush_stays k f os w fuel d n, omega arith)
    ]
  ]
    where
      seek_ends :
          (r : Bool × k.Os) → p.interruptions r.1 ≤ p.interruptions os → Ends os (sought k f r)
      seek_ends (true, o) le = (true, _, o, refl, le)
      seek_ends (false, o) le = (false, f, o, refl, le)

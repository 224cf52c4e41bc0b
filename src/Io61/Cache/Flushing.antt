-- ===== src/Io61/Cache/Flushing.antt =====
-- `io61_flush` of pset4/io61.cc on a file open for writing: what reaches the system, and that the
-- loop ends.
use cs61_f23_psets_tomkhe.Prelude.{
  choose_true, choose_false, ℕ, zero, suc, ◌+◌, ◌-◌, ◌≤◌, ◌<◌, ◌≡◌, refl, sym, ap, ◌∙◌, ◌≢◌, ◌⊎◌,
  inl, inr, Bool, true, false, not, ◌&&◌, List, [], ◌++◌, arith, ◌==◌, ==_iff, Bool-cases, length,
  take,
}
use mathlib.Core.List.{append-nil, append_assoc}
use cs61_f23_psets_tomkhe.Io61.Cache.{
  cbufsz, write_only, Cached, WriteResult, wrote, interrupted, write_error, Kernel, Result, returns,
  unfinished, slice, emptied, io61_flush_dirty, io61_flush_clean, io61_flush,
}
use cs61_f23_psets_tomkhe.Io61.Cache.Bytes.{length-slice, slice-append, take-slice}

-- What `write` documents: the bytes that it says it wrote are the first of the given ones, and they
-- follow what was written before; when it fails, nothing is written. `lseek` writes nothing.
pub record IsSink (k : Kernel) : Type 0 where
  pub accepted : k.Os → List ℕ
  pub write_some :
      (os after : k.Os) (bytes : List ℕ) (n : ℕ)
      → k.write os bytes ≡ (wrote n, after)
      → (n ≤ length bytes) × (accepted after ≡ accepted os ++ take n bytes)
  pub write_interrupted :
      (os after : k.Os) (bytes : List ℕ)
      → k.write os bytes ≡ (interrupted, after)
      → accepted after ≡ accepted os
  pub write_failed :
      (os after : k.Os) (bytes : List ℕ)
      → k.write os bytes ≡ (write_error, after)
      → accepted after ≡ accepted os
  pub seek_keeps : (os : k.Os) (off : ℕ) → accepted (k.lseek os off).1 ≡ accepted os

-- Of some bytes, `write` writes at least one, but for a number of interruptions yet to come.
pub record IsPatient (k : Kernel) : Type 0 where
  pub interruptions : k.Os → ℕ
  pub write_progress :
      (os after : k.Os) (bytes : List ℕ) (n : ℕ)
      → bytes ≢ []
      → k.write os bytes ≡ (wrote n, after)
      → (0 < n) × (interruptions after ≤ interruptions os)
  pub write_fewer :
      (os after : k.Os) (bytes : List ℕ)
      → k.write os bytes ≡ (interrupted, after)
      → interruptions after < interruptions os
  pub write_gives_up :
      (os after : k.Os) (bytes : List ℕ)
      → k.write os bytes ≡ (write_error, after)
      → interruptions after ≤ interruptions os
  pub seek_patient : (os : k.Os) (off : ℕ) → interruptions (k.lseek os off).1 ≤ interruptions os

-- The bytes that the cache has not sent.
abbrev pub pending : Cached → List ℕ
pending f = slice f.cbuf 0 (f.end_tag - f.tag)

-- The state of a file that was opened for writing only.
pub record IsWriter (f : Cached) : Type 0 where
  pub mode_is : f.mode ≡ write_only
  pub not_positioned : f.positioned ≡ false
  pub tag_le : f.tag ≤ f.end_tag
  pub pos_is : f.pos_tag ≡ f.end_tag
  pub fits : f.end_tag ≤ f.tag + cbufsz
  pub clean : (f.dirty ≡ true) ⊎ (f.end_tag ≡ f.tag)

abbrev pub rest_of : ℕ → Cached → List ℕ
rest_of flush_tag f = slice f.cbuf (flush_tag - f.tag) (f.end_tag - flush_tag)

module _ (k : Kernel) (fuel flush_tag : ℕ) (f : Cached) (os : k.Os) where
  pub flush_done :
      (flush_tag == f.end_tag) ≡ true
      → io61_flush_dirty k (suc fuel) flush_tag f os ≡ returns true (emptied f) os
  unfolding io61_flush_dirty
  flush_done d = rw (io61_flush_dirty, d) refl

  -- One round of the loop, by what `write` answers.
  abbrev pub after_answer : WriteResult × k.Os → Result k.Os Bool
  after_answer (wrote n, o) = io61_flush_dirty k fuel (flush_tag + n) f o
  after_answer (interrupted, o) = io61_flush_dirty k fuel flush_tag f o
  after_answer (write_error, o) = returns false f o

  answered :
      (r : WriteResult × k.Os)
      → elim r.0 [
        | wrote n ↦ io61_flush_dirty k fuel (flush_tag + n) f r.1
        | interrupted ↦ io61_flush_dirty k fuel flush_tag f r.1
        | write_error ↦ returns false f r.1
      ]
        ≡ after_answer r
  answered (wrote n, o) = refl
  answered (interrupted, o) = refl
  answered (write_error, o) = refl

  pub flush_round :
      (flush_tag == f.end_tag) ≡ false
      → io61_flush_dirty k (suc fuel) flush_tag f os
        ≡ after_answer (k.write os (rest_of flush_tag f))
  unfolding io61_flush_dirty
  flush_round d = rw (io61_flush_dirty, d) (answered (k.write os (rest_of flush_tag f)))

module _ (k : Kernel) (f : Cached) where
  abbrev pub sought : Bool × k.Os → Result k.Os Bool
  sought (true, o) = returns true (record f { tag = f.pos_tag; end_tag = f.pos_tag }) o
  sought (false, o) = returns false f o

  sought_is :
      (r : Bool × k.Os)
      → elim r.0 [
        | true ↦ returns true (record f { tag = f.pos_tag; end_tag = f.pos_tag }) r.1
        | false ↦ returns false f r.1
      ]
        ≡ sought r
  sought_is (true, o) = refl
  sought_is (false, o) = refl

module _ (k : Kernel) (f : Cached) (os : k.Os) (w : IsWriter f) where
  pub flush_dirty_is :
      (fuel : ℕ) → f.dirty ≡ true → io61_flush k fuel f os ≡ io61_flush_dirty k fuel f.tag f os
  unfolding io61_flush
  flush_dirty_is fuel d = let still = w.not_positioned in rw (io61_flush, d, still) refl

  flush_clean_is : (fuel : ℕ) → f.dirty ≡ false → io61_flush k fuel f os ≡ io61_flush_clean k f os
  unfolding io61_flush
  flush_clean_is fuel d =
      choose_false (f.dirty && f.positioned) _ _ (ground arith) ∙ choose_false f.dirty _ _ d

  pub flush_seeks :
      (fuel : ℕ)
      → f.dirty ≡ false
      → f.seekable ≡ true
      → io61_flush k fuel f os ≡ sought k f (k.lseek os f.pos_tag)
  unfolding io61_flush_clean
  flush_seeks fuel d y =
      flush_clean_is fuel d
      ∙ choose_true (not f.positioned && f.seekable) _ _ (ground (arith, w.not_positioned))
      ∙ sought_is k f (k.lseek os f.pos_tag)

  pub flush_stays :
      (fuel : ℕ) → f.dirty ≡ false → f.seekable ≡ false → io61_flush k fuel f os ≡ returns true f os
  unfolding io61_flush_clean
  flush_stays fuel d n =
      flush_clean_is fuel d ∙ choose_false (not f.positioned && f.seekable) _ _ (ground arith)

module _ (k : Kernel) (s : IsSink k) where
  -- A flush from byte `i` of the cache on sends them all and empties the cache; or it fails, has
  -- sent the first of them, and keeps the cache as it was.
  abbrev pub Sends : ℕ → Cached → k.Os → Bool → Cached → k.Os → Type 0
  Sends i f os true g after =
      (g ≡ emptied f) × (s.accepted after ≡ s.accepted os ++ slice f.cbuf i (f.end_tag - f.tag - i))
  Sends i f os false g after =
      (g ≡ f)
      × (n : ℕ) × (n ≤ f.end_tag - f.tag - i)
      × (s.accepted after ≡ s.accepted os ++ slice f.cbuf i n)

  more-Sends :
      (i n : ℕ) (f g : Cached) (os o after : k.Os) (ok : Bool)
      → f.tag + i + n ≤ f.end_tag
      → s.accepted o ≡ s.accepted os ++ slice f.cbuf i n
      → Sends (i + n) f o ok g after
      → Sends i f os ok g after
  more-Sends i n f g os o after true le sent (same, rest) =
      let split : n + (f.end_tag - f.tag - (i + n)) ≡ f.end_tag - f.tag - i = omega arith in
      (
        same,
        rest
            ∙ ap (λ l. l ++ slice f.cbuf (i + n) (f.end_tag - f.tag - (i + n))) sent
            ∙ append_assoc (s.accepted os) (slice f.cbuf i n) _
            ∙ ap (◌++◌ (s.accepted os))
                (sym (slice-append f.cbuf i n _) ∙ ap (slice f.cbuf i) split),
      )
  more-Sends i n f g os o after false le sent (same, m, short, rest) = (
    same,
    n + m,
    omega arith,
    rest
        ∙ ap (λ l. l ++ slice f.cbuf (i + n) m) sent
        ∙ append_assoc (s.accepted os) (slice f.cbuf i n) _
        ∙ ap (◌++◌ (s.accepted os)) (sym (slice-append f.cbuf i n m)),
  )

  module _ (fuel i : ℕ) (f g : Cached) (os after : k.Os) (ok : Bool) where
    done-Sends :
        f.tag + i ≡ f.end_tag
        → ◌≡◌ {A = Result k.Os Bool} (returns true (emptied f) os) (returns ok g after)
        → Sends i f os ok g after
    done-Sends d e =
        let ok_is : true ≡ ok = cc in
        let g_is : emptied f ≡ g = cc in
        let after_is : os ≡ after = cc in
        let none_left : f.end_tag - f.tag - i ≡ 0 = omega arith in
        rw (← ok_is, ← g_is, ← after_is)
          (refl, rw none_left (unfold slice in sym (append-nil (s.accepted os))))

    failed-Sends :
        (o : k.Os)
        → s.accepted o ≡ s.accepted os
        → ◌≡◌ {A = Result k.Os Bool} (returns false f o) (returns ok g after)
        → Sends i f os ok g after
    failed-Sends o same e =
        let ok_is : false ≡ ok = cc in
        let g_is : f ≡ g = cc in
        let after_is : o ≡ after = cc in
        rw (← ok_is, ← g_is, ← after_is)
          (refl, 0, omega arith, unfold slice in (same ∙ sym (append-nil (s.accepted os))))

    round-Sends :
        (r : WriteResult × k.Os)
        → k.write os (rest_of (f.tag + i) f) ≡ r
        → f.tag + i ≤ f.end_tag
        → f.tag + i ≢ f.end_tag
        → ((j : ℕ) (o : k.Os)
            → f.tag + j ≤ f.end_tag
            → io61_flush_dirty k fuel (f.tag + j) f o ≡ returns ok g after
            → Sends j f o ok g after)
        → io61_flush_dirty k (suc fuel) (f.tag + i) f os ≡ returns ok g after
        → Sends i f os ok g after
    round-Sends (wrote n, o) w le ne rest e =
        let (short, sent) = s.write_some os o _ n w in
        let from : f.tag + i - f.tag ≡ i = omega arith in
        let size_is = length-slice f.cbuf (f.tag + i - f.tag) (f.end_tag - (f.tag + i)) in
        let differs : (f.tag + i == f.end_tag) ≡ false =
          ground (arith, ==_iff (f.tag + i) f.end_tag) in
        let within : f.tag + i + n ≤ f.end_tag = omega arith in
        let step : f.tag + i + n ≡ f.tag + (i + n) = omega arith in
        more-Sends i n f g os o after ok within
          (sent
            ∙ ap (◌++◌ (s.accepted os)) (
                take-slice f.cbuf (f.tag + i - f.tag) _ n (omega arith)
                ∙ ap (λ x. slice f.cbuf x n) from))
          (rest (i + n) o (omega arith) (
            rw step at (
              sym (ap (after_answer k fuel (f.tag + i) f os) w)
              ∙ sym (flush_round k fuel (f.tag + i) f os differs)
              ∙ e)))
    round-Sends (interrupted, o) w le ne rest e =
        let differs : (f.tag + i == f.end_tag) ≡ false =
          ground (arith, ==_iff (f.tag + i) f.end_tag) in
        more-Sends i 0 f g os o after ok (omega arith)
          (s.write_interrupted os o _ w ∙ unfold slice in sym (append-nil (s.accepted os)))
          (let z : i + 0 ≡ i = omega arith in
            rw z (
              rest i o le (
                sym (ap (after_answer k fuel (f.tag + i) f os) w)
                ∙ sym (flush_round k fuel (f.tag + i) f os differs)
                ∙ e)))
    round-Sends (write_error, o) w le ne rest e =
        let differs : (f.tag + i == f.end_tag) ≡ false =
          ground (arith, ==_iff (f.tag + i) f.end_tag) in
        failed-Sends o (s.write_failed os o _ w) (
          sym (ap (after_answer k fuel (f.tag + i) f os) w)
          ∙ sym (flush_round k fuel (f.tag + i) f os differs)
          ∙ e)

  pub flush_dirty-Sends :
      (fuel i : ℕ) (f g : Cached) (os after : k.Os) (ok : Bool)
      → f.tag + i ≤ f.end_tag
      → io61_flush_dirty k fuel (f.tag + i) f os ≡ returns ok g after
      → Sends i f os ok g after
  flush_dirty-Sends zero i f g os after ok le e =
      let e' : ◌≡◌ {A = Result k.Os Bool} unfinished (returns ok g after) =
        unfold io61_flush_dirty in e in
      cc
  flush_dirty-Sends (suc fuel) i f g os after ok le e = elim (Bool-cases (f.tag + i == f.end_tag)) [
    | inl d ↦
        done-Sends fuel i f g os after ok (ground (arith, ==_iff (f.tag + i) f.end_tag))
          (sym (flush_done k fuel (f.tag + i) f os d) ∙ e)
    | inr n ↦
        round-Sends fuel i f g os after ok _ refl le (ground (arith, ==_iff (f.tag + i) f.end_tag))
          (λ j o. flush_dirty-Sends fuel j f g o after ok) e
  ]

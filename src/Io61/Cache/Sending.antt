-- ===== src/Io61/Cache/Sending.antt =====
-- `io61_write` of pset4/io61.cc: its bytes reach the system once, and in order, or a flush fails.
use cs61_f23_psets_tomkhe.Prelude.{
  choose_true, Option, some, none, ℕ, zero, suc, ◌+◌, ◌-◌, ◌≤◌, ◌<◌, ◌≡◌, refl, sym, ap, ◌∙◌, ◌≢◌,
  ◌⊎◌, inl, inr, Bool, true, false, not, ◌&&◌, ◌||◌, List, [], ◌∷◌, ◌++◌, arith, ltb, ◌==◌,
  if◌then◌else◌, Bool-cases,
}
use mathlib.Core.List.{append-nil, append_assoc}
use cs61_f23_psets_tomkhe.Io61.Cache.{
  cbufsz, Cached, Kernel, Result, returns, asserts, unfinished, slice, io61_flush, make_room,
  write_loop, put, io61_write, written, io61_check_assertions,
}
use cs61_f23_psets_tomkhe.Io61.Cache.Flushing.{IsSink, pending, IsWriter}
use cs61_f23_psets_tomkhe.Io61.Cache.Delivery.{IsEmptied, io61_flush-Delivers}
use cs61_f23_psets_tomkhe.Io61.Cache.Writing.{
  pending-empty, room, after_room, write_done, write_round, put_round, pending-put, put-IsWriter,
  make_room-HasRoom, Writes, finished-Writes, failed-Writes, later-Writes,
}

Bool_differ : true ≡ false → ⊥
Bool_differ e = cc

pub writer-checks : (f : Cached) → IsWriter f → (io61_check_assertions f && not f.positioned) ≡ true
writer-checks f w = ground (arith, w.mode_is, w.not_positioned, w.pos_is, w.tag_le)

module _ (k : Kernel) (s : IsSink k) where
  round-Writes :
      (fuel rounds : ℕ) (buf : ℕ → ℕ) (sz nwritten n : ℕ) (f g : Cached) (os after : k.Os)
      → IsWriter f
      → nwritten < sz
      → ((c : ℕ) (h : Cached) (o : k.Os)
          → IsWriter h
          → nwritten + c ≤ sz
          → write_loop k fuel rounds buf sz (nwritten + c) h o ≡ returns n g after
          → Writes k s buf sz (nwritten + c) h o n g after)
      → (r : Result k.Os Bool) → make_room k fuel f os ≡ r
      → after_room k fuel rounds buf sz nwritten r ≡ returns n g after
      → Writes k s buf sz nwritten f os n g after
  round-Writes fuel rounds buf sz nwritten n f g os after w lt rest asserts m e =
      let e' : ◌≡◌ {A = Result k.Os ℕ} asserts (returns n g after) = e in cc
  round-Writes fuel rounds buf sz nwritten n f g os after w lt rest unfinished m e =
      let e' : ◌≡◌ {A = Result k.Os ℕ} unfinished (returns n g after) = e in cc
  round-Writes fuel rounds buf sz nwritten n f g os after w lt rest (returns false h o) m e =
      elim (make_room-HasRoom k s fuel f h os o false w m) [
        | inl (bad, x) ↦ cc
        | inr (bad, fails) ↦ failed-Writes k s buf sz nwritten n f h g os o after w lt fails e
      ]
  round-Writes fuel rounds buf sz nwritten n f g os after w lt rest (returns true h o) m e =
      elim (make_room-HasRoom k s fuel f h os o true w m) [
        | inr (bad, x) ↦ cc
        | inl (good, (wh, free, same)) ↦
            let c = room h sz nwritten in
            let some_room : c ≢ 0 = ground (arith, wh.pos_is) in
            let fits : h.end_tag + c ≤ h.tag + cbufsz = ground (arith, wh.pos_is, wh.fits) in
            let inside : nwritten + c ≤ sz = ground arith in
            let added : s.accepted o ++ pending (put k buf nwritten c h)
                ≡ (s.accepted os ++ pending f) ++ slice buf nwritten c =
              ap (◌++◌ (s.accepted o)) (pending-put k fuel rounds buf sz nwritten c h wh)
              ∙ sym (append_assoc (s.accepted o) (pending h) _)
              ∙ ap (λ l. l ++ slice buf nwritten c) same in
            later-Writes k s buf sz nwritten c n f (put k buf nwritten c h) g os o after inside
              added
              (rest c (put k buf nwritten c h) o
                (put-IsWriter k fuel rounds buf sz nwritten c h wh fits) inside
                (sym (put_round k fuel rounds buf sz nwritten h o some_room) ∙ e))
      ]

  write_loop-Writes :
      (fuel rounds : ℕ) (buf : ℕ → ℕ) (sz nwritten n : ℕ) (f g : Cached) (os after : k.Os)
      → IsWriter f
      → nwritten ≤ sz
      → write_loop k fuel rounds buf sz nwritten f os ≡ returns n g after
      → Writes k s buf sz nwritten f os n g after
  write_loop-Writes fuel zero buf sz nwritten n f g os after w le e =
      let e' : ◌≡◌ {A = Result k.Os ℕ} unfinished (returns n g after) = unfold write_loop in e in cc
  write_loop-Writes fuel (suc rounds) buf sz nwritten n f g os after w le e =
      elim (Bool-cases (ltb nwritten sz)) [
        | inr d ↦
            finished-Writes k s buf sz nwritten n f g os after w (ground arith)
              (sym (write_done k fuel rounds buf sz nwritten f os d) ∙ e)
        | inl d ↦
            round-Writes fuel rounds buf sz nwritten n f g os after w (ground arith)
              (λ c h o. write_loop-Writes fuel rounds buf sz (nwritten + c) n h g o after) _ refl
              (sym (write_round k fuel rounds buf sz nwritten f os d) ∙ e)
      ]

  -- The rest of the statement for `io61_write`, by what it returns: `sz`, or less after a flush that
  -- failed, with -1 for nothing.
  abbrev pub WriteOutcome : (ℕ → ℕ) → ℕ → Cached → k.Os → Option ℕ → Cached → k.Os → Type 0
  WriteOutcome buf sz f os r g after =
      ((r ≡ some sz)
        × IsWriter g
        × (s.accepted after ++ pending g ≡ (s.accepted os ++ pending f) ++ slice buf 0 sz))
      ⊎ ((n : ℕ) × (r ≡ (if n == 0 then none else some n))
          × (n < sz)
          × IsWriter g
          × (m : ℕ) × (sent : List ℕ) × (m ≤ g.end_tag - g.tag)
          × (s.accepted after ≡ sent ++ slice g.cbuf 0 m)
          × (sent ++ pending g ≡ (s.accepted os ++ pending f) ++ slice buf 0 n))

  written-loop :
      (sz : ℕ) (R : Result k.Os ℕ) (r : Option ℕ) (g : Cached) (after : k.Os)
      → written k sz R ≡ returns r g after
      → (n : ℕ) × (R ≡ returns n g after) × (r ≡ (if not (n == 0) || sz == 0 then some n else none))
  unfolding written
  written-loop sz asserts r g after e =
      let e' : ◌≡◌ {A = Result k.Os (Option ℕ)} asserts (returns r g after) = e in cc
  written-loop sz unfinished r g after e =
      let e' : ◌≡◌ {A = Result k.Os (Option ℕ)} unfinished (returns r g after) = e in cc
  written-loop sz (returns n h o) r g after e =
      let g_is : h ≡ g = cc in
      let after_is : o ≡ after = cc in
      let r_is : (if not (n == 0) || sz == 0 then some n else none) ≡ r = cc in
      (n, rw (g_is, after_is) refl, sym r_is)

  -- On a file open for writing, `io61_write` returns `sz`, and the bytes sent with those in the
  -- cache are those of before and then the `sz` given ones, once and in order; or a flush has
  -- failed, it returns the number `n` of bytes that it took, or -1 for none, and the bytes taken
  -- are all there, but the first `m` of those in the cache were sent too and will be sent again.
  pub io61_write-Writes :
      (fuel sz : ℕ) (buf : ℕ → ℕ) (r : Option ℕ) (f g : Cached) (os after : k.Os)
      → IsWriter f
      → io61_write k fuel buf sz f os ≡ returns r g after
      → WriteOutcome buf sz f os r g after
  unfolding io61_write
  io61_write-Writes fuel sz buf r f g os after w e =
      let (n, run, r_is) = written-loop sz (write_loop k fuel (sz + 1) buf sz 0 f os) r g after (
        sym (choose_true (io61_check_assertions f && not f.positioned) _ _ (writer-checks f w))
        ∙ e) in
      elim (write_loop-Writes fuel (sz + 1) buf sz 0 n f g os after w (omega arith) run) [
        | inl (all, wg, sent) ↦
            let z : sz - 0 ≡ sz = omega arith in inl (r_is ∙ ground arith, wg, rw z at sent)
        | inr (lt, le, wg, m, sent, short, first, rest) ↦
            let z : n - 0 ≡ n = omega arith in
            inr (n, r_is ∙ ground arith, lt, wg, m, sent, short, first, rw z at rest)
      ]

  -- `io61_write` calls one after the other, each of which writes all of its bytes.
  pub data WritesAll (fuel : ℕ) : List ((ℕ → ℕ) × ℕ) → Cached → k.Os → Cached → k.Os → Type 0 where
    no_more : (f : Cached) (os : k.Os) → WritesAll fuel [] f os f os
    one_more :
        (buf : ℕ → ℕ) (sz : ℕ) (bs : List ((ℕ → ℕ) × ℕ)) (f h g : Cached) (os o after : k.Os)
        → io61_write k fuel buf sz f os ≡ returns (some sz) h o
        → WritesAll fuel bs h o g after
        → WritesAll fuel ((buf, sz) ∷ bs) f os g after

  abbrev pub all_bytes : List ((ℕ → ℕ) × ℕ) → List ℕ
  all_bytes [] = []
  all_bytes ((buf, sz) ∷ bs) = slice buf 0 sz ++ all_bytes bs

  all-Writes :
      (fuel : ℕ) (bs : List ((ℕ → ℕ) × ℕ)) (f g : Cached) (os after : k.Os)
      → IsWriter f
      → WritesAll fuel bs f os g after
      → IsWriter g × (s.accepted after ++ pending g ≡ (s.accepted os ++ pending f) ++ all_bytes bs)
  all-Writes fuel bs f g os after w (no_more h o) = (w, sym (append-nil _))
  all-Writes fuel bs f g os after w (one_more buf sz cs a h b o p q e rest) =
      elim (io61_write-Writes fuel sz buf (some sz) a h o p w e) [
        | inl (full, wh, sent) ↦
            let (wg, later) = all-Writes fuel cs h b p q wh rest in
            (wg, later ∙ ap (λ l. l ++ all_bytes cs) sent ∙ append_assoc _ (slice buf 0 sz) _)
        | inr (n, r, lt, x1, x2, x3, x4, x5, x6) ↦ absurd (ground arith)
      ]

  -- What a program has written is what the system gets: after any calls of `io61_write` that each
  -- write all of their bytes, from an empty cache on, and a flush that returns 0, the bytes sent are
  -- those of before and then those of the calls, once and in order.
  pub write_then_flush :
      (fuel : ℕ) (bs : List ((ℕ → ℕ) × ℕ)) (f g h : Cached) (os mid after : k.Os)
      → IsEmptied f
      → WritesAll fuel bs f os g mid
      → io61_flush k fuel g mid ≡ returns true h after
      → s.accepted after ≡ s.accepted os ++ all_bytes bs
  write_then_flush fuel bs f g h os mid after w run e =
      let (wg, all) = all-Writes fuel bs f g os mid w.0 run in
      elim (io61_flush-Delivers k s fuel g h mid after true wg e) [
        | inl (good, empty, sent) ↦
            sent
            ∙ all
            ∙ ap (λ l. (s.accepted os ++ l) ++ all_bytes bs) (pending-empty f w.1)
            ∙ ap (λ l. l ++ all_bytes bs) (append-nil (s.accepted os))
        | inr bad ↦ absurd (Bool_differ bad.0)
      ]

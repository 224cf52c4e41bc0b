-- ===== src/Io61/Cache/Finishing.antt =====
-- `io61_write` of pset4/io61.cc returns.
use cs61_f23_psets_tomkhe.Prelude.{
  choose_true, choose_false, Option, ℕ, zero, suc, ◌+◌, ◌-◌, ◌≤◌, ◌<◌, ◌≡◌, refl, ap, ◌∙◌, ◌≢◌, inl,
  inr, Bool, true, false, not, ◌&&◌, arith, ltb, Bool-cases, ltb→lt,
}
use cs61_f23_psets_tomkhe.Io61.Cache.{
  cbufsz, Cached, Kernel, Result, returns, make_room, write_loop, put, is_full, io61_write, written,
  io61_check_assertions,
}
use cs61_f23_psets_tomkhe.Io61.Cache.Flushing.{IsSink, IsWriter, IsPatient}
use cs61_f23_psets_tomkhe.Io61.Cache.Writing.{
  room, after_room, write_done, write_round, put_round, put-IsWriter, make_room-HasRoom,
}
use cs61_f23_psets_tomkhe.Io61.Cache.Sending.{writer-checks}
use cs61_f23_psets_tomkhe.Io61.Cache.Ending.{Ends, io61_flush-Ends}

module _ (k : Kernel) (s : IsSink k) (p : IsPatient k) where
  make_room-Ends :
      (fuel : ℕ) (f : Cached) (os : k.Os)
      → IsWriter f
      → cbufsz + p.interruptions os < fuel
      → Ends k s p os (make_room k fuel f os)
  unfolding make_room
  make_room-Ends fuel f os w enough = elim (Bool-cases (is_full k f)) [
    | inl full ↦
        let (ok, g, after, e, le) = io61_flush-Ends k s p fuel f os w (omega (arith, w.fits)) in
        (ok, g, after, choose_true (is_full k f) _ _ full ∙ e, le)
    | inr short ↦ (true, f, os, choose_false (is_full k f) _ _ short, omega arith)
  ]

  abbrev LoopEnds : Result k.Os ℕ → Type 0
  LoopEnds r = (n : ℕ) × (g : Cached) × (after : k.Os) × (r ≡ returns n g after)

  round_ends :
      (fuel rounds : ℕ) (buf : ℕ → ℕ) (sz nwritten : ℕ) (f : Cached) (os : k.Os)
      → IsWriter f
      → nwritten < sz
      → cbufsz + p.interruptions os < fuel
      → ((c : ℕ) (h : Cached) (o : k.Os)
          → IsWriter h
          → 0 < c
          → cbufsz + p.interruptions o < fuel
          → LoopEnds (write_loop k fuel rounds buf sz (nwritten + c) h o))
      → (ok : Bool) (h : Cached) (o : k.Os) → p.interruptions o ≤ p.interruptions os
      → make_room k fuel f os ≡ returns ok h o
      → LoopEnds (after_room k fuel rounds buf sz nwritten (returns ok h o))
  round_ends fuel rounds buf sz nwritten f os w lt enough rest false h o le m =
      (nwritten, h, o, refl)
  round_ends fuel rounds buf sz nwritten f os w lt enough rest true h o le m =
      elim (make_room-HasRoom k s fuel f h os o true w m) [
        | inr (bad, x) ↦ cc
        | inl (good, (wh, free, same)) ↦
            let c = room h sz nwritten in
            let some_room : c ≢ 0 = ground (arith, wh.pos_is) in
            let fits : h.end_tag + c ≤ h.tag + cbufsz = ground (arith, wh.pos_is, wh.fits) in
            let (n, g, after, e) =
              rest c (put k buf nwritten c h) o
                (put-IsWriter k fuel rounds buf sz nwritten c h wh fits) (ground arith)
                (omega arith) in
            (n, g, after, put_round k fuel rounds buf sz nwritten h o some_room ∙ e)
      ]

  write_loop_ends :
      (fuel rounds : ℕ) (buf : ℕ → ℕ) (sz nwritten : ℕ) (f : Cached) (os : k.Os)
      → IsWriter f
      → sz - nwritten < rounds
      → cbufsz + p.interruptions os < fuel
      → LoopEnds (write_loop k fuel rounds buf sz nwritten f os)
  write_loop_ends fuel zero buf sz nwritten f os w few enough = absurd (omega arith)
  write_loop_ends fuel (suc rounds) buf sz nwritten f os w few enough =
      elim (Bool-cases (ltb nwritten sz)) [
        | inr d ↦ (nwritten, f, os, write_done k fuel rounds buf sz nwritten f os d)
        | inl d ↦
            let lt : nwritten < sz = ltb→lt nwritten sz d in
            let (ok, h, o, m, le) = make_room-Ends fuel f os w enough in
            let (n, g, after, e) =
              round_ends fuel rounds buf sz nwritten f os w lt enough
                (λ c a b wa pos more.
                  write_loop_ends fuel rounds buf sz (nwritten + c) a b wa (omega arith) more)
                ok h o le m in
            (
              n,
              g,
              after,
              write_round k fuel rounds buf sz nwritten f os d
                  ∙ ap (after_room k fuel rounds buf sz nwritten) m
                  ∙ e,
            )
      ]

  -- On a file open for writing, `io61_write` returns and fails no assertion, if each flush has more
  -- fuel than the cache has bytes and the system has interruptions yet to come.
  pub io61_write_ends :
      (fuel sz : ℕ) (buf : ℕ → ℕ) (f : Cached) (os : k.Os)
      → IsWriter f
      → cbufsz + p.interruptions os < fuel
      → (r : Option ℕ) × (g : Cached) × (after : k.Os) × (io61_write k fuel buf sz f os
          ≡ returns r g after)
  unfolding io61_write written
  io61_write_ends fuel sz buf f os w enough =
      let (n, g, after, e) = write_loop_ends fuel (sz + 1) buf sz 0 f os w (omega arith) enough in
      (
        _,
        g,
        after,
        choose_true (io61_check_assertions f && not f.positioned) _ _ (writer-checks f w)
            ∙ ap (written k sz) e,
      )

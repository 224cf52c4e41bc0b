-- ===== src/Io61/Cache/Delivery.antt =====
-- What `io61_flush` of pset4/io61.cc does with the bytes of a file open for writing.
use cs61_f23_psets_tomkhe.Prelude.{
  ℕ, ◌+◌, ◌-◌, ◌≤◌, ◌≡◌, refl, sym, ◌∙◌, ◌⊎◌, inl, inr, Bool, true, false, ◌++◌, arith, Bool-cases,
}
use mathlib.Core.List.{append-nil}
use cs61_f23_psets_tomkhe.Io61.Cache.{
  Cached, Kernel, Result, returns, slice, emptied, io61_flush_dirty, io61_flush,
}
use cs61_f23_psets_tomkhe.Io61.Cache.Flushing.{
  IsSink, pending, IsWriter, Sends, flush_dirty-Sends, flush_dirty_is, flush_seeks, flush_stays,
  sought,
}

abbrev pub IsEmptied : Cached → Type 0
IsEmptied g = IsWriter g × (g.end_tag ≡ g.tag)

emptied-IsEmptied : (f : Cached) → IsWriter f → IsEmptied (emptied f)
emptied-IsEmptied f w = (
  record {
    mode_is = w.mode_is;
    not_positioned = w.not_positioned;
    tag_le = omega arith;
    pos_is = refl;
    fits = omega arith;
    clean = inr refl;
  },
  refl,
)

sought-IsEmptied :
    (f : Cached)
    → IsWriter f
    → f.end_tag ≡ f.tag
    → IsEmptied (record f { tag = f.pos_tag; end_tag = f.pos_tag })
sought-IsEmptied f w idle = (
  record {
    mode_is = w.mode_is;
    not_positioned = w.not_positioned;
    tag_le = omega arith;
    pos_is = refl;
    fits = omega arith;
    clean = inr refl;
  },
  refl,
)

module _ (k : Kernel) (s : IsSink k) where
  -- All pending bytes are sent and the cache is empty; or the first of them, and nothing changes.
  abbrev pub Delivers : Cached → k.Os → Bool → Cached → k.Os → Type 0
  Delivers f os ok g after =
      ((ok ≡ true) × IsEmptied g × (s.accepted after ≡ s.accepted os ++ pending f))
      ⊎ ((ok ≡ false)
          × (g ≡ f)
          × (n : ℕ) × (n ≤ f.end_tag - f.tag)
          × (s.accepted after ≡ s.accepted os ++ slice f.cbuf 0 n))

  Sends-Delivers :
      (f g : Cached) (os after : k.Os) (ok : Bool)
      → IsWriter f
      → Sends k s 0 f os ok g after
      → Delivers f os ok g after
  Sends-Delivers f g os after true w (same, sent) =
      let z : f.end_tag - f.tag - 0 ≡ f.end_tag - f.tag = omega arith in
      inl (refl, rw same (emptied-IsEmptied f w), rw z at sent)
  Sends-Delivers f g os after false w (same, n, le, sent) = inr (refl, same, n, omega arith, sent)

  idle-Delivers :
      (f g : Cached) (os o after : k.Os) (ok : Bool)
      → IsWriter f
      → f.end_tag ≡ f.tag
      → s.accepted o ≡ s.accepted os
      → (h : Cached) → IsEmptied h
      → ◌≡◌ {A = Result k.Os Bool} (returns true h o) (returns ok g after)
      → Delivers f os ok g after
  idle-Delivers f g os o after ok w idle same h empty e =
      let ok_is : true ≡ ok = cc in
      let g_is : h ≡ g = cc in
      let after_is : o ≡ after = cc in
      let none_left : f.end_tag - f.tag ≡ 0 = omega arith in
      inl (
        sym ok_is,
        rw (← g_is) empty,
        rw (← after_is) (same ∙ rw none_left (unfold slice in sym (append-nil (s.accepted os)))),
      )

  seek-Delivers :
      (r : Bool × k.Os) (f g : Cached) (os after : k.Os) (ok : Bool)
      → IsWriter f
      → f.end_tag ≡ f.tag
      → s.accepted r.1 ≡ s.accepted os
      → sought k f r ≡ returns ok g after
      → Delivers f os ok g after
  seek-Delivers (true, o) f g os after ok w idle same e =
      idle-Delivers f g os o after ok w idle same
        (record f { tag = f.pos_tag; end_tag = f.pos_tag }) (sought-IsEmptied f w idle) e
  seek-Delivers (false, o) f g os after ok w idle same e =
      let ok_is : false ≡ ok = cc in
      let g_is : f ≡ g = cc in
      let after_is : o ≡ after = cc in
      inr (
        sym ok_is,
        sym g_is,
        0,
        omega arith,
        rw (← after_is) (same ∙ unfold slice in sym (append-nil (s.accepted os))),
      )

  -- A flush of a file that is open for writing either returns 0, has sent all pending bytes after
  -- those sent before, and leaves the cache empty; or it returns -1, has sent the first of them, and
  -- keeps the cache as it was, so that the next flush sends those bytes again.
  pub io61_flush-Delivers :
      (fuel : ℕ) (f g : Cached) (os after : k.Os) (ok : Bool)
      → IsWriter f
      → io61_flush k fuel f os ≡ returns ok g after
      → Delivers f os ok g after
  io61_flush-Delivers fuel f g os after ok w e = elim (Bool-cases f.dirty) [
    | inl d ↦
        let z : f.tag + 0 ≡ f.tag = omega arith in
        let run : io61_flush_dirty k fuel f.tag f os ≡ returns ok g after =
          sym (flush_dirty_is k f os w fuel d) ∙ e in
        Sends-Delivers f g os after ok w
          (flush_dirty-Sends k s fuel 0 f g os after ok (omega (arith, w.tag_le)) (rw z run))
    | inr d ↦
        let idle : f.end_tag ≡ f.tag = idle_of_clean d in
        elim (Bool-cases f.seekable) [
          | inl y ↦
              seek-Delivers (k.lseek os f.pos_tag) f g os after ok w idle
                (s.seek_keeps os f.pos_tag) (sym (flush_seeks k f os w fuel d y) ∙ e)
          | inr n ↦
              idle-Delivers f g os os after ok w idle refl f (w, idle)
                (sym (flush_stays k f os w fuel d n) ∙ e)
        ]
  ]
    where
      idle_of_clean : f.dirty ≡ false → f.end_tag ≡ f.tag
      idle_of_clean d = ground (arith, w.clean)

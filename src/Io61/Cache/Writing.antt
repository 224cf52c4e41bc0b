-- ===== src/Io61/Cache/Writing.antt =====
-- `io61_write` and `io61_writec` of pset4/io61.cc: bytes reach the system once, and in order.
use cs61_f23_psets_tomkhe.Prelude.{
  choose_true, choose_false, ℕ, suc, ◌+◌, ◌-◌, ◌≤◌, ◌<◌, ◌≡◌, refl, sym, ap, ◌∙◌, ◌≢◌, ◌⊎◌, inl,
  inr, Bool, true, false, List, [], ◌++◌, arith, ltb, ◌==◌, ==_iff, Bool-cases, min,
}
use mathlib.Core.List.{append-nil, append_assoc}
use cs61_f23_psets_tomkhe.Io61.Cache.{
  cbufsz, Cached, Kernel, Result, returns, asserts, unfinished, slice, make_room, write_loop, put,
  is_full, copy_in,
}
use cs61_f23_psets_tomkhe.Io61.Cache.Bytes.{slice-append, slice-copy_in}
use cs61_f23_psets_tomkhe.Io61.Cache.Flushing.{IsSink, pending, IsWriter}
use cs61_f23_psets_tomkhe.Io61.Cache.Delivery.{io61_flush-Delivers}

abbrev pub room : Cached → ℕ → ℕ → ℕ
room g sz nwritten = min (cbufsz + g.tag - g.pos_tag) (sz - nwritten)

pub elim_true {ℓ} :
    {A : Type ℓ} (b : Bool) (x y : A) → b ≡ true → elim b [ true ↦ x | false ↦ y ] ≡ x
elim_true b x y h = rw h refl

pub elim_false {ℓ} :
    {A : Type ℓ} (b : Bool) (x y : A) → b ≡ false → elim b [ true ↦ x | false ↦ y ] ≡ y
elim_false b x y h = rw h refl

pub pending-empty : (g : Cached) → g.end_tag ≡ g.tag → pending g ≡ []
unfolding slice
pending-empty g e = let z : g.end_tag - g.tag ≡ 0 = omega arith in rw z refl

module _ (k : Kernel) (fuel rounds : ℕ) (buf : ℕ → ℕ) (sz nwritten : ℕ) where
  abbrev pub with_room : Cached → k.Os → Result k.Os ℕ
  with_room g after = elim (room g sz nwritten == 0) [
    | true ↦ returns nwritten g after
    | false ↦
        write_loop k fuel rounds buf sz (nwritten + room g sz nwritten)
          (put k buf nwritten (room g sz nwritten) g) after
  ]

  abbrev pub after_room : Result k.Os Bool → Result k.Os ℕ
  after_room (returns true g after) = with_room g after
  after_room (returns false g after) = returns nwritten g after
  after_room asserts = asserts
  after_room unfinished = unfinished

  after_room_is :
      (r : Result k.Os Bool)
      → elim r [
        | asserts ↦ asserts
        | unfinished ↦ unfinished
        | returns ok g after ↦ elim ok [
          | false ↦ returns nwritten g after
          | true ↦ with_room g after
        ]
      ]
        ≡ after_room r
  after_room_is (returns true g after) = refl
  after_room_is (returns false g after) = refl
  after_room_is asserts = refl
  after_room_is unfinished = refl

  pub write_done :
      (f : Cached) (os : k.Os)
      → ltb nwritten sz ≡ false
      → write_loop k fuel (suc rounds) buf sz nwritten f os ≡ returns nwritten f os
  unfolding write_loop
  write_done f os d = rw (write_loop, d) refl

  pub write_round :
      (f : Cached) (os : k.Os)
      → ltb nwritten sz ≡ true
      → write_loop k fuel (suc rounds) buf sz nwritten f os ≡ after_room (make_room k fuel f os)
  unfolding write_loop
  write_round f os d = rw (write_loop, d) (after_room_is (make_room k fuel f os))

  pub put_round :
      (g : Cached) (after : k.Os)
      → room g sz nwritten ≢ 0
      → with_room g after
        ≡ write_loop k fuel rounds buf sz
            (nwritten + room g sz nwritten)
            (put k buf nwritten (room g sz nwritten) g)
            after
  put_round g after ne =
      let some_room : (room g sz nwritten == 0) ≡ false =
        ground (arith, ==_iff (room g sz nwritten) 0) in
      elim_false (room g sz nwritten == 0) _ _ some_room

  pub pending-put :
      (n : ℕ) (g : Cached)
      → IsWriter g
      → pending (put k buf nwritten n g) ≡ pending g ++ slice buf nwritten n
  pending-put n g w =
      let size_is : g.end_tag + n - g.tag ≡ g.end_tag - g.tag + n = omega (arith, w.tag_le) in
      let from_end : g.pos_tag - g.tag ≡ g.end_tag - g.tag = omega (arith, w.pos_is) in
      ap (λ x. slice (copy_in x buf nwritten n g.cbuf) 0 (g.end_tag + n - g.tag)) from_end
      ∙ ap (slice (copy_in (g.end_tag - g.tag) buf nwritten n g.cbuf) 0) size_is
      ∙ slice-copy_in (g.end_tag - g.tag) buf nwritten n g.cbuf

  pub put-IsWriter :
      (n : ℕ) (g : Cached)
      → IsWriter g
      → g.end_tag + n ≤ g.tag + cbufsz
      → IsWriter (put k buf nwritten n g)
  put-IsWriter n g w le = record {
    mode_is = w.mode_is;
    not_positioned = w.not_positioned;
    tag_le = omega (arith, w.tag_le);
    pos_is = omega (arith, w.pos_is);
    fits = le;
    clean = inl refl;
  }

module _ (k : Kernel) (s : IsSink k) where
  abbrev pub Fails : Cached → k.Os → Cached → k.Os → Type 0
  Fails f os g after =
      (g ≡ f)
      × (m : ℕ) × (m ≤ f.end_tag - f.tag)
      × (s.accepted after ≡ s.accepted os ++ slice f.cbuf 0 m)

  abbrev pub HasRoom : Cached → k.Os → Cached → k.Os → Type 0
  HasRoom f os g after =
      IsWriter g
      × (g.end_tag < g.tag + cbufsz)
      × (s.accepted after ++ pending g ≡ s.accepted os ++ pending f)

  pub make_room-HasRoom :
      (fuel : ℕ) (f g : Cached) (os after : k.Os) (ok : Bool)
      → IsWriter f
      → make_room k fuel f os ≡ returns ok g after
      → ((ok ≡ true) × HasRoom f os g after) ⊎ ((ok ≡ false) × Fails f os g after)
  unfolding make_room
  make_room-HasRoom fuel f g os after ok w e = elim (Bool-cases (is_full k f)) [
    | inl full ↦
        elim (io61_flush-Delivers k s fuel f g os after ok w
          (sym (choose_true (is_full k f) _ _ full) ∙ e)) [
            | inl (good, empty, sent) ↦ inl (
              good,
              (
                empty.0,
                omega (arith, empty.1),
                ap (λ l. s.accepted after ++ l) (pending-empty g empty.1)
                    ∙ append-nil (s.accepted after)
                    ∙ sent,
              ),
            )
            | inr (bad, same, m, le, sent) ↦ inr (bad, (same, m, le, sent))
          ]
    | inr short ↦ unflushed (sym (choose_false (is_full k f) _ _ short) ∙ e) short
  ]
    where
      unflushed :
          ◌≡◌ {A = Result k.Os Bool} (returns true f os) (returns ok g after)
          → is_full k f ≡ false
          → ((ok ≡ true) × HasRoom f os g after) ⊎ ((ok ≡ false) × Fails f os g after)
      unflushed h short =
          let ok_is : true ≡ ok = cc in
          let g_is : f ≡ g = cc in
          let after_is : os ≡ after = cc in
          inl (
            sym ok_is,
            rw (← g_is, ← after_is)
                (w, ground (arith, w.fits, ==_iff f.end_tag (f.tag + cbufsz)), refl),
          )

  -- All of the rest was written; or a flush failed before the rest was written. A failed flush has
  -- sent the first `m` of the bytes that stay in the cache.
  abbrev pub Writes : (ℕ → ℕ) → ℕ → ℕ → Cached → k.Os → ℕ → Cached → k.Os → Type 0
  Writes buf sz nwritten f os n g after =
      ((n ≡ sz)
        × IsWriter g
        × (s.accepted after ++ pending g
            ≡ (s.accepted os ++ pending f) ++ slice buf nwritten (sz - nwritten)))
      ⊎ ((n < sz)
          × (nwritten ≤ n)
          × IsWriter g
          × (m : ℕ) × (sent : List ℕ) × (m ≤ g.end_tag - g.tag)
          × (s.accepted after ≡ sent ++ slice g.cbuf 0 m)
          × (sent ++ pending g ≡ (s.accepted os ++ pending f) ++ slice buf nwritten (n - nwritten)))

  pub finished-Writes :
      (buf : ℕ → ℕ) (sz nwritten n : ℕ) (f g : Cached) (os after : k.Os)
      → IsWriter f
      → nwritten ≡ sz
      → ◌≡◌ {A = Result k.Os ℕ} (returns nwritten f os) (returns n g after)
      → Writes buf sz nwritten f os n g after
  finished-Writes buf sz nwritten n f g os after w all e =
      let n_is : nwritten ≡ n = cc in
      let g_is : f ≡ g = cc in
      let after_is : os ≡ after = cc in
      let none_left : sz - nwritten ≡ 0 = omega arith in
      inl (
        sym n_is ∙ all,
        rw (← g_is) w,
        rw (← g_is, ← after_is, none_left)
            (unfold slice in sym (append-nil (s.accepted os ++ pending f))),
      )

  pub failed-Writes :
      (buf : ℕ → ℕ) (sz nwritten n : ℕ) (f h g : Cached) (os o after : k.Os)
      → IsWriter f
      → nwritten < sz
      → Fails f os h o
      → ◌≡◌ {A = Result k.Os ℕ} (returns nwritten h o) (returns n g after)
      → Writes buf sz nwritten f os n g after
  failed-Writes buf sz nwritten n f h g os o after w lt (same, m, le, sent) e =
      let n_is : nwritten ≡ n = cc in
      let g_is : f ≡ g = cc in
      let after_is : o ≡ after = cc in
      let none_left : nwritten - nwritten ≡ 0 = omega arith in
      rw (← n_is, ← g_is, ← after_is)
        (inr (
          lt,
          omega arith,
          w,
          m,
          s.accepted os,
          le,
          sent,
          rw none_left (unfold slice in sym (append-nil (s.accepted os ++ pending f))),
        ))

  joined :
      (buf : ℕ → ℕ) (from c d m : ℕ) (view after : List ℕ)
      → after ≡ view ++ slice buf from c
      → c + d ≡ m
      → after ++ slice buf (from + c) d ≡ view ++ slice buf from m
  joined buf from c d m view after added e =
      ap (λ l. l ++ slice buf (from + c) d) added
      ∙ append_assoc view (slice buf from c) _
      ∙ ap (◌++◌ view) (sym (slice-append buf from c d) ∙ ap (slice buf from) e)

  -- What is written from one state on is written from an earlier one on, if only the bytes between
  -- have been added.
  pub later-Writes :
      (buf : ℕ → ℕ) (sz nwritten c n : ℕ) (f h g : Cached) (os o after : k.Os)
      → nwritten + c ≤ sz
      → s.accepted o ++ pending h ≡ (s.accepted os ++ pending f) ++ slice buf nwritten c
      → Writes buf sz (nwritten + c) h o n g after
      → Writes buf sz nwritten f os n g after
  later-Writes buf sz nwritten c n f h g os o after le added (inl (all, w, sent)) = inl (
    all,
    w,
    sent ∙ joined buf nwritten c (sz - (nwritten + c)) (sz - nwritten) _ _ added (omega arith),
  )
  later-Writes buf sz nwritten c n f h g os o after le added
        (inr (lt, from, w, m, sent, short, first, rest)) =
      inr (
        lt,
        omega arith,
        w,
        m,
        sent,
        short,
        first,
        rest ∙ joined buf nwritten c (n - (nwritten + c)) (n - nwritten) _ _ added (omega arith),
      )

-- ===== src/Io61/Reading/Filling.antt =====
-- `io61_fill` of pset4/io61.cc: the cache holds the next bytes of the file.
use cs61_f23_psets_tomkhe.Prelude.{
  choose_true, choose_false, ℕ, zero, suc, ◌+◌, ◌-◌, ◌≤◌, ◌<◌, ◌≡◌, refl, sym, ap, ◌∙◌, ◌≢◌, ◌⊎◌,
  inl, inr, Bool, true, false, List, [], ◌∷◌, ◌++◌, arith, ◌==◌, ==_iff, Bool-cases, length, get_or,
}
use cs61_f23_psets_tomkhe.Io61.Cache.{cbufsz, Cached, Result, returns, unfinished, slice}
use cs61_f23_psets_tomkhe.Io61.Cache.Bytes.{slice-ext, slice-copy_in}
use cs61_f23_psets_tomkhe.Io61.Reading.{
  ReadResult, got, try_again, read_error, Source, next_slot, filled, unread, fill_loop, io61_fill,
  refill,
}

-- What `read` documents: it returns the next bytes of the file, at most as many as asked for, and
-- none only at the end; when it fails, it takes none.
pub record IsStream (k : Source) : Type 0 where
  pub remaining : k.Os → List ℕ
  pub read_some :
      (os after : k.Os) (n : ℕ) (bytes : List ℕ)
      → k.read os n ≡ (got bytes, after)
      → (length bytes ≤ n) × (remaining os ≡ bytes ++ remaining after)
  pub read_none :
      (os after : k.Os) (n : ℕ) → k.read os (suc n) ≡ (got [], after) → remaining os ≡ []
  pub read_again :
      (os after : k.Os) (n : ℕ) → k.read os n ≡ (try_again, after) → remaining after ≡ remaining os
  pub read_failed :
      (os after : k.Os) (n : ℕ) → k.read os n ≡ (read_error, after) → remaining after ≡ remaining os

pub record IsReader (f : Cached) : Type 0 where
  pub tag_le : f.tag ≤ f.pos_tag
  pub pos_le : f.pos_tag ≤ f.end_tag
  pub fits : f.end_tag ≤ f.tag + cbufsz

slice-list : (bytes : List ℕ) → slice (λ j. get_or bytes j 0) 0 (length bytes) ≡ bytes
unfolding slice
slice-list [] = refl
slice-list (x ∷ bytes) = ap (◌∷◌ x) (
    slice-ext (λ j. get_or (x ∷ bytes) j 0) (λ j. get_or bytes j 0) (0 + 1) 0 (length bytes) shifted
    ∙ slice-list bytes)
  where
    shifted : (i : ℕ) → i < length bytes → get_or (x ∷ bytes) (0 + 1 + i) 0 ≡ get_or bytes (0 + i) 0
    shifted i lt =
        let l : 0 + 1 + i ≡ suc i = omega arith in let r : 0 + i ≡ i = omega arith in rw (l, r) refl

abbrev pub IsUnfilled : Cached → Type 0
IsUnfilled f = (f.pos_tag ≡ f.tag) × (f.end_tag ≡ f.tag)

unread-filled : (bytes : List ℕ) (f : Cached) → IsUnfilled f → unread (filled bytes f) ≡ bytes
unread-filled bytes f empty =
    let from : f.pos_tag - f.tag ≡ 0 = omega (arith, empty.0) in
    let size_is : f.end_tag + length bytes - f.pos_tag ≡ 0 + length bytes =
      omega (arith, empty.0, empty.1) in
    ap (λ x. slice buf x (f.end_tag + length bytes - f.pos_tag)) from
    ∙ ap (slice buf 0) size_is
    ∙ slice-copy_in 0 (λ j. get_or bytes j 0) 0 (length bytes) f.cbuf
    ∙ unfold slice in slice-list bytes
  where
    buf : ℕ → ℕ
    buf = (filled bytes f).cbuf

unread_none : (f : Cached) → f.pos_tag ≡ f.end_tag → unread f ≡ []
unfolding slice
unread_none f p = let z : f.end_tag - f.pos_tag ≡ 0 = omega arith in rw z refl

module _ (k : Source) (s : IsStream k) where
  -- The bytes that a program reads next.
  abbrev pub ahead : Cached → k.Os → List ℕ
  ahead f os = unread f ++ s.remaining os

  -- A `read` has failed, and left this state.
  abbrev pub FailedAt : k.Os → Type 0
  FailedAt after = (o : k.Os) × (k.read o cbufsz ≡ (read_error, after))

  abbrev pub Fills : Cached → k.Os → Bool → Cached → k.Os → Type 0
  Fills f os ok g after =
      ((ok ≡ true)
        × IsReader g
        × (ahead g after ≡ s.remaining os)
        × ((g.pos_tag ≢ g.end_tag) ⊎ (s.remaining os ≡ [])))
      ⊎ ((ok ≡ false) × (g ≡ f) × (s.remaining after ≡ s.remaining os) × FailedAt after)

  abbrev pub after_read : ℕ → Cached → ReadResult × k.Os → Result k.Os Bool
  after_read fuel f (got bytes, o) = returns true (filled bytes f) o
  after_read fuel f (try_again, o) = fill_loop k fuel f o
  after_read fuel f (read_error, o) = returns false f o

  answered :
      (fuel : ℕ) (f : Cached) (r : ReadResult × k.Os)
      → elim r.0 [
        | got bytes ↦ returns true (filled bytes f) r.1
        | try_again ↦ fill_loop k fuel f r.1
        | read_error ↦ returns false f r.1
      ]
        ≡ after_read fuel f r
  answered fuel f (got bytes, o) = refl
  answered fuel f (try_again, o) = refl
  answered fuel f (read_error, o) = refl

  pub fill_round :
      (fuel : ℕ) (f : Cached) (os : k.Os)
      → fill_loop k (suc fuel) f os ≡ after_read fuel f (k.read os cbufsz)
  unfolding fill_loop
  fill_round fuel f os = answered fuel f (k.read os cbufsz)

  some_or_end :
      (bytes : List ℕ) (f : Cached) (os o : k.Os)
      → IsUnfilled f
      → k.read os cbufsz ≡ (got bytes, o)
      → (f.pos_tag ≢ f.end_tag + length bytes) ⊎ (s.remaining os ≡ [])
  some_or_end [] f os o empty r = inr (s.read_none os o _ r)
  some_or_end (x ∷ bytes) f os o empty r = inl (λ e. omega (arith, empty.0, empty.1))

  got-Fills :
      (bytes : List ℕ) (f g : Cached) (os o after : k.Os) (ok : Bool)
      → IsUnfilled f
      → k.read os cbufsz ≡ (got bytes, o)
      → ◌≡◌ {A = Result k.Os Bool} (returns true (filled bytes f) o) (returns ok g after)
      → Fills f os ok g after
  got-Fills bytes f g os o after ok empty r e =
      let ok_is : true ≡ ok = cc in
      let g_is : filled bytes f ≡ g = cc in
      let after_is : o ≡ after = cc in
      let (short, next) = s.read_some os o _ bytes r in
      inl (
        sym ok_is,
        rw (← g_is) (record {
          tag_le = omega (arith, empty.0);
          pos_le = omega (arith, empty.0, empty.1);
          fits = omega (arith, empty.1);
        }),
        rw (← g_is, ← after_is)
            (ap (λ l. l ++ s.remaining o) (unread-filled bytes f empty) ∙ sym next),
        rw (← g_is) (some_or_end bytes f os o empty r),
      )

  again-Fills :
      (f g : Cached) (os o after : k.Os) (ok : Bool)
      → s.remaining o ≡ s.remaining os
      → Fills f o ok g after
      → Fills f os ok g after
  again-Fills f g os o after ok same fills = rw same at fills

  fill_loop-Fills :
      (fuel : ℕ) (f g : Cached) (os after : k.Os) (ok : Bool)
      → IsUnfilled f
      → fill_loop k fuel f os ≡ returns ok g after
      → Fills f os ok g after
  fill_loop-Fills zero f g os after ok empty e =
      let e' : ◌≡◌ {A = Result k.Os Bool} unfinished (returns ok g after) = unfold fill_loop in e in
      cc
  fill_loop-Fills (suc fuel) f g os after ok empty e =
      by_answer (k.read os cbufsz) refl (sym (fill_round fuel f os) ∙ e)
        (λ o. fill_loop-Fills fuel f g o after ok empty)
    where
      by_answer :
          (r : ReadResult × k.Os)
          → k.read os cbufsz ≡ r
          → after_read fuel f r ≡ returns ok g after
          → ((o : k.Os) → fill_loop k fuel f o ≡ returns ok g after → Fills f o ok g after)
          → Fills f os ok g after
      by_answer (got bytes, o) r h rest = got-Fills bytes f g os o after ok empty r h
      by_answer (try_again, o) r h rest =
          again-Fills f g os o after ok (s.read_again os o _ r) (rest o h)
      by_answer (read_error, o) r h rest =
          let h' : ◌≡◌ {A = Result k.Os Bool} (returns false f o) (returns ok g after) = h in
          let ok_is : false ≡ ok = cc in
          let g_is : f ≡ g = cc in
          let after_is : o ≡ after = cc in
          inr
            (sym ok_is, sym g_is, rw (← after_is) (s.read_failed os o _ r), (os, rw (← after_is) r))

  abbrev pub Refills : Cached → k.Os → Bool → Cached → k.Os → Type 0
  Refills f os ok g after =
      IsReader g
      × (ahead g after ≡ ahead f os)
      × (((ok ≡ false) × FailedAt after)
          ⊎ ((ok ≡ true) × ((g.pos_tag ≢ g.end_tag) ⊎ (ahead f os ≡ []))))

  emptied-Refills :
      (f g : Cached) (os after : k.Os) (ok : Bool)
      → f.pos_tag ≡ f.end_tag
      → Fills (next_slot f) os ok g after
      → Refills f os ok g after
  emptied-Refills f g os after ok p (inl (good, w, same, more)) =
      let none_left = ap (λ l. l ++ s.remaining os) (unread_none f p) in
      (
        w,
        same ∙ sym none_left,
        inr (good, elim more [ inl some_left ↦ inl some_left | inr end ↦ inr (none_left ∙ end) ]),
      )
  emptied-Refills f g os after ok p (inr (bad, same, kept, failed)) =
      let none_left = ap (λ l. l ++ s.remaining os) (unread_none f p) in
      (
        rw same (record { tag_le = omega arith; pos_le = omega arith; fits = omega arith }),
        ap (λ h. ahead h after) same
            ∙ ap (λ l. l ++ s.remaining after) (unread_none (next_slot f) refl)
            ∙ kept
            ∙ sym none_left,
        inl (bad, failed),
      )

  kept-Refills :
      (f g : Cached) (os after : k.Os) (ok : Bool)
      → IsReader f
      → f.pos_tag ≢ f.end_tag
      → ◌≡◌ {A = Result k.Os Bool} (returns true f os) (returns ok g after)
      → Refills f os ok g after
  kept-Refills f g os after ok w ne e =
      let ok_is : true ≡ ok = cc in
      let g_is : f ≡ g = cc in
      let after_is : os ≡ after = cc in rw (← g_is, ← after_is) (w, refl, inr (sym ok_is, inl ne))

  -- A refill keeps what the program reads next. If it returns 0, there is a byte in the cache, or
  -- the file has no more.
  pub refill-Fills :
      (fuel : ℕ) (f g : Cached) (os after : k.Os) (ok : Bool)
      → IsReader f
      → refill k fuel f os ≡ returns ok g after
      → Refills f os ok g after
  unfolding refill io61_fill
  refill-Fills fuel f g os after ok w e = elim (Bool-cases (f.pos_tag == f.end_tag)) [
    | inl empty ↦ emptied-Refills f g os after ok (ground (arith, ==_iff f.pos_tag f.end_tag)) (
        fill_loop-Fills fuel (next_slot f) g os after ok (refl, refl)
          (sym (choose_true (f.pos_tag == f.end_tag) _ _ empty) ∙ e))
    | inr some_left ↦
        kept-Refills f g os after ok w (ground (arith, ==_iff f.pos_tag f.end_tag))
          (sym (choose_false (f.pos_tag == f.end_tag) _ _ some_left) ∙ e)
  ]

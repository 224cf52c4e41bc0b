-- ===== src/Io61/Cache/Characters.antt =====
-- `io61_writec` of pset4/io61.cc.
use cs61_f23_psets_tomkhe.Prelude.{
  choose_true, ◌%◌, ℕ, ◌≡◌, refl, sym, ap, ◌∙◌, ◌⊎◌, inl, inr, Bool, true, false, not, ◌&&◌, [],
  ◌∷◌, ◌++◌, arith,
}
use mathlib.Core.List.{append_assoc}
use cs61_f23_psets_tomkhe.Io61.Cache.{
  Cached, Kernel, Result, returns, asserts, unfinished, slice, make_room, put,
  io61_check_assertions, io61_writec, put_byte,
}
use cs61_f23_psets_tomkhe.Io61.Cache.Flushing.{IsSink, pending, IsWriter}
use cs61_f23_psets_tomkhe.Io61.Cache.Writing.{pending-put, put-IsWriter, Fails, make_room-HasRoom}
use cs61_f23_psets_tomkhe.Io61.Cache.Sending.{writer-checks}

module _ (k : Kernel) (s : IsSink k) where
  -- The byte is put behind the pending ones; or a flush has failed.
  abbrev pub PutOutcome : ℕ → Cached → k.Os → Bool → Cached → k.Os → Type 0
  PutOutcome c f os ok g after =
      ((ok ≡ true)
        × IsWriter g
        × (s.accepted after ++ pending g ≡ (s.accepted os ++ pending f) ++ (c % 256 ∷ [])))
      ⊎ ((ok ≡ false) × Fails k s f os g after)

  put_byte-Outcome :
      (fuel c : ℕ) (f g : Cached) (os after : k.Os) (ok : Bool)
      → IsWriter f
      → (r : Result k.Os Bool) → make_room k fuel f os ≡ r
      → put_byte k (c % 256) r ≡ returns ok g after
      → PutOutcome c f os ok g after
  unfolding put_byte
  put_byte-Outcome fuel c f g os after ok w asserts m e =
      let e' : ◌≡◌ {A = Result k.Os Bool} asserts (returns ok g after) = e in cc
  put_byte-Outcome fuel c f g os after ok w unfinished m e =
      let e' : ◌≡◌ {A = Result k.Os Bool} unfinished (returns ok g after) = e in cc
  put_byte-Outcome fuel c f g os after ok w (returns false h o) m e =
      let ok_is : false ≡ ok = cc in
      let g_is : h ≡ g = cc in
      let after_is : o ≡ after = cc in
      elim (make_room-HasRoom k s fuel f h os o false w m) [
        | inl (bad, x) ↦ cc
        | inr (bad, fails) ↦ inr (sym ok_is, rw (← g_is, ← after_is) fails)
      ]
  put_byte-Outcome fuel c f g os after ok w (returns true h o) m e =
      elim (make_room-HasRoom k s fuel f h os o true w m) [
        | inr (bad, x) ↦ cc
        | inl (good, (wh, free, same)) ↦
            let byte : ℕ → ℕ = λ i. c % 256 in
            let wp = put-IsWriter k fuel 0 byte 1 0 1 h wh (omega arith) in
            let checks : io61_check_assertions (put k byte 0 1 h) ≡ true =
              ground (arith, writer-checks (put k byte 0 1 h) wp) in
            let done =
              sym (choose_true (io61_check_assertions (put k byte 0 1 h)) _ _ checks) ∙ e in
            let ok_is : true ≡ ok = cc in
            let g_is : put k byte 0 1 h ≡ g = cc in
            let after_is : o ≡ after = cc in
            inl (
              sym ok_is,
              rw (← g_is) wp,
              rw (← g_is, ← after_is)
                  (ap (◌++◌ (s.accepted o)) (pending-put k fuel 0 byte 1 0 1 h wh)
                    ∙ sym (append_assoc (s.accepted o) (pending h) _)
                    ∙ unfold slice in ap (λ l. l ++ (c % 256 ∷ [])) same),
            )
      ]

  -- On a file open for writing, when `io61_writec` returns 0 the bytes sent with those in the cache
  -- are those of before and then the given one, cut to a byte; when it returns -1, a flush has sent
  -- the first of the cached bytes and failed, and the cache is as it was.
  pub io61_writec-Outcome :
      (fuel c : ℕ) (f g : Cached) (os after : k.Os) (ok : Bool)
      → IsWriter f
      → io61_writec k fuel c f os ≡ returns ok g after
      → PutOutcome c f os ok g after
  unfolding io61_writec
  io61_writec-Outcome fuel c f g os after ok w e =
      put_byte-Outcome fuel c f g os after ok w _ refl (
        sym (choose_true (io61_check_assertions f && not f.positioned) _ _ (writer-checks f w)) ∙ e)

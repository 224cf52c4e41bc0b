-- ===== src/Io61/Reading/Stream.antt =====
-- `io61_read_cache` of pset4/io61.cc on a file that cannot be mapped: it reads the file as a stream.
use cs61_f23_psets_tomkhe.Prelude.{
  choose_true, length-append, ltb→lt, ℕ, zero, suc, ◌+◌, ◌-◌, ◌≤◌, ◌<◌, ◌≡◌, refl, sym, ap, ◌∙◌,
  ◌≢◌, ◌⊎◌, inl, inr, Bool, true, false, List, [], ◌++◌, arith, ltb, ◌==◌, if◌then◌else◌, ==_iff,
  Bool-cases, length, not, ◌&&◌, ◌||◌, Option, some, none,
}
use mathlib.Core.List.{append-nil, append_assoc}
use cs61_f23_psets_tomkhe.Io61.Cache.{
  Cached, Result, returns, asserts, unfinished, slice, io61_check_assertions,
}
use cs61_f23_psets_tomkhe.Io61.Cache.Bytes.{slice-append, length-slice}
use cs61_f23_psets_tomkhe.Io61.Reading.{
  Source, refill, taken, read_loop, read_result, io61_read_cache,
}
use cs61_f23_psets_tomkhe.Io61.Reading.Filling.{IsStream, IsReader, ahead, refill-Fills, FailedAt}
use cs61_f23_psets_tomkhe.Io61.Cache.Writing.{elim_false, elim_true}

module _ (k : Source) (fuel rounds sz nread : ℕ) (buf : List ℕ) where
  abbrev pub copied : Cached → k.Os → Result k.Os (List ℕ)
  copied g after =
      read_loop k fuel rounds sz (nread + taken k g sz nread)
        (buf ++ slice g.cbuf (g.pos_tag - g.tag) (taken k g sz nread))
        (record g { pos_tag = g.pos_tag + taken k g sz nread }) after

  abbrev pub after_refill : Result k.Os Bool → Result k.Os (List ℕ)
  after_refill (returns ok g after) = elim (ok && not (g.pos_tag == g.end_tag)) [
    | false ↦ returns buf g after
    | true ↦ copied g after
  ]
  after_refill asserts = asserts
  after_refill unfinished = unfinished

  after_refill_is :
      (r : Result k.Os Bool)
      → elim r [
        | asserts ↦ asserts
        | unfinished ↦ unfinished
        | returns ok g after ↦ elim (ok && not (g.pos_tag == g.end_tag)) [
          | false ↦ returns buf g after
          | true ↦ copied g after
        ]
      ]
        ≡ after_refill r
  after_refill_is (returns ok g after) = refl
  after_refill_is asserts = refl
  after_refill_is unfinished = refl

  pub read_done :
      (f : Cached) (os : k.Os)
      → ltb nread sz ≡ false
      → read_loop k fuel (suc rounds) sz nread buf f os ≡ returns buf f os
  unfolding read_loop
  read_done f os d = rw (read_loop, d) refl

  pub read_round :
      (f : Cached) (os : k.Os)
      → ltb nread sz ≡ true
      → read_loop k fuel (suc rounds) sz nread buf f os ≡ after_refill (refill k fuel f os)
  unfolding read_loop
  read_round f os d = rw (read_loop, d) (after_refill_is (refill k fuel f os))

module _ (k : Source) (s : IsStream k) where
  -- The bytes copied are `buf` and then `bytes`, the next bytes of the file; all that were asked
  -- for, or fewer, at its end or when `read` fails.
  abbrev pub Reads : ℕ → List ℕ → Cached → k.Os → List ℕ → Cached → k.Os → Type 0
  Reads wanted buf f os out g after =
      (bytes : List ℕ) × IsReader g
      × (out ≡ buf ++ bytes)
      × (bytes ++ ahead k s g after ≡ ahead k s f os)
      × (length bytes ≤ wanted)
      × ((length bytes ≡ wanted) ⊎ (ahead k s g after ≡ []) ⊎ FailedAt k s after)

  stopped-Reads :
      (wanted : ℕ) (buf out : List ℕ) (f h g : Cached) (os o after : k.Os)
      → IsReader h
      → ahead k s h o ≡ ahead k s f os
      → (0 ≡ wanted) ⊎ (ahead k s h o ≡ []) ⊎ FailedAt k s o
      → ◌≡◌ {A = Result k.Os (List ℕ)} (returns buf h o) (returns out g after)
      → Reads wanted buf f os out g after
  stopped-Reads wanted buf out f h g os o after w same why e =
      let out_is : buf ≡ out = cc in
      let g_is : h ≡ g = cc in
      let after_is : o ≡ after = cc in
      (
        [],
        rw (← g_is) w,
        sym out_is ∙ sym (append-nil buf),
        rw (← g_is, ← after_is) same,
        omega arith,
        rw (← g_is, ← after_is) why,
      )

  -- Taking `n` bytes from the cache.
  take-ahead :
      (n : ℕ) (h : Cached) (o : k.Os)
      → IsReader h
      → n ≤ h.end_tag - h.pos_tag
      → slice h.cbuf (h.pos_tag - h.tag) n ++ ahead k s (record h { pos_tag = h.pos_tag + n }) o
        ≡ ahead k s h o
  take-ahead n h o w le =
      let from : h.pos_tag + n - h.tag ≡ h.pos_tag - h.tag + n = omega (arith, w.tag_le) in
      let split : n + (h.end_tag - (h.pos_tag + n)) ≡ h.end_tag - h.pos_tag = omega arith in
      sym (append_assoc (slice h.cbuf (h.pos_tag - h.tag) n) _ (s.remaining o))
      ∙ ap (λ l. l ++ s.remaining o)
          (ap
              (λ x.
                slice h.cbuf (h.pos_tag - h.tag) n ++ slice h.cbuf x (h.end_tag - (h.pos_tag + n)))
              from
            ∙ sym (slice-append h.cbuf (h.pos_tag - h.tag) n _)
            ∙ ap (slice h.cbuf (h.pos_tag - h.tag)) split)

  more-Reads :
      (n wanted : ℕ) (buf out : List ℕ) (f h g : Cached) (os o after : k.Os)
      → IsReader h
      → n ≤ h.end_tag - h.pos_tag
      → n ≤ wanted
      → ahead k s h o ≡ ahead k s f os
      → Reads
          (wanted - n)
          (buf ++ slice h.cbuf (h.pos_tag - h.tag) n)
          (record h { pos_tag = h.pos_tag + n })
          o
          out
          g
          after
      → Reads wanted buf f os out g after
  more-Reads n wanted buf out f h g os o after w le few same (bytes, wg, out_is, rest, short, why) =
      let first = slice h.cbuf (h.pos_tag - h.tag) n in
      (
        first ++ bytes,
        wg,
        out_is ∙ append_assoc buf first bytes,
        append_assoc first bytes _ ∙ ap (◌++◌ first) rest ∙ take-ahead n h o w le ∙ same,
        omega (arith, length-append first bytes, length-slice h.cbuf (h.pos_tag - h.tag) n),
        elim why [
          | inl all ↦
              inl (
                omega (arith, length-append first bytes, length-slice h.cbuf (h.pos_tag - h.tag) n))
          | inr stop ↦ inr stop
        ],
      )

  some_left :
      (ok : Bool) (h : Cached)
      → ok ≡ true
      → h.pos_tag ≢ h.end_tag
      → (ok && not (h.pos_tag == h.end_tag)) ≡ false
      → ⊥
  some_left ok h good ne stop = ground (arith, ==_iff h.pos_tag h.end_tag)

  round-Reads :
      (fuel rounds sz nread : ℕ) (buf out : List ℕ) (f g : Cached) (os after : k.Os)
      → IsReader f
      → nread < sz
      → ((c : ℕ) (more : List ℕ) (h : Cached) (o : k.Os)
          → IsReader h
          → nread + c ≤ sz
          → read_loop k fuel rounds sz (nread + c) more h o ≡ returns out g after
          → Reads (sz - (nread + c)) more h o out g after)
      → (r : Result k.Os Bool) → refill k fuel f os ≡ r
      → after_refill k fuel rounds sz nread buf r ≡ returns out g after
      → Reads (sz - nread) buf f os out g after
  round-Reads fuel rounds sz nread buf out f g os after w lt rest asserts m e =
      let e' : ◌≡◌ {A = Result k.Os (List ℕ)} asserts (returns out g after) = e in cc
  round-Reads fuel rounds sz nread buf out f g os after w lt rest unfinished m e =
      let e' : ◌≡◌ {A = Result k.Os (List ℕ)} unfinished (returns out g after) = e in cc
  round-Reads fuel rounds sz nread buf out f g os after w lt rest (returns ok h o) m e =
      let (wh, same, why) = refill-Fills k s fuel f h os o ok w m in
      elim (Bool-cases (ok && not (h.pos_tag == h.end_tag))) [
        | inr stop ↦
            stopped-Reads (sz - nread) buf out f h g os o after wh same
              (inr (elim why [
                | inl failed ↦ inr failed.1
                | inr fine ↦ elim fine.1 [
                  | inl ne ↦ absurd (some_left ok h fine.0 ne stop)
                  | inr end ↦ inl (same ∙ end)
                ]
              ]))
              (sym (elim_false (ok && not (h.pos_tag == h.end_tag)) _ _ stop) ∙ e)
        | inl more ↦
            let c = taken k h sz nread in
            let again =
              rest c (buf ++ slice h.cbuf (h.pos_tag - h.tag) c)
                (record h { pos_tag = h.pos_tag + c }) o
                (record {
                  tag_le = omega (arith, wh.tag_le);
                  pos_le = omega (arith, wh.pos_le);
                  fits = wh.fits;
                })
                (omega arith) (sym (elim_true (ok && not (h.pos_tag == h.end_tag)) _ _ more) ∙ e) in
            let left : sz - (nread + c) ≡ sz - nread - c = omega arith in
            more-Reads c (sz - nread) buf out f h g os o after wh (omega arith) (omega arith) same
              (rw left at again)
      ]

  read_loop-Reads :
      (fuel rounds sz nread : ℕ) (buf out : List ℕ) (f g : Cached) (os after : k.Os)
      → IsReader f
      → nread ≤ sz
      → read_loop k fuel rounds sz nread buf f os ≡ returns out g after
      → Reads (sz - nread) buf f os out g after
  read_loop-Reads fuel zero sz nread buf out f g os after w le e =
      let e' : ◌≡◌ {A = Result k.Os (List ℕ)} unfinished (returns out g after) =
        unfold read_loop in e in
      cc
  read_loop-Reads fuel (suc rounds) sz nread buf out f g os after w le e =
      elim (Bool-cases (ltb nread sz)) [
        | inr d ↦
            stopped-Reads (sz - nread) buf out f f g os os after w refl (inl (ground arith))
              (sym (read_done k fuel rounds sz nread buf f os d) ∙ e)
        | inl d ↦
            round-Reads fuel rounds sz nread buf out f g os after w (ltb→lt nread sz d)
              (λ c more h o. read_loop-Reads fuel rounds sz (nread + c) more out h g o after) _ refl
              (sym (read_round k fuel rounds sz nread buf f os d) ∙ e)
      ]

  result-loop :
      (sz : ℕ) (R : Result k.Os (List ℕ)) (r : Option (List ℕ)) (g : Cached) (after : k.Os)
      → read_result k sz R ≡ returns r g after
      → (out : List ℕ) × (R ≡ returns out g after)
        × (r ≡ (if not (length out == 0) || sz == 0 || k.errno after == 0 then some out else none))
  unfolding read_result
  result-loop sz asserts r g after e =
      let e' : ◌≡◌ {A = Result k.Os (Option (List ℕ))} asserts (returns r g after) = e in cc
  result-loop sz unfinished r g after e =
      let e' : ◌≡◌ {A = Result k.Os (Option (List ℕ))} unfinished (returns r g after) = e in cc
  result-loop sz (returns out h o) r g after e =
      let g_is : h ≡ g = cc in
      let after_is : o ≡ after = cc in
      let r_is : (if not (length out == 0) || sz == 0 || k.errno o == 0 then some out else none)
          ≡ r =
        cc in
      (out, rw (g_is, after_is) refl, rw (← after_is) (sym r_is))

  -- On a file that cannot be mapped, when `io61_read_cache` returns it has copied the next bytes of the
  -- file, at most `sz`, and what is read next are the bytes after them. It has copied `sz`, or the
  -- file has no more, or a `read` has failed. It returns their number, but -1 instead of 0 if `sz`
  -- and `errno` are not 0, even at the end of the file.
  pub io61_read_cache-Reads :
      (fuel sz : ℕ) (r : Option (List ℕ)) (f g : Cached) (os after : k.Os)
      → IsReader f
      → io61_check_assertions f ≡ true
      → io61_read_cache k fuel sz f os ≡ returns r g after
      → (out : List ℕ) × (r
          ≡ (if not (length out == 0) || sz == 0 || k.errno after == 0 then some out else none))
        × Reads sz [] f os out g after
  unfolding io61_read_cache
  io61_read_cache-Reads fuel sz r f g os after w ok e =
      let (out, run, r_is) =
        result-loop sz (read_loop k fuel (sz + 1) sz 0 [] f os) r g after
          (sym (choose_true (io61_check_assertions f) _ _ ok) ∙ e) in
      let all : sz - 0 ≡ sz = omega arith in
      (
        out,
        r_is,
        rw all at (read_loop-Reads fuel (sz + 1) sz 0 [] out f g os after w (omega arith) run),
      )

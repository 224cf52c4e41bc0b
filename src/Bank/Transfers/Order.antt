-- ===== src/Bank/Transfers/Order.antt =====
-- Locks are taken in the order of the accounts, so that the threads never all wait for each other.
use mathlib.Core.Path.{subst}
use cs61_f23_psets_tomkhe.Prelude.{
  ℕ, zero, suc, ◌+◌, ◌<◌, ◌≤◌, ◌≡◌, ◌≢◌, refl, sym, ap, ◌∙◌, true, false, min, max, ◌⊎◌, inl, inr,
  arith, Bool-cases,
}
use cs61_f23_psets_tomkhe.Bank.Transfers.{
  Phase, idle, one_locked, both_locked, read_one, read_both, written_one, written_both,
  second_released, Bank, holds, Free, Step, lock_second, read_first, read_second, write_first,
  write_second, unlock_second, unlock_first,
}
use cs61_f23_psets_tomkhe.Bank.Transfers.Ledger.{Reaches, Sound, Known, same_or_not}
use cs61_f23_psets_tomkhe.Bank.Transfers.Steps.{knew_of, first_chunk}
use cs61_f23_psets_tomkhe.Bank.Transfers.Committing.{Reaches-Sound}

-- some thread can take a step
abbrev pub CanStep : ℕ → (ℕ → ℕ) → Bank → Type 0
CanStep n chunk bank = (t : ℕ) × (bank' : Bank) × Step n chunk t bank bank'

-- a lock is free for a thread, or another one of the first `threads` threads holds it
free_or_held :
    (chunk : ℕ → ℕ) (bank : Bank) (t k threads : ℕ)
    → ((t' : ℕ) → t' < threads → t' ≢ t → holds chunk (bank.phases t') k ≡ false)
      ⊎ ((t' : ℕ) × (t' ≢ t) × (holds chunk (bank.phases t') k ≡ true))
free_or_held chunk bank t k zero = inl (λ t' h ne. absurd (omega arith))
free_or_held chunk bank t k (suc threads) = elim (free_or_held chunk bank t k threads) [
  | inr held ↦ inr held
  | inl free ↦ elim (same_or_not threads t) [
    | inl same ↦ inl (λ t' h ne. free t' (other_is_below t' threads t h same ne) ne)
    | inr differ ↦ elim (Bool-cases (holds chunk (bank.phases threads) k)) [
      | inl held ↦ inr (threads, differ, held)
      | inr loose ↦ inl (λ t' h ne. elim (same_or_not t' threads) [
        | inl last ↦ subst (λ x. holds chunk (bank.phases x) k ≡ false) (sym last) loose
        | inr before ↦ free t' (below t' threads h before) ne
      ])
    ]
  ]
]
  where
    other_is_below : (t' threads t : ℕ) → t' < suc threads → threads ≡ t → t' ≢ t → t' < threads
    other_is_below t' threads t h same ne = omega arith

    below : (t' threads : ℕ) → t' < suc threads → t' ≢ threads → t' < threads
    below t' threads h ne = omega arith

-- where a thread stands: outside, able to go on, or with one lock
standing :
    (n : ℕ) (chunk : ℕ → ℕ) (bank : Bank) (t : ℕ) (p : Phase)
    → bank.phases t ≡ p
    → (bank.phases t ≡ idle)
      ⊎ CanStep n chunk bank
      ⊎ ((a : ℕ) × (b : ℕ) × (bank.phases t ≡ one_locked a b))
standing n chunk bank t idle e = inl e
standing n chunk bank t (one_locked a b) e = inr (inr (a, b, e))
standing n chunk bank t (both_locked a b) e = inr (inl (t, _, read_first a b e))
standing n chunk bank t (read_one a b x) e = inr (inl (t, _, read_second a b x e))
standing n chunk bank t (read_both a b x y) e = inr (inl (t, _, write_first a b x y 0 e))
standing n chunk bank t (written_one a b y) e = inr (inl (t, _, write_second a b y e))
standing n chunk bank t (written_both a b) e = inr (inl (t, _, unlock_second a b e))
standing n chunk bank t (second_released a b) e = inr (inl (t, _, unlock_first a b e))

idle_holds : (chunk : ℕ → ℕ) (k : ℕ) {P : Type 0} → holds chunk idle k ≡ true → P
unfolding holds
idle_holds chunk k h = cc

module _ (n threads : ℕ) (chunk : ℕ → ℕ) (bank : Bank) (ledger : ℕ → ℕ)
    (s : Sound n chunk bank ledger) (outside : (t : ℕ) → threads ≤ t → bank.phases t ≡ idle)
    (ordered : (a b : ℕ) → a ≤ b → chunk a ≤ chunk b) where
  no_holder :
      (t k : ℕ)
      → ((t' : ℕ) → t' < threads → t' ≢ t → holds chunk (bank.phases t') k ≡ false)
      → Free chunk bank t k
  unfolding holds
  no_holder t k free t' ne = elim (in_or_out t') [
    | inl h ↦ free t' h ne
    | inr h ↦ ap (λ q. holds chunk q k) (outside t' h)
  ]
    where
      in_or_out : (t' : ℕ) → (t' < threads) ⊎ (threads ≤ t')
      in_or_out t' = omega arith

  second_below : (t a b : ℕ) → bank.phases t ≡ one_locked a b → max a b ≤ n
  unfolding Known
  second_below t a b e =
      let (ne, ha, hb) = knew_of n chunk bank ledger s t (one_locked a b) e in omega arith

  same_or_higher : (k k' : ℕ) → k ≤ k' → (k ≡ k') ⊎ (k < k')
  same_or_higher k k' h = omega arith

  -- a thread with its first lock, that waits for a chunk at most `m` before the last one
  waiter_steps :
      (m t a b : ℕ)
      → bank.phases t ≡ one_locked a b
      → chunk n < chunk (max a b) + m
      → CanStep n chunk bank
  waiter_steps zero t a b e h = absurd (omega (arith, ordered (max a b) n (second_below t a b e)))
  waiter_steps (suc m) t a b e h = elim (free_or_held chunk bank t (chunk (max a b)) threads) [
    | inl free ↦ (t, _, lock_second a b e (no_holder t (chunk (max a b)) free))
    | inr blocked ↦
        let (t', ne, held) = blocked in
        elim (standing n chunk bank t' (bank.phases t') refl) [
          | inl outside_now ↦
              idle_holds chunk (chunk (max a b))
                (sym (ap (λ q. holds chunk q (chunk (max a b))) outside_now) ∙ held)
          | inr (inl goes_on) ↦ goes_on
          | inr (inr waits) ↦
              let (a', b', e') = waits in
              let at : chunk (max a b) ≡ chunk (min a' b') =
                first_chunk chunk a' b' (chunk (max a b))
                  (sym (ap (λ q. holds chunk q (chunk (max a b))) e') ∙ held) in
              elim (same_or_higher (chunk (max a b)) (chunk (max a' b'))
                (omega (arith, at, ordered (min a' b') (max a' b') (omega arith)))) [
                  | inl same ↦ (
                    t',
                    _,
                    lock_second a' b' e' (λ t2 ne2.
                        s.apart t' t2 (chunk (max a' b')) (λ x. ne2 (sym x))
                          (ap (holds chunk (bank.phases t')) (sym same) ∙ held)),
                  )
                  | inr higher ↦ waiter_steps m t' a' b' e' (omega arith)
                ]
        ]
  ]

-- No deadlock: with the accounts in chunks in their order in the file, in every state that finitely
-- many threads reach, either all of them are outside a round or some thread can take a step.
pub transfers_progress :
    (threads : ℕ) {n : ℕ} {chunk initial : ℕ → ℕ} {bank : Bank} {ledger : ℕ → ℕ}
    → Reaches n chunk initial bank ledger
    → ((t : ℕ) → threads ≤ t → bank.phases t ≡ idle)
    → ((a b : ℕ) → a ≤ b → chunk a ≤ chunk b)
    → ((t : ℕ) → bank.phases t ≡ idle) ⊎ CanStep n chunk bank
transfers_progress threads {n} {chunk} {bank = bank} {ledger} r outside ordered =
    elim (any_waiter threads) [
      | inl all_idle ↦ inl (λ t. elim (in_or_out t) [ inl h ↦ all_idle t h | inr h ↦ outside t h ])
      | inr (inl goes_on) ↦ inr goes_on
      | inr (inr waits) ↦
          let (t, a, b, e) = waits in
          inr (
            waiter_steps n threads chunk bank ledger (Reaches-Sound r) outside ordered
              (suc (chunk n)) t a b e (omega arith))
    ]
  where
    in_or_out : (t : ℕ) → (t < threads) ⊎ (threads ≤ t)
    in_or_out t = omega arith

    last_or_before : (t k : ℕ) → t < suc k → (t < k) ⊎ (t ≡ k)
    last_or_before t k h = omega arith

    any_waiter :
        (k : ℕ)
        → ((t : ℕ) → t < k → bank.phases t ≡ idle)
          ⊎ CanStep n chunk bank
          ⊎ ((t : ℕ) × (a : ℕ) × (b : ℕ) × (bank.phases t ≡ one_locked a b))
    any_waiter zero = inl (λ t h. absurd (omega arith))
    any_waiter (suc k) = elim (any_waiter k) [
      | inr found ↦ inr found
      | inl all_idle ↦ elim (standing n chunk bank k (bank.phases k) refl) [
        | inl e ↦ inl (λ t h. elim (last_or_before t k h) [
          | inl before ↦ all_idle t before
          | inr same ↦ ap bank.phases same ∙ e
        ])
        | inr (inl goes_on) ↦ inr (inl goes_on)
        | inr (inr waits) ↦ let (a, b, e) = waits in inr (inr (k, a, b, e))
      ]
    ]

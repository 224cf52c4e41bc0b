-- ===== src/Bank/Transfers/Steps.antt =====
-- Steps that move no money keep what is true of the threads and the ledger.
use mathlib.Core.Path.{subst}
use cs61_f23_psets_tomkhe.Prelude.{
  ℕ, ◌≡◌, ◌≢◌, refl, sym, ap, ◌∙◌, true, false, min, max, ◌⊎◌, inl, inr, arith,
}
use cs61_f23_psets_tomkhe.Bank.Transfers.{
  Phase, idle, one_locked, both_locked, read_one, read_both, written_one, written_both,
  second_released, Bank, set_at, holds, enter, write_balance, Step, lock_first, lock_second,
  read_first, read_second, write_first, write_second, unlock_second, unlock_first,
}
use cs61_f23_psets_tomkhe.Bank.Transfers.Ledger.{
  owes, Known, Sound, same_or_not, at_same, at_other, not_both, Apart, renewed, settled_before,
}

-- a step that only changes the thread's phase
module _ (n : ℕ) (chunk : ℕ → ℕ) (bank : Bank) (ledger : ℕ → ℕ) (s : Sound n chunk bank ledger)
    (t : ℕ) (p : Phase) (e : bank.phases t ≡ p) (debtless : (c : ℕ) → owes p c ≡ false) where
  pub enters :
      (p' : Phase)
      → ((t' k : ℕ) → t' ≢ t → holds chunk p' k ≡ true → holds chunk (bank.phases t') k ≡ false)
      → Known n bank.balances ledger p'
      → Sound n chunk (enter t p' bank) ledger
  unfolding enter Apart
  enters p' apart knows =
      renewed n chunk bank ledger s t p' bank.balances ledger apart knows
        (λ c t' ne h. (refl, refl))
        (λ c o others.
          settled_before n chunk bank ledger s t p bank.balances ledger c
            (ap (λ q. owes q c) e ∙ debtless c) others)

-- what the phase of a thread says
module _ (n : ℕ) (chunk : ℕ → ℕ) (bank : Bank) (ledger : ℕ → ℕ) (s : Sound n chunk bank ledger)
    (t : ℕ) (p : Phase) (e : bank.phases t ≡ p) where
  pub own_of : (t' k : ℕ) → t' ≢ t → holds chunk p k ≡ true → holds chunk (bank.phases t') k ≡ false
  own_of t' k ne h = s.apart t t' k (λ x. ne (sym x)) (ap (λ q. holds chunk q k) e ∙ h)

  pub knew_of : Known n bank.balances ledger p
  knew_of = subst (Known n bank.balances ledger) e (s.known t)

pub holds_first : (chunk : ℕ → ℕ) (a b : ℕ) → holds chunk (written_both a b) (chunk a) ≡ true
unfolding holds
holds_first chunk a b = ground arith

pub holds_second : (chunk : ℕ → ℕ) (a b : ℕ) → holds chunk (written_both a b) (chunk b) ≡ true
unfolding holds
holds_second chunk a b = ground arith

pub owes_other : (a b y c : ℕ) → c ≢ b → owes (written_one a b y) c ≡ false
unfolding owes
owes_other a b y c h = ground arith

pub not_owed : (a b y c : ℕ) → owes (written_one a b y) c ≡ false → c ≢ b
unfolding owes
not_owed a b y c o = ground arith

pub not_idle : (chunk : ℕ → ℕ) (k : ℕ) {P : Type 0} → holds chunk idle k ≡ true → P
unfolding holds
not_idle chunk k h = cc

pub first_chunk :
    (chunk : ℕ → ℕ) (a b k : ℕ) → holds chunk (one_locked a b) k ≡ true → k ≡ chunk (min a b)
unfolding holds
first_chunk chunk a b k h = ground arith

pub second_chunk :
    (chunk : ℕ → ℕ) (a b k : ℕ)
    → holds chunk (both_locked a b) k ≡ true
    → (k ≡ chunk (max a b)) ⊎ (holds chunk (one_locked a b) k ≡ true)
unfolding holds
second_chunk chunk a b k h = ground arith

pub first_of_both :
    (chunk : ℕ → ℕ) (a b k : ℕ)
    → holds chunk (second_released a b) k ≡ true
    → holds chunk (written_both a b) k ≡ true
unfolding holds
first_of_both chunk a b k h = ground arith

pub quiet-Sound :
    (n : ℕ) (chunk : ℕ → ℕ) (t : ℕ) (bank bank' : Bank) (ledger : ℕ → ℕ)
    → Sound n chunk bank ledger
    → Step n chunk t bank bank'
    → ((a b x y : ℕ) → bank.phases t ≢ read_both a b x y)
    → Sound n chunk bank' ledger
unfolding Known owes enter write_balance Apart holds
quiet-Sound n chunk t bank bank' ledger s (lock_first a b e ne ha hb free) unread =
    enters n chunk bank ledger s t idle e (λ c. refl) (one_locked a b)
      (λ t' k other h.
        ap (holds chunk (bank.phases t')) (first_chunk chunk a b k h) ∙ free t' other)
      (ne, ha, hb)
quiet-Sound n chunk t bank bank' ledger s (lock_second a b e free) unread =
    enters n chunk bank ledger s t (one_locked a b) e (λ c. refl) (both_locked a b)
      (λ t' k other h. elim (second_chunk chunk a b k h) [
        | inl at ↦ ap (holds chunk (bank.phases t')) at ∙ free t' other
        | inr first ↦ own_of n chunk bank ledger s t (one_locked a b) e t' k other first
      ])
      (knew_of n chunk bank ledger s t (one_locked a b) e)
quiet-Sound n chunk t bank bank' ledger s (read_first a b e) unread =
    enters n chunk bank ledger s t (both_locked a b) e (λ c. refl) (read_one a b (bank.balances a))
      (own_of n chunk bank ledger s t (both_locked a b) e)
      (knew_of n chunk bank ledger s t (both_locked a b) e, refl)
quiet-Sound n chunk t bank bank' ledger s (read_second a b x e) unread =
    let (two, ka) = knew_of n chunk bank ledger s t (read_one a b x) e in
    enters n chunk bank ledger s t (read_one a b x) e (λ c. refl)
      (read_both a b x (bank.balances b)) (own_of n chunk bank ledger s t (read_one a b x) e)
      (two, ka, refl)
quiet-Sound n chunk t bank bank' ledger s (write_first a b x y amount e) unread =
    absurd (unread a b x y e)
quiet-Sound n chunk t bank bank' ledger s (write_second a b y e) unread =
    let (two, kb) = knew_of n chunk bank ledger s t (written_one a b y) e in
    let mine = own_of n chunk bank ledger s t (written_one a b y) e in
    renewed n chunk bank ledger s t (written_both a b) (set_at b y bank.balances) ledger mine two
      (λ c t' ne h. (
        at_other b y bank.balances c (λ same. not_both h (
            ap (λ x. holds chunk (bank.phases t') (chunk x)) same
            ∙ mine t' (chunk b) ne (holds_second chunk a b))),
        refl,
      ))
      (λ c o others. elim (same_or_not c b) [
        | inl same ↦ at_same b y bank.balances c same ∙ sym kb ∙ ap ledger (sym same)
        | inr differ ↦
            at_other b y bank.balances c differ
            ∙ settled_before n chunk bank ledger s t (written_both a b) bank.balances ledger c
                (ap (λ q. owes q c) e ∙ owes_other a b y c differ) others
      ])
quiet-Sound n chunk t bank bank' ledger s (unlock_second a b e) unread =
    enters n chunk bank ledger s t (written_both a b) e (λ c. refl) (second_released a b)
      (λ t' k other h.
        own_of n chunk bank ledger s t (written_both a b) e t' k other
          (first_of_both chunk a b k h))
      (knew_of n chunk bank ledger s t (written_both a b) e)
quiet-Sound n chunk t bank bank' ledger s (unlock_first a b e) unread =
    enters n chunk bank ledger s t (second_released a b) e (λ c. refl) idle
      (λ t' k other h. not_idle chunk k h) tt

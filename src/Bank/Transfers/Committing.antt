-- ===== src/Bank/Transfers/Committing.antt =====
-- The first write of a round is its transfer in one piece.
use cs61_f23_psets_tomkhe.Prelude.{
  Bool-cases, ℕ, ◌+◌, ◌-◌, ◌≡◌, ◌≢◌, refl, sym, ap, ◌∙◌, true, inl, inr, arith,
}
use cs61_f23_psets_tomkhe.Bank.Transfers.{
  Phase, idle, one_locked, both_locked, read_one, read_both, written_one, written_both,
  second_released, Bank, set_at, delta, holds, enter, write_balance, transfer,
}
use cs61_f23_psets_tomkhe.Bank.Transfers.Ledger.{
  Reaches, owes, Known, Sound, same_or_not, at_same, at_other, not_both, start, quiet, commit,
  Apart, renewed, settled_before,
}
use cs61_f23_psets_tomkhe.Bank.Transfers.Steps.{
  holds_first, holds_second, not_owed, quiet-Sound, own_of, knew_of,
}

-- a thread that owes for an account holds it
pub owes-holds :
    (chunk : ℕ → ℕ) (p : Phase) (c : ℕ) → owes p c ≡ true → holds chunk p (chunk c) ≡ true
unfolding owes holds
owes-holds chunk idle c h = cc
owes-holds chunk (one_locked a b) c h = cc
owes-holds chunk (both_locked a b) c h = cc
owes-holds chunk (read_one a b x) c h = cc
owes-holds chunk (read_both a b x y) c h = cc
owes-holds chunk (written_one a b y) c h = ground arith
owes-holds chunk (written_both a b) c h = cc
owes-holds chunk (second_released a b) c h = cc

-- the accounts that a thread has read are as the ledger says
pub read-ledger :
    (n : ℕ) (chunk : ℕ → ℕ) (bank : Bank) (ledger : ℕ → ℕ) (t a b x y : ℕ)
    → Sound n chunk bank ledger
    → bank.phases t ≡ read_both a b x y
    → (c : ℕ) → holds chunk (read_both a b x y) (chunk c) ≡ true
    → bank.balances c ≡ ledger c
unfolding owes
read-ledger n chunk bank ledger t a b x y s e c h =
    settled_before n chunk bank ledger s t (read_both a b x y) bank.balances ledger c
      (ap (λ q. owes q c) e)
      (λ t' ne. elim (Bool-cases (owes (bank.phases t') c)) [
        | inl debt ↦
            not_both (owes-holds chunk (bank.phases t') c debt)
              (own_of n chunk bank ledger s t (read_both a b x y) e t' (chunk c) ne h)
        | inr none_owed ↦ none_owed
      ])

pub transfer_to :
    (a b amount : ℕ) (ledger : ℕ → ℕ)
    → transfer a b amount ledger b ≡ ledger b + delta (ledger a) (ledger b) amount
unfolding transfer
transfer_to a b amount ledger = ground arith

pub transfer_from :
    (a b amount : ℕ) (ledger : ℕ → ℕ)
    → a ≢ b
    → transfer a b amount ledger a ≡ ledger a - delta (ledger a) (ledger b) amount
unfolding transfer
transfer_from a b amount ledger h = ground arith

pub transfer_else :
    (a b amount c : ℕ) (ledger : ℕ → ℕ) → c ≢ a → c ≢ b → transfer a b amount ledger c ≡ ledger c
unfolding transfer
transfer_else a b amount c ledger ha hb = ground arith

pub commit-Sound :
    (n : ℕ) (chunk : ℕ → ℕ) (bank : Bank) (ledger : ℕ → ℕ) (t a b x y amount : ℕ)
    → Sound n chunk bank ledger
    → bank.phases t ≡ read_both a b x y
    → Sound n chunk
        (write_balance a
          (x - delta x y amount)
          (enter t (written_one a b (y + delta x y amount)) bank))
        (transfer a b amount ledger)
unfolding enter write_balance Known Apart holds owes
commit-Sound n chunk bank ledger t a b x y amount s e =
    let p = read_both a b x y in
    let ((differ, ha, hb), ka, kb) = knew_of n chunk bank ledger s t p e in
    let mine = own_of n chunk bank ledger s t p e in
    let la : ledger a ≡ x =
      sym (read-ledger n chunk bank ledger t a b x y s e a (holds_first chunk a b)) ∙ ka in
    let lb : ledger b ≡ y =
      sym (read-ledger n chunk bank ledger t a b x y s e b (holds_second chunk a b)) ∙ kb in
    let moved : delta (ledger a) (ledger b) amount ≡ delta x y amount =
      ap (λ u. delta u (ledger b) amount) la ∙ ap (λ u. delta x u amount) lb in
    renewed n chunk bank ledger s t (written_one a b (y + delta x y amount))
      (set_at a (x - delta x y amount) bank.balances) (transfer a b amount ledger) mine
      (
        (differ, ha, hb),
        transfer_to a b amount ledger
            ∙ ap (λ u. u + delta (ledger a) (ledger b) amount) lb
            ∙ ap (λ u. y + u) moved,
      )
      (λ c t' ne h.
        let apart_from : (d : ℕ) → holds chunk p (chunk d) ≡ true → c ≢ d = λ d hd same.
          not_both h
            (ap (λ u. holds chunk (bank.phases t') (chunk u)) same ∙ mine t' (chunk d) ne hd) in
        let not_a = apart_from a (holds_first chunk a b) in
        let not_b = apart_from b (holds_second chunk a b) in
        (
          at_other a (x - delta x y amount) bank.balances c not_a,
          transfer_else a b amount c ledger not_a not_b,
        ))
      (λ c o others. elim (same_or_not c a) [
        | inl same ↦
            at_same a (x - delta x y amount) bank.balances c same
            ∙ sym (
                ap (transfer a b amount ledger) same
                ∙ transfer_from a b amount ledger differ
                ∙ ap (λ u. u - delta (ledger a) (ledger b) amount) la
                ∙ ap (λ u. x - u) moved)
        | inr not_a ↦
            at_other a (x - delta x y amount) bank.balances c not_a
            ∙ settled_before n chunk bank ledger s t p bank.balances ledger c (ap (λ q. owes q c) e)
                others
            ∙ sym (
                transfer_else a b amount c ledger not_a
                  (λ same. not_owed a b (y + delta x y amount) c o same))
      ])

pub Reaches-Sound :
    {n : ℕ} {chunk initial : ℕ → ℕ} {bank : Bank} {ledger : ℕ → ℕ}
    → Reaches n chunk initial bank ledger
    → Sound n chunk bank ledger
unfolding Known holds owes
Reaches-Sound start = record {
  apart = λ t t' k ne h. refl;
  known = λ t. tt;
  settled = λ c nobody. refl;
}
Reaches-Sound {n} {chunk} (quiet {bank} {bank'} {ledger} t r step unread) =
    quiet-Sound n chunk t bank bank' ledger (Reaches-Sound r) step unread
Reaches-Sound {n} {chunk} (commit {bank} {ledger} t a b x y amount r e) =
    commit-Sound n chunk bank ledger t a b x y amount (Reaches-Sound r) e

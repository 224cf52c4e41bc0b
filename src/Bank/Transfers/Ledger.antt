-- ===== src/Bank/Transfers/Ledger.antt =====
-- The interleaved transfers against a ledger of transfers in one piece: the states that the threads
-- reach, and what is true in them.
use mathlib.Core.Path.{subst}
use mathlib.Core.Bool.{true≢false}
use cs61_f23_psets_tomkhe.Prelude.{
  choose_true, choose_false, Bool-cases, ℕ, ◌+◌, ◌-◌, ◌<◌, ◌≡◌, ◌≢◌, refl, sym, ap, ◌∙◌, Bool, true,
  false, ◌==◌, ◌⊎◌, inl, inr, arith,
}
use cs61_f23_psets_tomkhe.Bank.Transfers.{
  Phase, idle, one_locked, both_locked, read_one, read_both, written_one, written_both,
  second_released, Bank, set_at, delta, holds, enter, write_balance, Step, transfer,
}

-- The states that the threads reach from one in which all are outside a round, and the ledger: the
-- balances of the start after the transfers, each in one piece at its first write.
pub data Reaches (naccounts : ℕ) (chunk : ℕ → ℕ) (initial : ℕ → ℕ) : Bank → (ℕ → ℕ) → Type 0 where
  start :
      Reaches naccounts chunk initial (record { balances = initial; phases = λ _. idle }) initial
  quiet :
      {bank bank' : Bank} {ledger : ℕ → ℕ} (t : ℕ)
      → Reaches naccounts chunk initial bank ledger
      → Step naccounts chunk t bank bank'
      → ((a b x y : ℕ) → bank.phases t ≢ read_both a b x y)
      → Reaches naccounts chunk initial bank' ledger
  commit :
      {bank : Bank} {ledger : ℕ → ℕ} (t a b x y amount : ℕ)
      → Reaches naccounts chunk initial bank ledger
      → bank.phases t ≡ read_both a b x y
      → Reaches naccounts chunk initial
          (write_balance a
            (x - delta x y amount)
            (enter t (written_one a b (y + delta x y amount)) bank))
          (transfer a b amount ledger)

-- the thread has not yet written what the ledger has for the account
unfoldable pub owes : Phase → ℕ → Bool
owes (written_one a b _) c = b == c
owes _ c = false

abbrev pub Two : ℕ → ℕ → ℕ → Type 0
Two naccounts a b = (a ≢ b) × (a < naccounts) × (b < naccounts)

-- two accounts, and what the thread knows of them
unfoldable pub Known : ℕ → (ℕ → ℕ) → (ℕ → ℕ) → Phase → Type 0
Known n balances ledger idle = Unit
Known n balances ledger (one_locked a b) = Two n a b
Known n balances ledger (both_locked a b) = Two n a b
Known n balances ledger (read_one a b x) = Two n a b × (balances a ≡ x)
Known n balances ledger (read_both a b x y) = Two n a b × (balances a ≡ x) × (balances b ≡ y)
Known n balances ledger (written_one a b y) = Two n a b × (ledger b ≡ y)
Known n balances ledger (written_both a b) = Two n a b
Known n balances ledger (second_released a b) = Two n a b

pub record Sound (n : ℕ) (chunk : ℕ → ℕ) (bank : Bank) (ledger : ℕ → ℕ) : Type 0 where
  pub apart :
      (t t' k : ℕ)
      → t ≢ t'
      → holds chunk (bank.phases t) k ≡ true
      → holds chunk (bank.phases t') k ≡ false
  pub known : (t : ℕ) → Known n bank.balances ledger (bank.phases t)
  pub settled : (c : ℕ) → ((t : ℕ) → owes (bank.phases t) c ≡ false) → bank.balances c ≡ ledger c

-- what a thread knows depends only on the accounts that it holds
pub unaffected :
    (n : ℕ) (chunk balances ledger balances' ledger' : ℕ → ℕ) (p : Phase)
    → Known n balances ledger p
    → ((c : ℕ)
        → holds chunk p (chunk c) ≡ true
        → (balances' c ≡ balances c) × (ledger' c ≡ ledger c))
    → Known n balances' ledger' p
unfolding Known holds
unaffected n chunk balances ledger balances' ledger' idle k same = tt
unaffected n chunk balances ledger balances' ledger' (one_locked a b) k same = k
unaffected n chunk balances ledger balances' ledger' (both_locked a b) k same = k
unaffected n chunk balances ledger balances' ledger' (read_one a b x) (two, ka) same =
    (two, (same a (ground arith)).0 ∙ ka)
unaffected n chunk balances ledger balances' ledger' (read_both a b x y) (two, ka, kb) same =
    (two, (same a (ground arith)).0 ∙ ka, (same b (ground arith)).0 ∙ kb)
unaffected n chunk balances ledger balances' ledger' (written_one a b y) (two, kb) same =
    (two, (same b (ground arith)).1 ∙ kb)
unaffected n chunk balances ledger balances' ledger' (written_both a b) k same = k
unaffected n chunk balances ledger balances' ledger' (second_released a b) k same = k

pub same_or_not : (t t' : ℕ) → (t ≡ t') ⊎ (t ≢ t')
same_or_not t t' = omega arith

pub at_same {ℓ} : {A : Type ℓ} (t : ℕ) (v : A) (f : ℕ → A) (t' : ℕ) → t' ≡ t → set_at t v f t' ≡ v
at_same t v f t' h = choose_true (t' == t) _ _ (ground arith)

pub at_other {ℓ} :
    {A : Type ℓ} (t : ℕ) (v : A) (f : ℕ → A) (t' : ℕ) → t' ≢ t → set_at t v f t' ≡ f t'
at_other t v f t' h = choose_false (t' == t) _ _ (ground arith)

pub not_both : {b : Bool} {P : Type 0} → b ≡ true → b ≡ false → P
not_both h k = absurd (true≢false (sym h ∙ k))

-- the thread `t` has gone to the phase `p`, with new balances and a new ledger
module _ (n : ℕ) (chunk : ℕ → ℕ) (bank : Bank) (ledger : ℕ → ℕ) (s : Sound n chunk bank ledger)
    (t : ℕ) (p : Phase) (balances' ledger' : ℕ → ℕ) where
  unfoldable pub Apart : Type 0
  Apart = (t' k : ℕ) → t' ≢ t → holds chunk p k ≡ true → holds chunk (bank.phases t') k ≡ false

  pub still_apart :
      Apart
      → (t1 t2 k : ℕ) → t1 ≢ t2
      → holds chunk (set_at t p bank.phases t1) k ≡ true
      → holds chunk (set_at t p bank.phases t2) k ≡ false
  unfolding Apart
  still_apart apart t1 t2 k ne h = elim (same_or_not t1 t) [
    | inl e1 ↦
        ap (λ q. holds chunk q k) (at_other t p bank.phases t2 (λ e2. ne (e1 ∙ sym e2)))
        ∙ apart t2 k (λ e2. ne (e1 ∙ sym e2))
            (sym (ap (λ q. holds chunk q k) (at_same t p bank.phases t1 e1)) ∙ h)
    | inr ne1 ↦
        let h1 : holds chunk (bank.phases t1) k ≡ true =
          sym (ap (λ q. holds chunk q k) (at_other t p bank.phases t1 ne1)) ∙ h in
        elim (same_or_not t2 t) [
          | inl e2 ↦
              ap (λ q. holds chunk q k) (at_same t p bank.phases t2 e2)
              ∙ elim (Bool-cases (holds chunk p k)) [
                | inl both ↦ not_both h1 (apart t1 k ne1 both)
                | inr apart_too ↦ apart_too
              ]
          | inr ne2 ↦
              ap (λ q. holds chunk q k) (at_other t p bank.phases t2 ne2) ∙ s.apart t1 t2 k ne h1
        ]
  ]

  pub renewed :
      Apart
      → Known n balances' ledger' p
      → ((c t' : ℕ)
          → t' ≢ t
          → holds chunk (bank.phases t') (chunk c) ≡ true
          → (balances' c ≡ bank.balances c) × (ledger' c ≡ ledger c))
      → ((c : ℕ)
          → owes p c ≡ false
          → ((t' : ℕ) → t' ≢ t → owes (bank.phases t') c ≡ false)
          → balances' c ≡ ledger' c)
      → Sound n chunk (record { balances = balances'; phases = set_at t p bank.phases }) ledger'
  renewed apart knows frame settles = record {
    apart = still_apart apart;
    known = λ t'. elim (same_or_not t' t) [
      | inl e ↦ subst (Known n balances' ledger') (sym (at_same t p bank.phases t' e)) knows
      | inr ne ↦ subst (Known n balances' ledger') (sym (at_other t p bank.phases t' ne)) (
          unaffected n chunk bank.balances ledger balances' ledger' (bank.phases t') (s.known t')
            (λ c h. frame c t' ne h))
    ];
    settled = λ c nobody.
        settles c (sym (ap (λ q. owes q c) (at_same t p bank.phases t refl)) ∙ nobody t)
          (λ t' ne. sym (ap (λ q. owes q c) (at_other t p bank.phases t' ne)) ∙ nobody t');
  }

  -- if nobody else owes for an account, and the thread did not, it is as the ledger says
  pub settled_before :
      (c : ℕ)
      → owes (bank.phases t) c ≡ false
      → ((t' : ℕ) → t' ≢ t → owes (bank.phases t') c ≡ false)
      → bank.balances c ≡ ledger c
  settled_before c mine others = s.settled c (λ t'. elim (same_or_not t' t) [
    | inl e ↦ ap (λ x. owes (bank.phases x) c) e ∙ mine
    | inr ne ↦ others t' ne
  ])

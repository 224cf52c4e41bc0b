-- ===== src/Bank/Transfers/Conservation.antt =====
-- What the interleaved transfers leave in the file, and its sum.
use cs61_f23_psets_tomkhe.Prelude.{
  ℕ, zero, suc, ◌+◌, ◌-◌, ◌<◌, ◌≤◌, ◌≡◌, ◌≢◌, refl, sym, ap, ◌∙◌, false, inl, inr, arith,
}
use cs61_f23_psets_tomkhe.Bank.Transfers.{idle, read_both, Bank, set_at, delta, transfer}
use cs61_f23_psets_tomkhe.Bank.Transfers.Ledger.{
  Reaches, owes, Two, Known, Sound, same_or_not, at_other, start, quiet, commit,
}
use cs61_f23_psets_tomkhe.Bank.Transfers.Steps.{knew_of}
use cs61_f23_psets_tomkhe.Bank.Transfers.Committing.{Reaches-Sound}

-- the sum of the balances of the first `n` accounts
abbrev pub total : ℕ → (ℕ → ℕ) → ℕ
total zero balances = 0
total (suc n) balances = total n balances + balances n

pub total_above : (n c v : ℕ) (f : ℕ → ℕ) → n ≤ c → total n (set_at c v f) ≡ total n f
total_above zero c v f h = refl
total_above (suc n) c v f h = ground (arith, total_above n c v f (omega arith))

pub total-set_at : (n c v : ℕ) (f : ℕ → ℕ) → c < n → total n (set_at c v f) + f c ≡ total n f + v
total-set_at zero c v f h = ground arith
total-set_at (suc n) c v f h = elim (same_or_not n c) [
  | inl last ↦ ground (arith, total_above n c v f (omega arith))
  | inr before ↦ ground (arith, total-set_at n c v f (omega arith))
]

pub delta_le : (x y amount : ℕ) → delta x y amount ≤ x
unfolding delta
delta_le x y amount = omega arith

-- a transfer in one piece moves money
pub total-transfer :
    (n a b amount : ℕ) (ledger : ℕ → ℕ)
    → a ≢ b
    → a < n
    → b < n
    → total n (transfer a b amount ledger) ≡ total n ledger
unfolding transfer
total-transfer n a b amount ledger ne ha hb =
    let d = delta (ledger a) (ledger b) amount in
    omega (
      arith,
      total-set_at n a (ledger a - d) ledger ha,
      total-set_at n b (ledger b + d) (set_at a (ledger a - d) ledger) hb,
      at_other a (ledger a - d) ledger b (λ e. ne (sym e)),
      delta_le (ledger a) (ledger b) amount,
    )

pub total_same : (n : ℕ) (f g : ℕ → ℕ) → ((c : ℕ) → f c ≡ g c) → total n f ≡ total n g
total_same zero f g h = refl
total_same (suc n) f g h = ground (arith, total_same n f g h, h n)

pub accounts_of :
    (n : ℕ) {chunk : ℕ → ℕ} (bank : Bank) (ledger : ℕ → ℕ) (t a b x y : ℕ)
    → Sound n chunk bank ledger
    → bank.phases t ≡ read_both a b x y
    → Two n a b
unfolding Known
accounts_of n {chunk} bank ledger t a b x y s e =
    (knew_of n chunk bank ledger s t (read_both a b x y) e).0

pub idle_debtless : (c : ℕ) → owes idle c ≡ false
unfolding owes
idle_debtless c = refl

pub total-Reaches :
    {n : ℕ} {chunk initial : ℕ → ℕ} {bank : Bank} {ledger : ℕ → ℕ}
    → Reaches n chunk initial bank ledger
    → total n ledger ≡ total n initial
total-Reaches start = refl
total-Reaches (quiet t r step unread) = total-Reaches r
total-Reaches {n} {chunk} (commit {bank} {ledger} t a b x y amount r e) =
    let (ne, ha, hb) = accounts_of n bank ledger t a b x y (Reaches-Sound r) e in
    total-transfer n a b amount ledger ne ha hb ∙ total-Reaches r

-- Whatever the threads do, and however their steps interleave, when all of them are outside a round
-- the file holds what the same transfers leave that are each made in one piece, one after the other;
-- and the sum of all balances is that of the start.
pub transfers_conserve :
    {n : ℕ} {chunk initial : ℕ → ℕ} {bank : Bank} {ledger : ℕ → ℕ}
    → Reaches n chunk initial bank ledger
    → ((t : ℕ) → bank.phases t ≡ idle)
    → ((c : ℕ) → bank.balances c ≡ ledger c) × (total n bank.balances ≡ total n initial)
transfers_conserve {n} {bank = bank} {ledger} r idle_all =
    let same = λ (c : ℕ).
      (Reaches-Sound r).settled c (λ t. ap (λ q. owes q c) (idle_all t) ∙ idle_debtless c) in
    (same, total_same n bank.balances ledger same ∙ total-Reaches r)

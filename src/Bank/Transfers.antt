-- ===== src/Bank/Transfers.antt =====
-- `transfer_thread` of pset6/ftxxfer.cc, a round of which each thread is somewhere inside. The file
-- is its balances, numbers of at most 7 digits. An account is locked through the chunk of the file
-- that holds it, given by the parameter `chunk`; a lock is granted if no other thread holds one in
-- the same chunk, as Io61/Locks shows. The accounts and the amount that a round draws, an amount not
-- negative, are arguments of its steps.
pub mod Order
pub mod Ledger
pub mod Steps
pub mod Committing
pub mod Conservation
use cs61_f23_psets_tomkhe.Prelude.{
  ℕ, zero, suc, ◌+◌, ◌-◌, ◌<◌, ◌≡◌, ◌≢◌, Bool, true, false, ◌||◌, min, max, ◌==◌, if◌then◌else◌,
}

-- where a thread stands in a round of the loop: with which accounts, and what it has read
pub data Phase : Type 0 where
  idle : Phase
  one_locked : ℕ → ℕ → Phase
  both_locked : ℕ → ℕ → Phase
  read_one : ℕ → ℕ → ℕ → Phase
  read_both : ℕ → ℕ → ℕ → ℕ → Phase
  written_one : ℕ → ℕ → ℕ → Phase
  written_both : ℕ → ℕ → Phase
  second_released : ℕ → ℕ → Phase

pub record Bank : Type 0 where
  pub balances : ℕ → ℕ
  pub phases : ℕ → Phase

abbrev pub set_at {ℓ} : {A : Type ℓ} → ℕ → A → (ℕ → A) → ℕ → A
set_at i v f j = if j == i then v else f j

-- the amount that moves, from the balances read and the amount drawn
unfoldable pub delta : ℕ → ℕ → ℕ → ℕ
delta x y amount = min (min x amount) (9999999 - y)

-- whether a thread holds a lock in a chunk: `guard1` locks the lower account, `guard2` the other
unfoldable pub holds : (ℕ → ℕ) → Phase → ℕ → Bool
holds chunk idle k = false
holds chunk (one_locked a b) k = chunk (min a b) == k
holds chunk (both_locked a b) k = chunk a == k || chunk b == k
holds chunk (read_one a b _) k = chunk a == k || chunk b == k
holds chunk (read_both a b _ _) k = chunk a == k || chunk b == k
holds chunk (written_one a b _) k = chunk a == k || chunk b == k
holds chunk (written_both a b) k = chunk a == k || chunk b == k
holds chunk (second_released a b) k = chunk (min a b) == k

-- the condition on which `io61_lock` returns
abbrev pub Free : (ℕ → ℕ) → Bank → ℕ → ℕ → Type 0
Free chunk bank t k = (t' : ℕ) → t' ≢ t → holds chunk (bank.phases t') k ≡ false

unfoldable pub enter : ℕ → Phase → Bank → Bank
enter t p bank = record { balances = bank.balances; phases = set_at t p bank.phases }

unfoldable pub write_balance : ℕ → ℕ → Bank → Bank
write_balance c v bank = record { balances = set_at c v bank.balances; phases = bank.phases }

-- A step of the thread `t`, one for each call that the others can see. `guard2` is released before
-- `guard1`, at the end of the round.
pub data Step (naccounts : ℕ) (chunk : ℕ → ℕ) (t : ℕ) (bank : Bank) : Bank → Type 0 where
  lock_first :
      (a b : ℕ)
      → bank.phases t ≡ idle
      → a ≢ b
      → a < naccounts
      → b < naccounts
      → Free chunk bank t (chunk (min a b))
      → Step naccounts chunk t bank (enter t (one_locked a b) bank)
  lock_second :
      (a b : ℕ)
      → bank.phases t ≡ one_locked a b
      → Free chunk bank t (chunk (max a b))
      → Step naccounts chunk t bank (enter t (both_locked a b) bank)
  read_first :
      (a b : ℕ)
      → bank.phases t ≡ both_locked a b
      → Step naccounts chunk t bank (enter t (read_one a b (bank.balances a)) bank)
  read_second :
      (a b x : ℕ)
      → bank.phases t ≡ read_one a b x
      → Step naccounts chunk t bank (enter t (read_both a b x (bank.balances b)) bank)
  write_first :
      (a b x y amount : ℕ)
      → bank.phases t ≡ read_both a b x y
      → Step naccounts chunk t bank (
          write_balance a
            (x - delta x y amount)
            (enter t (written_one a b (y + delta x y amount)) bank))
  write_second :
      (a b y : ℕ)
      → bank.phases t ≡ written_one a b y
      → Step naccounts chunk t bank (write_balance b y (enter t (written_both a b) bank))
  unlock_second :
      (a b : ℕ)
      → bank.phases t ≡ written_both a b
      → Step naccounts chunk t bank (enter t (second_released a b) bank)
  unlock_first :
      (a b : ℕ)
      → bank.phases t ≡ second_released a b
      → Step naccounts chunk t bank (enter t idle bank)

-- a transfer in one piece, on the balances
unfoldable pub transfer : ℕ → ℕ → ℕ → (ℕ → ℕ) → ℕ → ℕ
transfer a b amount ledger =
    let d = delta (ledger a) (ledger b) amount in
    set_at b (ledger b + d) (set_at a (ledger a - d) ledger)

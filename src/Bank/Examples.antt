-- ===== src/Bank/Examples.antt =====
-- Runs of the bank transfers, and the properties at concrete inputs.
use cs61_f23_psets_tomkhe.Prelude.{
  ℕ, ◌≤◌, ◌≡◌, refl, ap, some, List, [], ◌∷◌, ◌⊎◌, arith, ◌==◌, if◌then◌else◌, length, pos,
}
use cs61_f23_psets_tomkhe.Bank.Transfers.{
  Phase, idle, one_locked, both_locked, read_one, read_both, written_one, written_both,
  second_released, Bank, delta, holds, enter, write_balance, lock_first, lock_second, read_first,
  read_second, write_second, unlock_second, unlock_first, transfer,
}
use cs61_f23_psets_tomkhe.Bank.Transfers.Ledger.{Reaches, start, quiet, commit, at_other}
use cs61_f23_psets_tomkhe.Bank.Transfers.Conservation.{total, transfers_conserve}
use cs61_f23_psets_tomkhe.Bank.Transfers.Order.{CanStep, transfers_progress}
use cs61_f23_psets_tomkhe.Bank.Records.{parsed, name_of, parse, unparse, put_balance}
use cs61_f23_psets_tomkhe.Bank.Records.RoundTrip.{parse-unparse}

abbrev at_first : ℕ → ℕ
at_first c = if c == 0 then 100 else 5

-- each account in a chunk of its own
abbrev own_chunk : ℕ → ℕ
own_chunk c = c

abbrev all_idle : Bank
all_idle = record { balances = at_first; phases = λ _. idle }

abbrev in_phase : Phase → Bank
in_phase p = enter 0 p all_idle

-- the first thread locks both accounts, the lower one first
one_lock : Reaches 2 own_chunk at_first (in_phase (one_locked 1 0)) at_first
unfolding holds
one_lock =
    quiet 0 start (lock_first 1 0 refl (ground arith) (omega arith) (omega arith) (λ t' ne. refl))
      (λ a b x y h. cc)

two_locks :
    Reaches 2 own_chunk at_first (enter 0 (both_locked 1 0) (in_phase (one_locked 1 0))) at_first
unfolding holds enter
two_locks =
    quiet 0 one_lock
      (lock_second 1 0 refl
        (λ t' ne. ap (λ q. holds own_chunk q 1) (at_other 0 (one_locked 1 0) (λ _. idle) t' ne)))
      (λ a b x y h. cc)

abbrev one_read : Bank
one_read = enter 0 (read_one 1 0 5) (enter 0 (both_locked 1 0) (in_phase (one_locked 1 0)))

abbrev both_read : Bank
both_read = enter 0 (read_both 1 0 5 100) one_read

abbrev one_written : Bank
one_written = write_balance 1 0 (enter 0 (written_one 1 0 105) both_read)

abbrev both_written : Bank
both_written = write_balance 0 105 (enter 0 (written_both 1 0) one_written)

abbrev done : Bank
done = enter 0 idle (enter 0 (second_released 1 0) both_written)

-- a round that moves 5 of the 30 drawn, all that the account has
reads : Reaches 2 own_chunk at_first both_read at_first
unfolding enter
reads =
    quiet 0 (quiet 0 two_locks (read_first 1 0 refl) (λ a b x y h. cc)) (read_second 1 0 5 refl)
      (λ a b x y h. cc)

writes : Reaches 2 own_chunk at_first one_written (transfer 1 0 30 at_first)
unfolding enter write_balance delta
writes = commit 0 1 0 5 100 30 reads refl

round_done : Reaches 2 own_chunk at_first done (transfer 1 0 30 at_first)
unfolding enter write_balance
round_done =
    quiet 0
      (quiet 0 (quiet 0 writes (write_second 1 0 105 refl) (λ a b x y h. cc))
        (unlock_second 1 0 refl) (λ a b x y h. cc))
      (unlock_first 1 0 refl) (λ a b x y h. cc)

done_idle : (t : ℕ) → done.phases t ≡ idle
unfolding enter write_balance
done_idle t = ground arith

transfers_conserve_example :
    ((c : ℕ) → done.balances c ≡ transfer 1 0 30 at_first c)
    × (total 2 done.balances ≡ total 2 at_first)
transfers_conserve_example = transfers_conserve round_done done_idle

outside_idle : (t : ℕ) → 1 ≤ t → (in_phase (one_locked 1 0)).phases t ≡ idle
unfolding enter
outside_idle t h = at_other 0 (one_locked 1 0) (λ _. idle) t (omega arith)

transfers_progress_example :
    ((t : ℕ) → (in_phase (one_locked 1 0)).phases t ≡ idle)
    ⊎ CanStep 2 own_chunk (in_phase (one_locked 1 0))
transfers_progress_example = transfers_progress 1 one_lock outside_idle (λ a b h. h)

abbrev alice : List ℕ
alice =
    b'a' ∷ b'l' ∷ b'i' ∷ b'c' ∷ b'e' ∷ b' ' ∷ b' ' ∷ b' ' ∷ b' ' ∷ b' ' ∷ b' ' ∷ b' ' ∷ b' ' ∷ b'4'
    ∷ b'2' ∷ 10 ∷ []

parse-unparse_example :
    (bytes : List ℕ) × (unparse (pos 1234) ≡ some bytes)
    × (length bytes ≡ 8)
    × (parse (put_balance alice bytes) 8 ≡ parsed (name_of 7 (put_balance alice bytes)) (pos 1234))
parse-unparse_example = parse-unparse alice 8 1234 refl (omega arith)

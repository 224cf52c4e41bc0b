-- ===== src/Io61/Reading/Finishing.antt =====
-- `io61_read_cache` of pset4/io61.cc returns.
use cs61_f23_psets_tomkhe.Prelude.{ℕ, ◌≤◌, ◌<◌, ◌≡◌, Bool, List}
use cs61_f23_psets_tomkhe.Io61.Cache.{Cached, Result, returns}
use cs61_f23_psets_tomkhe.Io61.Reading.{got, try_again, read_error, Source}
use cs61_f23_psets_tomkhe.Io61.Reading.Filling.{IsStream}

-- `read` answers with `EINTR` or `EAGAIN` a finite number of times.
pub record IsPersistent (k : Source) : Type 0 where
  pub retries : k.Os → ℕ
  pub fewer :
      (os after : k.Os) (n : ℕ) → k.read os n ≡ (try_again, after) → retries after < retries os
  pub no_more :
      (os after : k.Os) (n : ℕ) (bytes : List ℕ)
      → k.read os n ≡ (got bytes, after)
      → retries after ≤ retries os
  pub gives_up :
      (os after : k.Os) (n : ℕ) → k.read os n ≡ (read_error, after) → retries after ≤ retries os

module _ (k : Source) (s : IsStream k) (p : IsPersistent k) where
  abbrev Ends : k.Os → Result k.Os Bool → Type 0
  Ends os r =
      (ok : Bool) × (g : Cached) × (after : k.Os) × (r ≡ returns ok g after)
      × (p.retries after ≤ p.retries os)

  abbrev LoopEnds : Result k.Os (List ℕ) → Type 0
  LoopEnds r = (out : List ℕ) × (g : Cached) × (after : k.Os) × (r ≡ returns out g after)

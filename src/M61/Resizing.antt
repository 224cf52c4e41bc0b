-- ===== src/M61/Resizing.antt =====
-- `m61_realloc` of pset1/m61.cc on an active block: moved to a larger one, or shrunk in place.
use Prim.Native.String.{String}
use cs61_f23_psets_tomkhe.Prelude.{ℕ, ◌+◌, ◌-◌, ◌<◌, ◌≡◌, ◌∙◌, some, arith}
use cs61_f23_psets_tomkhe.OrderedMap.{find}
use cs61_f23_psets_tomkhe.OrderedMap.Total.{total, total-assign}
use cs61_f23_psets_tomkhe.M61.State.{size, Metadata, Heap, returned, ptoi, memcpy}
use cs61_f23_psets_tomkhe.M61.Malloc.{m61_malloc}
use cs61_f23_psets_tomkhe.M61.Realloc.{
  resized, shrink_in_place, move_block, realloc_block, m61_realloc,
}
use cs61_f23_psets_tomkhe.M61.Invariant.{bytes, of_block, requested, IsWellFormed}
use cs61_f23_psets_tomkhe.M61.Preserve.Tiling.{free_of_active}
use cs61_f23_psets_tomkhe.M61.Freeing.{not_null}

-- The `n` bytes of one memory from `x` on are those of another from `y` on.
abbrev pub HasBytes : ℕ → ℕ → (ℕ → ℕ) → ℕ → (ℕ → ℕ) → Type 0
HasBytes n x mem y old = (i : ℕ) → i < n → mem (x + i) ≡ old (y + i)

module _ (ptr sz : ℕ) (file : String) (line : ℕ) (s : Heap) (v : IsWellFormed s) (d : Metadata)
    (a : find (ptoi s ptr) s.allocated_blocks ≡ some d) where
  realloc_active : 0 < sz → m61_realloc ptr sz file line s ≡ realloc_block ptr sz file line d s
  unfolding m61_realloc
  realloc_active pos = ground (arith, not_null ptr s v d a, free_of_active s v (ptoi s ptr) d a)

  new : ℕ
  new = (m61_malloc sz file line s).0

  after : Heap
  after = (m61_malloc sz file line s).1

  copied : Heap
  unfolding new after
  copied = record after { mem = memcpy (ptoi after new) (ptoi after ptr) d.sz after.mem }

  -- When no new block is found, `m61_realloc` returns null, and the old block stays as it was.
  pub m61_realloc_no_room :
      d.sz < sz
      → (m61_malloc sz file line s).0 ≡ 0
      → m61_realloc ptr sz file line s ≡ returned 0 (m61_malloc sz file line s).1
  unfolding realloc_block move_block
  m61_realloc_no_room h z = realloc_active (omega arith) ∙ ground arith

  -- The bug of `m61_realloc`: whenever it shrinks an active block, the bytes given up are in no
  -- block afterwards, active or free, and `active_size` still counts them.
  pub m61_realloc_loses :
      0 < sz
      → sz < d.sz
      → (t : Heap) × (m61_realloc ptr sz file line s ≡ returned ptr t)
        × (total bytes t.free_blocks + total (of_block bytes) t.allocated_blocks + (d.sz - sz)
            ≡ size)
        × (t.stats.active_size ≡ total requested t.allocated_blocks + (d.sz - sz))
  unfolding realloc_block shrink_in_place
  m61_realloc_loses pos less = (
    shrink_in_place sz line (ptoi s ptr) d s,
    realloc_active pos ∙ ground arith,
    omega (
      arith,
      v.space,
      total-assign (of_block bytes) (ptoi s ptr) d (resized sz line d) s.allocated_blocks a,
    ),
    omega (
      arith,
      v.active_size_is,
      total-assign requested (ptoi s ptr) d (resized sz line d) s.allocated_blocks a,
    ),
  )

-- ===== src/Kmod/Memory/Ranges.antt =====
-- The ranges of addresses that the pools get.
use agnocast.Prelude.{ℕ, zero, suc, ◌+◌, ◌*◌, ◌≤◌, ◌<◌, ◌≡◌, ◌∙◌, true, none, List, [], ◌∷◌, arith}
use native.Mathlib.Nat.{mul-le-mul_right}
use agnocast.Kmod.Memory.{Mempool, word_limit, size_bytes, init_entries, init_memory_allocator}

-- The first address of the pool at a position.
abbrev pub addr_at : ℕ → List Mempool → ℕ
addr_at i [] = 0
addr_at zero (m ∷ r) = m.addr
addr_at (suc i) (m ∷ r) = addr_at i r

addr_at-init_entries : (n a size i : ℕ) → i < n → addr_at i (init_entries n a size) ≡ a + i * size
unfolding init_entries
addr_at-init_entries zero a size i h = ground arith
addr_at-init_entries (suc n) a size zero h = omega arith
addr_at-init_entries (suc n) a size (suc i) h =
    addr_at-init_entries n (a + size) size i (omega arith) ∙ omega arith

times_mono : (i j size : ℕ) → i < j → i * size + size ≤ j * size
times_mono i j size h = omega (arith, mul-le-mul_right size h)

-- If the allocator starts, the ranges of its pools do not overlap, the pool at a later position lies after
-- that at an earlier one, and none reaches the end of the 64-bit address space.
pub init_memory_allocator-disjoint :
    (mempool_num size_gb start i j : ℕ)
    → (init_memory_allocator true mempool_num size_gb start).0 ≡ none
    → i < j
    → j < mempool_num
    → let l = (init_memory_allocator true mempool_num size_gb start).1 in
      (addr_at i l + size_bytes size_gb ≤ addr_at j l)
      × (addr_at j l + size_bytes size_gb < word_limit)
unfolding init_memory_allocator
init_memory_allocator-disjoint n gb start i j e h b = ground (
  arith,
  addr_at-init_entries n start (size_bytes gb) i,
  addr_at-init_entries n start (size_bytes gb) j,
  times_mono i j (size_bytes gb),
  times_mono j n (size_bytes gb),
)

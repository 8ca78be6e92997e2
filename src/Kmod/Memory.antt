-- ===== src/Kmod/Memory.antt =====
-- agnocast_memory_allocator.c: the pools of addresses. What runs under `mempool_lock` is one step, and
-- `allocates` says whether the allocation before it succeeds. The module parameters are numbers: one below
-- 0 is refused as 0 is.
pub mod Ranges
pub mod Maps
pub mod Users
mod Examples
use agnocast.Prelude.{
  ℕ, zero, suc, ◌+◌, ◌-◌, ◌*◌, Bool, true, false, not, Option, none, some, List, [], ◌∷◌, leb, ◌==◌,
  if◌then◌else◌, map,
}
use agnocast.Kmod.State.{Errno, einval, enomem, eexist}
use agnocast.Kmod.Lists.{contains}

-- `mempool_entry`, with the process ids of its list, the newest first.
pub record Mempool : Type 0 where
  pub addr : ℕ
  pub mapped_num : ℕ
  pub mapped_pids : List ℕ

abbrev pub word_limit : ℕ
word_limit = 18446744073709551616

-- `mempool_size_gb * 1024 * 1024 * 1024`
abbrev pub size_bytes : ℕ → ℕ
size_bytes gb = gb * 1073741824

unfoldable pub init_entries : ℕ → ℕ → ℕ → List Mempool
init_entries zero addr size = []
init_entries (suc n) addr size =
    record { addr = addr; mapped_num = 0; mapped_pids = [] } ∷ init_entries n (addr + size) size

unfoldable pub init_memory_allocator : Bool → ℕ → ℕ → ℕ → Option Errno × List Mempool
unfolding init_entries
init_memory_allocator allocates mempool_num size_gb start =
    if mempool_num == 0
    then (some einval, [])
    else if size_gb == 0
    then (some einval, [])
    else if leb word_limit (mempool_num * size_bytes size_gb)
    then (some einval, [])
    else if leb word_limit (start + mempool_num * size_bytes size_gb)
    then (some einval, [])
    else if allocates
    then (none, init_entries mempool_num start (size_bytes size_gb))
    else (some enomem, [])

abbrev pub add_pid : ℕ → Mempool → Mempool
add_pid pid m = record m { mapped_num = m.mapped_num + 1; mapped_pids = pid ∷ m.mapped_pids }

-- The loop of `assign_memory`: the position of the pool, if one is free.
unfoldable pub assign_loop : ℕ → List Mempool → Option ℕ × List Mempool
assign_loop pid [] = (none, [])
assign_loop pid (m ∷ r) =
    let rest = assign_loop pid r in
    if m.mapped_num == 0
    then (some 0, record m { mapped_num = 1; mapped_pids = pid ∷ m.mapped_pids } ∷ r)
    else (elim (rest.0) [ none ↦ none | some i ↦ some (i + 1) ], m ∷ rest.1)

unfoldable pub assign_memory : Bool → ℕ → List Mempool → Option ℕ × List Mempool
unfolding assign_loop
assign_memory allocates pid l = if allocates then assign_loop pid l else (none, l)

unfoldable pub reference_memory : Bool → ℕ → Mempool → Option Errno × Mempool
reference_memory allocates pid m =
    if not allocates
    then (some enomem, m)
    else if contains pid m.mapped_pids
    then (some eexist, m)
    else (none, add_pid pid m)

-- The first occurrence leaves the list.
unfoldable pub remove_first : ℕ → List ℕ → List ℕ
remove_first pid [] = []
remove_first pid (x ∷ r) = let rest = remove_first pid r in if x == pid then r else x ∷ rest

unfoldable pub free_pool : ℕ → Mempool → Mempool
unfolding remove_first
free_pool pid m =
    if contains pid m.mapped_pids
    then record m { mapped_num = m.mapped_num - 1; mapped_pids = remove_first pid m.mapped_pids }
    else m

unfoldable pub free_memory : ℕ → List Mempool → List Mempool
unfolding free_pool
free_memory pid [] = []
free_memory pid (m ∷ r) = free_pool pid m ∷ free_memory pid r

unfoldable pub exit_memory_allocator : List Mempool → List Mempool
exit_memory_allocator [] = []
exit_memory_allocator (m ∷ r) =
    record m { mapped_num = 0; mapped_pids = [] } ∷ exit_memory_allocator r

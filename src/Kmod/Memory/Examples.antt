-- ===== src/Kmod/Memory/Examples.antt =====
-- The pools on concrete histories.
use agnocast.Prelude.{
  ℕ, ◌+◌, ◌≤◌, ◌<◌, ◌≡◌, refl, true, ◌&&◌, not, none, some, List, [], ◌∷◌, arith, ◌==◌,
}
use agnocast.Kmod.Lists.{contains}
use agnocast.Kmod.Memory.{
  word_limit, size_bytes, init_entries, init_memory_allocator, assign_memory, free_memory,
}
use agnocast.Kmod.Memory.Ranges.{addr_at, init_memory_allocator-disjoint}
use agnocast.Kmod.Memory.Maps.{users, MemoryOp, assign, reference, free, memory_run}
use agnocast.Kmod.Memory.Users.{Assigned, pools, memory_run-users}

-- Two processes get a pool, the second maps the first's too, and the first exits.
abbrev history : List MemoryOp
history = assign true 1 ∷ assign true 2 ∷ reference true 0 2 ∷ free 1 ∷ []

memory_run-users_example :
    let l = pools history 3 4096 16 in
    Assigned 3 l (assign_memory true 3 l)
    × ((j q : ℕ)
        → contains q (users j (free_memory 3 l)) ≡ (contains q (users j l) && not (q == 3)))
memory_run-users_example = memory_run-users history 3 4096 16 3

starts : (init_memory_allocator true 4096 16 4398046511104).0 ≡ none
unfolding init_memory_allocator
starts = refl

init_memory_allocator-disjoint_example :
    let l = (init_memory_allocator true 4096 16 4398046511104).1 in
    (addr_at 7 l + size_bytes 16 ≤ addr_at 4095 l) × (addr_at 4095 l + size_bytes 16 < word_limit)
init_memory_allocator-disjoint_example =
    init_memory_allocator-disjoint 4096 16 4398046511104 7 4095 starts (omega arith) (omega arith)

assign-test : (assign_memory true 3 (pools history 3 4096 16)).0 ≡ some 2
unfolding assign_memory memory_run init_entries
assign-test = refl

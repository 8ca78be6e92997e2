-- ===== src/Kmod/Memory/Users.antt =====
-- What the calls do to the users of the pools.
use agnocast.Prelude.{
  ℕ, zero, suc, ◌+◌, ◌<◌, ◌≡◌, refl, ap, Bool, true, false, ◌&&◌, not, Option, none, some, List, [],
  ◌∷◌, ◌==◌, if◌then◌else◌, arith, length, Bool-cases, inl, inr,
}
use agnocast.Kmod.Lists.{contains, all}
use agnocast.Kmod.Memory.{Mempool, init_entries, assign_loop, assign_memory, free_pool, free_memory}
use agnocast.Kmod.Memory.Maps.{
  users, is_well, is_well-free, MemoryOp, memory_run, contains-remove_first, run-well, init-well,
}

abbrev pub is_nil : List ℕ → Bool
is_nil [] = true
is_nil (x ∷ l) = false

-- What is said of an assignment: none where every pool has a user; else a pool without one.
abbrev pub Assigned : ℕ → List Mempool → Option ℕ × List Mempool → Type 0
Assigned pid l (none, after) = (after ≡ l) × ((j : ℕ) → j < length l → is_nil (users j l) ≡ false)
Assigned pid l (some k, after) =
    (users k l ≡ [])
    × (k < length l)
    × ((j : ℕ) → users j after ≡ (if j == k then pid ∷ [] else users j l))

users-front :
    (pid : ℕ) (m : Mempool) (l : List Mempool) (j : ℕ)
    → m.mapped_pids ≡ []
    → users j (record m { mapped_num = 1; mapped_pids = pid ∷ m.mapped_pids } ∷ l)
      ≡ (if j == 0 then pid ∷ [] else users j (m ∷ l))
users-front pid m l zero e = ground (arith, e)
users-front pid m l (suc j) e = ground arith

users-behind :
    (m : Mempool) (l after : List Mempool) (k : ℕ) (new : List ℕ) (j : ℕ)
    → ((i : ℕ) → users i after ≡ (if i == k then new else users i l))
    → users j (m ∷ after) ≡ (if j == k + 1 then new else users j (m ∷ l))
users-behind m l after k new zero f = ground arith
users-behind m l after k new (suc j) f = ground (arith, f j)

users-full :
    (m : Mempool) (l : List Mempool) (j : ℕ)
    → is_nil m.mapped_pids ≡ false
    → ((i : ℕ) → i < length l → is_nil (users i l) ≡ false)
    → j < length (m ∷ l)
    → is_nil (users j (m ∷ l)) ≡ false
users-full m l zero n f h = n
users-full m l (suc j) n f h = f j (omega arith)

-- The first pool has a user: what the loop finds behind it.
Assigned-behind :
    (pid : ℕ) (m : Mempool) (l : List Mempool) (o : Option ℕ) (after : List Mempool)
    → is_nil m.mapped_pids ≡ false
    → Assigned pid l (o, after)
    → Assigned pid (m ∷ l) (elim o [ none ↦ none | some i ↦ some (i + 1) ], m ∷ after)
Assigned-behind pid m l none after n a = (ap (λ r. m ∷ r) a.0, λ j h. users-full m l j n a.1 h)
Assigned-behind pid m l (some k) after n a =
    (ground (arith, a.0), omega (arith, a.1), λ j. users-behind m l after k (pid ∷ []) j a.2)

pub users-assign_loop :
    (pid : ℕ) (l : List Mempool) → all is_well l ≡ true → Assigned pid l (assign_loop pid l)
unfolding all assign_loop
users-assign_loop pid [] w = (refl, λ j h. ground arith)
users-assign_loop pid (m ∷ l) w = elim (Bool-cases (m.mapped_num == 0)) [
  | inl g ↦
      let e = is_well-free m (ground arith) g in rw g (e, omega arith, λ j. users-front pid m l j e)
  | inr g ↦ rw g (
      Assigned-behind pid m l (assign_loop pid l).0 (assign_loop pid l).1 (ground arith)
        (users-assign_loop pid l (ground arith)))
]

contains-free_pool :
    (q pid : ℕ) (m : Mempool)
    → is_well m ≡ true
    → contains q (free_pool pid m).mapped_pids ≡ (contains q m.mapped_pids && not (q == pid))
unfolding free_pool
contains-free_pool q pid m w = ground (arith, contains-remove_first q pid m.mapped_pids)

pub contains-free_memory :
    (q pid j : ℕ) (l : List Mempool)
    → all is_well l ≡ true
    → contains q (users j (free_memory pid l)) ≡ (contains q (users j l) && not (q == pid))
unfolding all free_memory
contains-free_memory q pid j [] w = refl
contains-free_memory q pid zero (m ∷ l) w = contains-free_pool q pid m (ground arith)
contains-free_memory q pid (suc j) (m ∷ l) w = contains-free_memory q pid j l (ground arith)

-- The pools after a history of calls.
abbrev pub pools : List MemoryOp → ℕ → ℕ → ℕ → List Mempool
pools ops num addr size = memory_run ops (init_entries num addr size)

-- After any history of assignments, references and releases, an assignment to a process gives nothing, and
-- changes nothing, only where every pool is mapped by some process; else it gives a pool that no process
-- has mapped, which then is mapped by that process alone, and leaves every other pool's users as they
-- were. And the release of a process takes it, and it alone, from the users of every pool.
pub memory_run-users :
    (ops : List MemoryOp) (num addr size pid : ℕ)
    → let l = pools ops num addr size in
      Assigned pid l (assign_memory true pid l)
      × ((j q : ℕ)
          → contains q (users j (free_memory pid l)) ≡ (contains q (users j l) && not (q == pid)))
unfolding assign_memory
memory_run-users ops num addr size pid =
    let l = pools ops num addr size in
    let w = run-well ops (init_entries num addr size) (init-well num addr size) in
    (users-assign_loop pid l w, λ j q. contains-free_memory q pid j l w)

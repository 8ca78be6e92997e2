-- ===== src/Kmod/Memory/Maps.antt =====
-- Which processes have a pool mapped.
use agnocast.Prelude.{
  ℕ, zero, suc, ◌+◌, ◌≡◌, refl, Bool, true, ◌&&◌, not, List, [], ◌∷◌, ◌==◌, arith, length,
  Bool-cases, inl, inr,
}
use agnocast.Kmod.Lists.{contains, all}
use agnocast.Kmod.Memory.{
  Mempool, init_entries, assign_loop, assign_memory, reference_memory, remove_first, free_pool,
  free_memory,
}

-- The processes that have the pool at a position mapped.
abbrev pub users : ℕ → List Mempool → List ℕ
users i [] = []
users zero (m ∷ r) = m.mapped_pids
users (suc i) (m ∷ r) = users i r

unfoldable pub no_repeats : List ℕ → Bool
no_repeats [] = true
no_repeats (x ∷ r) = not (contains x r) && no_repeats r

abbrev pub is_well : Mempool → Bool
is_well m = (m.mapped_num == length m.mapped_pids) && no_repeats m.mapped_pids

-- The change of the pool at a position.
unfoldable pub at_pool : ℕ → (Mempool → Mempool) → List Mempool → List Mempool
at_pool i f [] = []
at_pool zero f (m ∷ r) = f m ∷ r
at_pool (suc i) f (m ∷ r) = m ∷ at_pool i f r

-- The calls, each with whether its allocation succeeds.
pub data MemoryOp : Type 0 where
  assign : Bool → ℕ → MemoryOp
  reference : Bool → ℕ → ℕ → MemoryOp
  free : ℕ → MemoryOp

unfoldable pub memory_step : MemoryOp → List Mempool → List Mempool
unfolding assign_memory reference_memory free_memory at_pool
memory_step (assign b pid) l = (assign_memory b pid l).1
memory_step (reference b i pid) l = at_pool i (λ m. (reference_memory b pid m).1) l
memory_step (free pid) l = free_memory pid l

unfoldable pub memory_run : List MemoryOp → List Mempool → List Mempool
unfolding memory_step
memory_run [] l = l
memory_run (op ∷ r) l = memory_run r (memory_step op l)

-- Every pool stays well counted.
pub contains-remove_first :
    (q pid : ℕ) (l : List ℕ)
    → no_repeats l ≡ true
    → contains q (remove_first pid l) ≡ (contains q l && not (q == pid))
unfolding no_repeats remove_first
contains-remove_first q pid [] n = refl
contains-remove_first q pid (x ∷ l) n =
    ground (arith, contains-remove_first q pid l, contains-remove_first x pid l)

no_repeats-remove_first :
    (pid : ℕ) (l : List ℕ) → no_repeats l ≡ true → no_repeats (remove_first pid l) ≡ true
unfolding no_repeats remove_first
no_repeats-remove_first pid [] n = refl
no_repeats-remove_first pid (x ∷ l) n =
    ground (arith, no_repeats-remove_first pid l, contains-remove_first x pid l)

length-remove_first :
    (pid : ℕ) (l : List ℕ) → contains pid l ≡ true → length (remove_first pid l) + 1 ≡ length l
unfolding remove_first
length-remove_first pid [] c = ground arith
length-remove_first pid (x ∷ l) c = ground (arith, length-remove_first pid l)

free_pool-well : (pid : ℕ) (m : Mempool) → is_well m ≡ true → is_well (free_pool pid m) ≡ true
unfolding free_pool
free_pool-well pid m w =
    ground (arith, length-remove_first pid m.mapped_pids, no_repeats-remove_first pid m.mapped_pids)

pub free-well :
    (pid : ℕ) (l : List Mempool) → all is_well l ≡ true → all is_well (free_memory pid l) ≡ true
unfolding all free_memory
free-well pid [] w = refl
free-well pid (m ∷ l) w = ground (arith, free_pool-well pid m, free-well pid l)

reference-well :
    (b : Bool) (pid : ℕ) (m : Mempool)
    → is_well m ≡ true
    → is_well (reference_memory b pid m).1 ≡ true
unfolding reference_memory no_repeats
reference-well b pid m w = ground arith

at_pool-well :
    (b : Bool) (i pid : ℕ) (l : List Mempool)
    → all is_well l ≡ true
    → all is_well (at_pool i (λ m. (reference_memory b pid m).1) l) ≡ true
unfolding all at_pool
at_pool-well b i pid [] w = refl
at_pool-well b zero pid (m ∷ l) w = ground (arith, reference-well b pid m)
at_pool-well b (suc i) pid (m ∷ l) w = ground (arith, at_pool-well b i pid l)

length-nil : (l : List ℕ) → length l ≡ 0 → l ≡ []
length-nil [] e = refl
length-nil (x ∷ l) e = ground arith

-- A pool that is counted as free has no user.
pub is_well-free :
    (m : Mempool) → is_well m ≡ true → (m.mapped_num == 0) ≡ true → m.mapped_pids ≡ []
is_well-free m w g = length-nil m.mapped_pids (ground arith)

pub assign-well :
    (pid : ℕ) (l : List Mempool) → all is_well l ≡ true → all is_well (assign_loop pid l).1 ≡ true
unfolding all assign_loop no_repeats
assign-well pid [] w = refl
assign-well pid (m ∷ l) w = elim (Bool-cases (m.mapped_num == 0)) [
  | inl g ↦ rw g (ground (arith, is_well-free m (ground arith) g))
  | inr g ↦ rw g (ground (arith, assign-well pid l))
]

step-well :
    (op : MemoryOp) (l : List Mempool)
    → all is_well l ≡ true
    → all is_well (memory_step op l) ≡ true
unfolding memory_step assign_memory
step-well (assign b pid) l w = ground (arith, w, assign-well pid l w)
step-well (reference b i pid) l w = at_pool-well b i pid l w
step-well (free pid) l w = free-well pid l w

pub run-well :
    (ops : List MemoryOp) (l : List Mempool)
    → all is_well l ≡ true
    → all is_well (memory_run ops l) ≡ true
unfolding memory_run
run-well [] l w = w
run-well (op ∷ r) l w = run-well r (memory_step op l) (step-well op l w)

pub init-well : (n addr size : ℕ) → all is_well (init_entries n addr size) ≡ true
unfolding all init_entries no_repeats
init-well zero addr size = refl
init-well (suc n) addr size = ground (arith, init-well n (addr + size) size)

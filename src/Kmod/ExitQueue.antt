-- ===== src/Kmod/ExitQueue.antt =====
-- agnocast_internal.c and agnocast_init.c: the queue of exited processes, a ring between the tracepoint and
-- the worker thread. What runs under `pid_queue_lock` is one step.
pub mod Refines
pub mod Runs
mod Examples
use agnocast.Prelude.{
  ℕ, zero, suc, ◌+◌, ◌%◌, Bool, true, false, not, Option, none, some, List, [], ◌∷◌, ◌==◌,
  if◌then◌else◌,
}

abbrev pub exit_queue_size : ℕ
exit_queue_size = 65536

-- `(i + 1) & EXIT_QUEUE_MASK`
abbrev pub next : ℕ → ℕ
next i = (i + 1) % exit_queue_size

-- The array is a function of the index.
pub record ExitQueue : Type 0 where
  pub exit_pid_queue : ℕ → ℕ
  pub queue_head : ℕ
  pub queue_tail : ℕ
  pub has_new_pid : Bool

abbrev pub empty_queue : (ℕ → ℕ) → ExitQueue
empty_queue a = record { exit_pid_queue = a; queue_head = 0; queue_tail = 0; has_new_pid = false }

abbrev pub store : ℕ → ℕ → (ℕ → ℕ) → ℕ → ℕ
store i x a j = if j == i then x else a j

-- `agnocast_enqueue_exit_pid`: whether the worker is woken.
unfoldable pub enqueue_exit_pid : ℕ → ExitQueue → Bool × ExitQueue
enqueue_exit_pid pid q = if next q.queue_tail == q.queue_head then (false, q) else (
  true,
  record q {
    exit_pid_queue = store q.queue_tail pid q.exit_pid_queue;
    queue_tail = next q.queue_tail;
    has_new_pid = true;
  },
)

-- One round of the worker's inner loop, under the lock.
unfoldable pub dequeue : ExitQueue → Option ℕ × ExitQueue
dequeue q =
    let empty = q.queue_head == q.queue_tail in
    let pid : Option ℕ = if empty then none else some (q.exit_pid_queue q.queue_head) in
    let taken = if empty then q else record q { queue_head = next q.queue_head } in
    (
      pid,
      if taken.queue_head == taken.queue_tail then record taken { has_new_pid = false } else taken,
    )

-- What a round adds to what the rounds after it give.
abbrev pub collect :
    Option ℕ → ExitQueue → Option (List ℕ × ExitQueue) → Option (List ℕ × ExitQueue)
collect none q rest = some ([], q)
collect (some pid) q none = none
collect (some pid) q (some r) = some (pid ∷ r.0, r.1)

-- The inner loop: the processes that it cleans up, in order, until a round finds nothing. The number bounds
-- the rounds.
unfoldable pub drain : ℕ → ExitQueue → Option (List ℕ × ExitQueue)
unfolding dequeue
drain zero q = none
drain (suc rounds) q =
    let round = dequeue q in let rest = drain rounds round.1 in collect round.0 round.1 rest

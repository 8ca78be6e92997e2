-- ===== src/Kmod/ExitQueue/Runs.antt =====
-- Every sequence of process exits and rounds of the worker.
use agnocast.Prelude.{
  ℕ, zero, suc, ◌<◌, ◌≡◌, refl, sym, ap, ◌∙◌, Bool, true, false, not, Option, none, some, List, [],
  ◌∷◌, arith, ◌==◌, length,
}
use agnocast.Kmod.ExitQueue.{ExitQueue, empty_queue, enqueue_exit_pid, dequeue, collect, drain}
use agnocast.Kmod.ExitQueue.Refines.{
  put, get, Holds, Holds-put, woken-put, Holds-get, taken-get, is_void, empty_queue-Holds,
}

-- What the tracepoint and the worker do to the queue, and what they see.
pub data QueueOp : Type 0 where
  exited : ℕ → QueueOp
  round : QueueOp

pub data Reply : Type 0 where
  woken : Bool → Reply
  taken : Option ℕ → Reply

unfoldable pub ring_replies : List QueueOp → ExitQueue → List Reply
unfolding enqueue_exit_pid dequeue
ring_replies [] q = []
ring_replies (exited pid ∷ r) q =
    let after = enqueue_exit_pid pid q in woken after.0 ∷ ring_replies r after.1
ring_replies (round ∷ r) q = let after = dequeue q in taken after.0 ∷ ring_replies r after.1

unfoldable pub list_replies : List QueueOp → List ℕ → List Reply
unfolding put get
list_replies [] l = []
list_replies (exited pid ∷ r) l = let after = put pid l in woken after.0 ∷ list_replies r after.1
list_replies (round ∷ r) l = let after = get l in taken after.0 ∷ list_replies r after.1

replies-Holds :
    (ops : List QueueOp) (q : ExitQueue) (l : List ℕ)
    → Holds q l
    → ring_replies ops q ≡ list_replies ops l
unfolding ring_replies list_replies
replies-Holds [] q l h = refl
replies-Holds (exited pid ∷ r) q l h = ground (
  arith,
  woken-put pid q l h,
  replies-Holds r (enqueue_exit_pid pid q).1 (put pid l).1 (Holds-put pid q l h),
)
replies-Holds (round ∷ r) q l h =
    ground (arith, taken-get q l h, replies-Holds r (dequeue q).1 (get l).1 (Holds-get q l h))

-- Whatever the array holds at the start, every sequence of process exits and rounds of the worker sees of
-- the ring what it would see of a first-in-first-out queue of at most 65535 process ids: an exit wakes the
-- worker exactly when the queue is not full, and is dropped when it is; a round takes the oldest.
pub ring_replies-list_replies :
    (ops : List QueueOp) (a : ℕ → ℕ) → ring_replies ops (empty_queue a) ≡ list_replies ops []
ring_replies-list_replies ops a = replies-Holds ops (empty_queue a) [] (empty_queue-Holds a)

unfoldable pub after_ops : List QueueOp → ExitQueue → ExitQueue
unfolding enqueue_exit_pid dequeue
after_ops [] q = q
after_ops (exited pid ∷ r) q = after_ops r (enqueue_exit_pid pid q).1
after_ops (round ∷ r) q = after_ops r (dequeue q).1

unfoldable pub waiting : List QueueOp → List ℕ → List ℕ
unfolding put get
waiting [] l = l
waiting (exited pid ∷ r) l = waiting r (put pid l).1
waiting (round ∷ r) l = waiting r (get l).1

after_ops-Holds :
    (ops : List QueueOp) (q : ExitQueue) (l : List ℕ)
    → Holds q l
    → Holds (after_ops ops q) (waiting ops l)
unfolding after_ops waiting
after_ops-Holds [] q l h = h
after_ops-Holds (exited pid ∷ r) q l h =
    after_ops-Holds r (enqueue_exit_pid pid q).1 (put pid l).1 (Holds-put pid q l h)
after_ops-Holds (round ∷ r) q l h = after_ops-Holds r (dequeue q).1 (get l).1 (Holds-get q l h)

-- What the worker's loop has done when it ends: the processes, and an empty queue that needs no wake-up.
abbrev pub Drained : List ℕ → Option (List ℕ × ExitQueue) → Type 0
Drained l none = false ≡ true
Drained l (some r) = (r.0 ≡ l) × (r.1.queue_head ≡ r.1.queue_tail) × (r.1.has_new_pid ≡ false)

collect-end :
    (o : Option ℕ) (q : ExitQueue) (rest : Option (List ℕ × ExitQueue))
    → o ≡ none
    → Holds q []
    → Drained [] (collect o q rest)
collect-end none q rest e h = (refl, ground (arith, is_void q [] h), h.flag)
collect-end (some p) q rest e h = ground arith

collect-more :
    (o : Option ℕ) (q : ExitQueue) (rest : Option (List ℕ × ExitQueue)) (x : ℕ) (l : List ℕ)
    → o ≡ some x
    → Drained l rest
    → Drained (x ∷ l) (collect o q rest)
collect-more none q rest x l e d = ground arith
collect-more (some p) q none x l e d = d
collect-more (some p) q (some r) x l e d = (ground (arith, d.0), d.1, d.2)

drain-Holds :
    (rounds : ℕ) (q : ExitQueue) (l : List ℕ)
    → Holds q l
    → length l < rounds
    → Drained l (drain rounds q)
unfolding drain get
drain-Holds zero q l h b = ground arith
drain-Holds (suc n) q [] h b =
    collect-end (dequeue q).0 (dequeue q).1 (drain n (dequeue q).1) (taken-get q [] h)
      (Holds-get q [] h)
drain-Holds (suc n) q (x ∷ l) h b =
    collect-more (dequeue q).0 (dequeue q).1 (drain n (dequeue q).1) x l (taken-get q (x ∷ l) h)
      (drain-Holds n (dequeue q).1 l (Holds-get q (x ∷ l) h) (omega arith))

-- After any sequence of process exits and rounds, the flag that wakes the worker is set exactly when the
-- queue is not empty; and one wake-up, with more rounds allowed than ids waiting, ends having cleaned up
-- after exactly the waiting processes, in the order of their exits, with the queue empty and the flag
-- cleared.
pub drain-waiting :
    (ops : List QueueOp) (a : ℕ → ℕ) (rounds : ℕ)
    → length (waiting ops []) < rounds
    → let q = after_ops ops (empty_queue a) in
      (q.has_new_pid ≡ not (q.queue_head == q.queue_tail))
      × Drained (waiting ops []) (drain rounds q)
drain-waiting ops a rounds b =
    let h = after_ops-Holds ops (empty_queue a) [] (empty_queue-Holds a) in
    let q = after_ops ops (empty_queue a) in
    (
      h.flag ∙ ap not (sym (is_void q (waiting ops []) h)),
      drain-Holds rounds q (waiting ops []) h b,
    )

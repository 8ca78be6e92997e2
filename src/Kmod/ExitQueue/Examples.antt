-- ===== src/Kmod/ExitQueue/Examples.antt =====
-- The queue of exited processes on concrete histories.
use agnocast.Prelude.{ℕ, ◌≡◌, refl, not, List, [], ◌∷◌, arith, length, ◌<◌, ◌==◌}
use agnocast.Kmod.ExitQueue.{empty_queue, drain}
use agnocast.Kmod.ExitQueue.Refines.{put, get}
use agnocast.Kmod.ExitQueue.Runs.{
  QueueOp, exited, round, ring_replies, list_replies, ring_replies-list_replies, after_ops, waiting,
  Drained, drain-waiting,
}

abbrev blank : ℕ → ℕ
blank i = 0

-- Three processes exit; the worker has taken the first.
abbrev history : List QueueOp
history = exited 11 ∷ exited 12 ∷ round ∷ exited 13 ∷ []

ring_replies-list_replies_example :
    ring_replies history (empty_queue blank) ≡ list_replies history []
ring_replies-list_replies_example = ring_replies-list_replies history blank

two_waiting : length (waiting history []) < 3
unfolding waiting put get
two_waiting = omega arith

drain-waiting_example :
    let q = after_ops history (empty_queue blank) in
    (q.has_new_pid ≡ not (q.queue_head == q.queue_tail)) × Drained (waiting history []) (drain 3 q)
drain-waiting_example = drain-waiting history blank 3 two_waiting

waiting-test : waiting history [] ≡ 12 ∷ 13 ∷ []
unfolding waiting put get
waiting-test = refl

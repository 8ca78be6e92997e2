-- ===== src/Kmod/ExitQueue/Refines.antt =====
-- The ring against a queue that is a list.
use agnocast.Prelude.{
  ℕ, zero, suc, ◌+◌, ◌-◌, ◌%◌, ◌≤◌, ◌<◌, ◌≡◌, refl, sym, ap, ◌∙◌, Bool, true, false, not, Option,
  none, some, List, [], ◌∷◌, ◌++◌, arith, ◌==◌, if◌then◌else◌, length, Bool-cases, inl, inr,
}
use agnocast.Kmod.ExitQueue.{
  exit_queue_size, next, ExitQueue, empty_queue, store, enqueue_exit_pid, dequeue,
}

-- A queue of process ids, of which at most 65535 wait; one more is dropped.
unfoldable pub put : ℕ → List ℕ → Bool × List ℕ
put pid l = if length l == 65535 then (false, l) else (true, l ++ pid ∷ [])

unfoldable pub get : List ℕ → Option ℕ × List ℕ
get [] = (none, [])
get (pid ∷ l) = (some pid, l)

abbrev pub is_nil : List ℕ → Bool
is_nil [] = true
is_nil (x ∷ l) = false

-- The cells from a position on.
unfoldable pub cells : (ℕ → ℕ) → ℕ → ℕ → List ℕ
cells a h zero = []
cells a h (suc n) = a (h % exit_queue_size) ∷ cells a (h + 1) n

cells-length : (a : ℕ → ℕ) (h n : ℕ) → length (cells a h n) ≡ n
unfolding cells
cells-length a h zero = refl
cells-length a h (suc n) = ground (arith, cells-length a (h + 1) n)

cells-before :
    (a : ℕ → ℕ) (x h n t : ℕ)
    → h + n ≤ t
    → t < h + exit_queue_size
    → cells (store (t % exit_queue_size) x a) h n ≡ cells a h n
unfolding cells
cells-before a x h zero t e b = refl
cells-before a x h (suc n) t e b = ground (arith, cells-before a x (h + 1) n t)

cells-last :
    (a : ℕ → ℕ) (h n : ℕ) → cells a h (suc n) ≡ cells a h n ++ a ((h + n) % exit_queue_size) ∷ []
unfolding cells
cells-last a h zero = ground arith
cells-last a h (suc n) = ground (arith, cells-last a (h + 1) n)

-- `from` and `count` place the list in the ring: positions are counted without the wrap.
pub record Holds (q : ExitQueue) (l : List ℕ) : Type 0 where
  pub from : ℕ
  pub count : ℕ
  pub head_at : q.queue_head ≡ from % exit_queue_size
  pub tail_at : q.queue_tail ≡ (from + count) % exit_queue_size
  pub fits : count < exit_queue_size
  pub content : cells q.exit_pid_queue from count ≡ l
  pub flag : q.has_new_pid ≡ not (is_nil l)

Holds-length : (q : ExitQueue) (l : List ℕ) (h : Holds q l) → length l ≡ h.count
Holds-length q l h = ap length (sym h.content) ∙ cells-length q.exit_pid_queue h.from h.count

is_full :
    (q : ExitQueue) (l : List ℕ)
    → Holds q l
    → (next q.queue_tail == q.queue_head) ≡ (length l == 65535)
is_full q l h = ground (arith, Holds-length q l h, h.fits, h.head_at, h.tail_at)

pub is_void : (q : ExitQueue) (l : List ℕ) → Holds q l → (q.queue_head == q.queue_tail) ≡ is_nil l
is_void q [] h = ground (arith, Holds-length q [] h, h.fits, h.head_at, h.tail_at)
is_void q (x ∷ l) h = ground (arith, Holds-length q (x ∷ l) h, h.fits, h.head_at, h.tail_at)

is_nil-append : (l : List ℕ) (x : ℕ) → is_nil (l ++ x ∷ []) ≡ false
is_nil-append [] x = refl
is_nil-append (y ∷ l) x = refl

stored-Holds :
    (pid : ℕ) (q : ExitQueue) (l : List ℕ)
    → Holds q l
    → (length l == 65535) ≡ false
    → Holds
        (record q {
          exit_pid_queue = store q.queue_tail pid q.exit_pid_queue;
          queue_tail = next q.queue_tail;
          has_new_pid = true;
        })
        (l ++ pid ∷ [])
stored-Holds pid q l h g =
    let t = h.from + h.count in
    let n = Holds-length q l h in
    record {
      from = h.from;
      count = suc h.count;
      head_at = h.head_at;
      tail_at = rw (h.tail_at) (omega arith);
      fits = ground arith;
      content = rw (h.tail_at) (
          cells-last (store (t % exit_queue_size) pid q.exit_pid_queue) h.from h.count
          ∙ ground (arith, cells-before q.exit_pid_queue pid h.from h.count t, h.content));
      flag = rw (is_nil-append l pid) refl;
    }

pub Holds-put :
    (pid : ℕ) (q : ExitQueue) (l : List ℕ)
    → Holds q l
    → Holds (enqueue_exit_pid pid q).1 (put pid l).1
unfolding enqueue_exit_pid put
Holds-put pid q l h = ground (arith, h, is_full q l h, stored-Holds pid q l h)

pub woken-put :
    (pid : ℕ) (q : ExitQueue) (l : List ℕ) → Holds q l → (enqueue_exit_pid pid q).0 ≡ (put pid l).0
unfolding enqueue_exit_pid put
woken-put pid q l h = ground (arith, is_full q l h)

cells-cons :
    (a : ℕ → ℕ) (h n x : ℕ) (l : List ℕ)
    → cells a h n ≡ x ∷ l
    → (a (h % exit_queue_size) ≡ x) × (cells a (h + 1) (n - 1) ≡ l)
unfolding cells
cells-cons a h zero x l e = ground arith
cells-cons a h (suc n) x l e = ground arith

popped-Holds :
    (q : ExitQueue) (x : ℕ) (l : List ℕ) (b : Bool)
    → Holds q (x ∷ l)
    → b ≡ not (is_nil l)
    → Holds (record q { queue_head = next q.queue_head; has_new_pid = b }) l
popped-Holds q x l b h f =
    let n = Holds-length q (x ∷ l) h in
    record {
      from = h.from + 1;
      count = h.count - 1;
      head_at = rw (h.head_at) (omega arith);
      tail_at = h.tail_at ∙ ap (λ (k : ℕ). k % exit_queue_size) (ground arith);
      fits = ground arith;
      content = (cells-cons q.exit_pid_queue h.from h.count x l h.content).1;
      flag = f;
    }

-- Whether a round leaves nothing.
is_last :
    (q : ExitQueue) (x : ℕ) (l : List ℕ)
    → Holds q (x ∷ l)
    → (next q.queue_head == q.queue_tail) ≡ is_nil l
is_last q x [] h = ground (arith, Holds-length q (x ∷ []) h, h.fits, h.head_at, h.tail_at)
is_last q x (y ∷ l) h = ground (arith, Holds-length q (x ∷ y ∷ l) h, h.fits, h.head_at, h.tail_at)

pub Holds-get : (q : ExitQueue) (l : List ℕ) → Holds q l → Holds (dequeue q).1 (get l).1
unfolding dequeue get
Holds-get q [] h =
    rw (is_void q [] h) (let e : q.has_new_pid ≡ false = h.flag in rw⁻¹ e (rw (is_void q [] h) h))
Holds-get q (x ∷ l) h = rw (is_void q (x ∷ l) h) (
    rw (is_last q x l h) (elim (Bool-cases (is_nil l)) [
      | inl g ↦ rw g (popped-Holds q x l false h (ground arith))
      | inr g ↦ rw g (popped-Holds q x l q.has_new_pid h (ground (arith, h.flag)))
    ]))

pub taken-get : (q : ExitQueue) (l : List ℕ) → Holds q l → (dequeue q).0 ≡ (get l).0
unfolding dequeue get
taken-get q [] h = ground (arith, is_void q [] h)
taken-get q (x ∷ l) h =
    rw (is_void q (x ∷ l) h)
      (ap some (rw (h.head_at) (cells-cons q.exit_pid_queue h.from h.count x l h.content).0))

pub empty_queue-Holds : (a : ℕ → ℕ) → Holds (empty_queue a) []
unfolding cells
empty_queue-Holds a = record {
  from = 0;
  count = 0;
  head_at = omega arith;
  tail_at = omega arith;
  fits = omega arith;
  content = refl;
  flag = refl;
}

-- ===== src/MessageFilters/ApproximateTime/Add.antt =====
-- `add` of ApproximateTime: it always returns, and the queues stay within their size.
use mathlib.Core.Path.{subst}
use agnocast.Prelude.{
  ℕ, zero, suc, ◌+◌, ◌≤◌, ◌<◌, ◌≡◌, ◌≢◌, refl, sym, ap, ◌∙◌, inl, inr, true, false, some, List, [],
  ◌∷◌, ◌++◌, ℤ, arith, ltb, ◌==◌, if◌then◌else◌, length, length-append, get_elem?, set, length-set,
  Bool-cases, ==_iff, ltb→lt, All-append,
}
use mathlib.Core.List.{append_assoc}
use agnocast.MessageFilters.Message.{Message}
use agnocast.MessageFilters.ApproximateTime.Defs.{Input, Approx, no_pivot, recover}
use agnocast.MessageFilters.ApproximateTime.Streams.{
  stream, streams, filled, PastEmpty, length-push_back_past, recover-streams, recover-filled,
  recover-PastEmpty, recover-length,
}
use agnocast.MessageFilters.ApproximateTime.Moves.{filled-set}
use agnocast.MessageFilters.ApproximateTime.Suffix.{Complete}
use agnocast.MessageFilters.ApproximateTime.Arrive.{
  check_inter_message_bound, process_all, fill_deque, limit_queue, add,
}
use agnocast.MessageFilters.ApproximateTime.Fits.{
  Fits, FitsBut, Fits-of_short, Fits-of_drop, recover-get, recover-filled_same, Suffixes-Fits,
  pushed-PastEmpty,
}
use agnocast.MessageFilters.ApproximateTime.Arrival.{
  Ready, Arrived, Added, process_all-Processed, first-Arrived, later-Arrived,
}

get_elem?-some {ℓ} :
    {A : Type ℓ} (xs : List A) (i : ℕ) → i < length xs → (x : A) × (get_elem? xs i ≡ some x)
get_elem?-some [] i h = elim h [ ]
get_elem?-some (x ∷ xs) zero h = (x, refl)
get_elem?-some (x ∷ xs) (suc i) h = get_elem?-some xs i (omega arith)

-- The state without the oldest message of the recovered input `i`.
abbrev dropped : ℕ → Approx → Input → List Message → Approx
dropped i t r d = record t {
  inputs = set (recover t.inputs 0).0 i (record r { deque = d; has_dropped = true });
  num_non_empty = (recover t.inputs 0).1;
}

limit-short :
    (scale : ℤ → ℤ) (i : ℕ) (t : Approx) (q : Input)
    → get_elem? t.inputs i ≡ some q
    → ltb t.queue_size (length q.deque + length q.past) ≡ false
    → limit_queue scale i t ≡ some t
unfolding limit_queue
limit-short scale i t q e f = rw (e, f, limit_queue)

limit-drop :
    (scale : ℤ → ℤ) (i : ℕ) (t : Approx) (q r : Input) (m : Message) (d : List Message)
    → get_elem? t.inputs i ≡ some q
    → ltb t.queue_size (length q.deque + length q.past) ≡ true
    → get_elem? (recover t.inputs 0).0 i ≡ some r
    → r.deque ≡ m ∷ d
    → limit_queue scale i t ≡ (
        if t.pivot == no_pivot
        then some (dropped i t r d)
        else process_all scale (record (dropped i t r d) { candidate = []; pivot = no_pivot }))
unfolding limit_queue
limit-drop scale i t q r m d e f g h = rw (e, f, g, h, limit_queue)

module _ (scale : ℤ → ℤ) (n : ℕ) (positive : 0 < n) (nine : n ≤ 9) (i : ℕ) (s t : Approx)
    (room : 0 < s.queue_size) (a : Arrived n i s t) (q : Input)
    (found : get_elem? t.inputs i ≡ some q) where
  short-Added :
      ltb t.queue_size (length q.deque + length q.past) ≡ false
      → (u : Approx) × (limit_queue scale i t ≡ some u) × Added n s u
  short-Added f = (
    t,
    limit-short scale i t q found f,
    record {
      ready = record {
        inv = a.inv;
        idle = a.idle;
        fits =
            Fits-of_short t.queue_size t.inputs i q found (ground arith)
              (subst (λ k. FitsBut k i (streams t.inputs)) (sym a.queue) a.fits);
        room = omega (arith, a.queue);
      };
      queue = a.queue;
      sent = a.sent;
      signals = a.signals;
      complete = a.complete;
    },
  )

  -- The recovered input, whose deque is longer than the queue's size.
  module _ (over : ltb t.queue_size (length q.deque + length q.past) ≡ true) (r : Input)
      (m x : Message) (d : List Message) (there : get_elem? (recover t.inputs 0).0 i ≡ some r)
      (past : r.past ≡ []) (deque : r.deque ≡ m ∷ x ∷ d) where
    abbrev p : Input
    p = record r { deque = x ∷ d; has_dropped = true }

    abbrev rest : Approx
    rest = dropped i t r (x ∷ d)

    rest-count : (recover t.inputs 0).1 ≡ filled (set (recover t.inputs 0).0 i p)
    rest-count =
        ground
          (arith, recover-filled t.inputs 0, filled-set (recover t.inputs 0).0 i r p there, deque)

    rest-PastEmpty : PastEmpty (set (recover t.inputs 0).0 i p)
    rest-PastEmpty =
        pushed-PastEmpty m (recover t.inputs 0).0 i r p there refl (recover-PastEmpty t.inputs 0)

    rest-Fits : Fits s.queue_size (streams (set (recover t.inputs 0).0 i p))
    rest-Fits =
        Fits-of_drop s.queue_size (recover t.inputs 0).0 i r p m there past past deque
          (subst (FitsBut s.queue_size i) (sym (recover-streams t.inputs 0)) a.fits)

    rest-size : length (set (recover t.inputs 0).0 i p) ≡ n
    rest-size = length-set (recover t.inputs 0).0 i p ∙ recover-length t.inputs 0 ∙ a.inv.size

    past-of : t.pivot ≡ no_pivot → PastEmpty t.inputs
    past-of e = elim a.inv.search [ inl (y, z) ↦ z | inr (y, z) ↦ absurd (omega (arith, e)) ]

    idle-rest : t.pivot ≡ no_pivot → rest.num_non_empty ≢ n
    idle-rest e f = a.idle (
        omega (
          arith,
          f,
          recover-filled t.inputs 0,
          recover-filled_same t.inputs 0 (past-of e),
          a.inv.counted,
        ))

    pub drop-Added : (u : Approx) × (limit_queue scale i t ≡ some u) × Added n s u
    drop-Added = elim (Bool-cases (t.pivot == no_pivot)) [
      | inl e ↦
          let o : t.pivot ≡ no_pivot = (==_iff t.pivot no_pivot).0 e in
          (
            rest,
            rw (limit-drop scale i t q r m (x ∷ d) found over there deque, e) refl,
            record {
              ready = record {
                inv = record {
                  size = rest-size;
                  counted = rest-count;
                  search = inl (o, rest-PastEmpty);
                };
                idle = idle-rest o;
                fits = subst (λ k. Fits k (streams rest.inputs)) (sym a.queue) rest-Fits;
                room = omega (arith, a.queue);
              };
              queue = a.queue;
              sent = a.sent;
              signals = a.signals;
              complete = a.complete;
            },
          )
      | inr e ↦
          let (u, ue, z) =
            process_all-Processed scale n positive nine
              (record rest { candidate = []; pivot = no_pivot })
              (record {
                size = rest-size;
                counted = rest-count;
                search = inl (refl, rest-PastEmpty);
              }) in
          (
            u,
            limit-drop scale i t q r m (x ∷ d) found over there deque ∙ rw e ue,
            record {
              ready = record {
                inv = z.inv;
                idle = z.idle;
                fits =
                    subst (λ k. Fits k (streams u.inputs)) (sym (z.queue ∙ a.queue))
                      (Suffixes-Fits s.queue_size _ _ z.kept rest-Fits);
                room = omega (arith, z.queue, a.queue);
              };
              queue = z.queue ∙ a.queue;
              sent = a.sent ++ z.sent;
              signals =
                  z.signals
                  ∙ ap (λ y. y ++ z.sent) a.signals
                  ∙ append_assoc s.signals a.sent z.sent;
              complete = All-append (Complete n) a.sent z.sent a.complete z.complete;
            },
          )
    ]

  over-Added :
      (over : ltb t.queue_size (length q.deque + length q.past) ≡ true)
      → (r : Input) → get_elem? (recover t.inputs 0).0 i ≡ some r
      → r.past ≡ []
      → r.deque ≡ stream q
      → (l : List Message) → r.deque ≡ l
      → (u : Approx) × (limit_queue scale i t ≡ some u) × Added n s u
  over-Added over r there past whole [] e = absurd (short (ap length (sym whole ∙ e)))
    where
      short : length (stream q) ≡ 0 → ⊥
      short z = omega (arith, length-push_back_past q.past q.deque, z, ltb→lt _ _ over)
  over-Added over r there past whole (m ∷ []) e = absurd (short (ap length (sym whole ∙ e)))
    where
      short : length (stream q) ≡ 1 → ⊥
      short z = omega (arith, length-push_back_past q.past q.deque, z, ltb→lt _ _ over, a.queue)
  over-Added over r there past whole (m ∷ x ∷ d) e = drop-Added over r m x d there past e

  limit-Added : (u : Approx) × (limit_queue scale i t ≡ some u) × Added n s u
  limit-Added = elim (Bool-cases (ltb t.queue_size (length q.deque + length q.past))) [
    | inl over ↦
        let (r, there, past, whole) = recover-get t.inputs 0 i q found in
        over-Added over r there past whole r.deque refl
    | inr short ↦ short-Added short
  ]

add-first :
    (scale : ℤ → ℤ) (i : ℕ) (m : Message) (s t : Approx) (q : Input)
    → get_elem? s.inputs i ≡ some q
    → q.deque ≡ []
    → fill_deque scale (record s { inputs = set s.inputs i (record q { deque = m ∷ [] }) }) ≡ some t
    → add scale i m s ≡ limit_queue scale i t
unfolding add
add-first scale i m s t q e d f = rw (e, d, f, add)

add-later :
    (scale : ℤ → ℤ) (i : ℕ) (m x : Message) (d : List Message) (s : Approx) (q : Input)
    → get_elem? s.inputs i ≡ some q
    → q.deque ≡ x ∷ d
    → add scale i m s
      ≡ limit_queue scale i (record s {
        inputs =
            set s.inputs i (check_inter_message_bound (record q { deque = q.deque ++ m ∷ [] }));
      })
unfolding add
add-later scale i m x d s q e f =
    let long : (length (q.deque ++ m ∷ []) == 1) ≡ false =
      ground (arith, length-append q.deque (m ∷ []), ap length f) in
    rw (e, long, add)

-- On one to nine inputs, from a state that is ready, `add` of a message to any input always returns,
-- with no read of an empty deque. The state is ready again: the count of non-empty deques is right,
-- some deque is empty, the past messages are those of the candidate's search, and no input holds
-- more messages than the queue's size. What is signalled is tuples with a message for each input.
pub add-Added :
    (scale : ℤ → ℤ) (n : ℕ) (i : ℕ) (m : Message) (s : Approx)
    → 0 < n
    → n ≤ 9
    → i < n
    → Ready n s
    → (u : Approx) × (add scale i m s ≡ some u) × Added n s u
add-Added scale n i m s w nine l r =
    let (q, e) = get_elem?-some s.inputs i (omega (arith, r.inv.size)) in arrive q e q.deque refl
  where
    limited :
        (t : Approx)
        → add scale i m s ≡ limit_queue scale i t
        → Arrived n i s t
        → (u : Approx) × (add scale i m s ≡ some u) × Added n s u
    limited t f a =
        let (p, g) = get_elem?-some t.inputs i (omega (arith, a.inv.size)) in
        let (u, h, z) = limit-Added scale n w nine i s t r.room a p g in (u, f ∙ h, z)

    arrive :
        (q : Input)
        → get_elem? s.inputs i ≡ some q
        → (d : List Message) → q.deque ≡ d
        → (u : Approx) × (add scale i m s ≡ some u) × Added n s u
    arrive q e [] f =
        let (t, g, a) = first-Arrived scale n w nine s i m q r e f in
        limited t (add-first scale i m s t q e f g) a
    arrive q e (x ∷ d) f =
        limited _ (add-later scale i m x d s q e f) (later-Arrived scale n w nine s i m x d q r e f)

-- ===== src/MessageFilters/ApproximateTime/Arrival.antt =====
-- The first half of `add` in ApproximateTime: the message comes in, and the search may run.
use agnocast.Prelude.{
  ℕ, suc, ◌+◌, ◌≤◌, ◌<◌, ◌≡◌, ◌≢◌, refl, sym, ◌∙◌, inl, inr, some, List, [], ◌∷◌, ◌++◌, ℤ, arith,
  ◌==◌, length, get_elem?, set, length-set, Bool-cases, All,
}
use mathlib.Core.List.{append-nil}
use agnocast.MessageFilters.Message.{Message, Tuple}
use agnocast.MessageFilters.ApproximateTime.Defs.{Input, Approx}
use agnocast.MessageFilters.ApproximateTime.Streams.{streams, filled}
use agnocast.MessageFilters.ApproximateTime.Moves.{filled-set}
use agnocast.MessageFilters.ApproximateTime.Suffix.{Complete}
use agnocast.MessageFilters.ApproximateTime.Round.{Inv}
use agnocast.MessageFilters.ApproximateTime.Total.{rounds, Processed, process-Processed}
use agnocast.MessageFilters.ApproximateTime.Arrive.{
  check_inter_message_bound, process_all, fill_deque,
}
use agnocast.MessageFilters.ApproximateTime.Fits.{
  Fits, FitsBut, Suffixes-FitsBut, pushed-Heads, pushed-FitsBut, pushed-PastEmpty,
}

-- The bound check only sets its flag.
check-same :
    (q : Input)
    → ((check_inter_message_bound q).deque ≡ q.deque)
      × ((check_inter_message_bound q).past ≡ q.past)
unfolding check_inter_message_bound
check-same q = ground arith

-- Between arrivals: some deque is empty, and no input holds more than the queue's size.
pub record Ready (n : ℕ) (s : Approx) : Type 0 where
  pub inv : Inv n s
  pub idle : s.num_non_empty ≢ n
  pub fits : Fits s.queue_size (streams s.inputs)
  pub room : 0 < s.queue_size

-- In the midst of an arrival at input `i`.
pub record Arrived (n i : ℕ) (s t : Approx) : Type 0 where
  pub inv : Inv n t
  pub idle : t.num_non_empty ≢ n
  pub fits : FitsBut s.queue_size i (streams t.inputs)
  pub queue : t.queue_size ≡ s.queue_size
  pub sent : List Tuple
  pub signals : t.signals ≡ s.signals ++ sent
  pub complete : All (Complete n) sent

-- What `add` leaves: a state that is ready again, and signals with a message for each input.
pub record Added (n : ℕ) (s u : Approx) : Type 0 where
  pub ready : Ready n u
  pub queue : u.queue_size ≡ s.queue_size
  pub sent : List Tuple
  pub signals : u.signals ≡ s.signals ++ sent
  pub complete : All (Complete n) sent

-- Another value at the place of an input keeps the invariant, if its stream is at most longer at
-- the end and the count is adapted.
pushed-Inv :
    (n i k : ℕ) (s : Approx) (m : Message) (q p : Input)
    → Inv n s
    → get_elem? s.inputs i ≡ some q
    → p.past ≡ q.past
    → p.deque ≡ q.deque ++ m ∷ []
    → k ≡ filled (set s.inputs i p)
    → Inv n (record s { inputs = set s.inputs i p; num_non_empty = k })
pushed-Inv n i k s m q p v e f g c = record {
  size = length-set s.inputs i p ∙ v.size;
  counted = c;
  search = elim v.search [
    | inl (x, y) ↦ inl (x, pushed-PastEmpty m s.inputs i q p e f y)
    | inr (x, y) ↦ inr (x, pushed-Heads m s.candidate s.inputs i q p e f g y)
  ];
}

module _ (scale : ℤ → ℤ) (n : ℕ) (positive : 0 < n) (nine : n ≤ 9) where
  pub process_all-Processed :
      (s : Approx) → Inv n s → (u : Approx) × (process_all scale s ≡ some u) × Processed n s u
  process_all-Processed s v =
      process-Processed scale n positive nine (suc (rounds s)) s v (omega arith)

  -- A message at an empty deque.
  pub first-Arrived :
      (s : Approx) (i : ℕ) (m : Message) (q : Input)
      → Ready n s
      → get_elem? s.inputs i ≡ some q
      → q.deque ≡ []
      → (t : Approx) × (fill_deque scale
            (record s { inputs = set s.inputs i (record q { deque = m ∷ [] }) })
          ≡ some t)
        × Arrived n i s t
  unfolding fill_deque
  first-Arrived s i m q r e d =
      let p : Input = record q { deque = m ∷ [] } in
      let g : p.deque ≡ q.deque ++ m ∷ [] = rw d refl in
      let c : s.num_non_empty + 1 ≡ filled (set s.inputs i p) =
        ground (arith, filled-set s.inputs i q p e, r.inv.counted, d) in
      let v : Inv n (record s { inputs = set s.inputs i p; num_non_empty = s.num_non_empty + 1 }) =
        pushed-Inv n i (s.num_non_empty + 1) s m q p r.inv e refl g c in
      let fits = pushed-FitsBut m s.queue_size s.inputs i q p e refl g r.fits in
      elim (Bool-cases (s.num_non_empty + 1 == length (set s.inputs i p))) [
        | inl y ↦
            let (t, te, z) = process_all-Processed _ v in
            (
              t,
              rw (y, fill_deque) te,
              record {
                inv = z.inv;
                idle = z.idle;
                fits = Suffixes-FitsBut s.queue_size i _ _ z.kept fits;
                queue = z.queue;
                sent = z.sent;
                signals = z.signals;
                complete = z.complete;
              },
            )
        | inr y ↦ (
          record s { inputs = set s.inputs i p; num_non_empty = s.num_non_empty + 1 },
          rw (y, fill_deque) refl,
          record {
            inv = v;
            idle = ground (arith, v.size);
            fits = fits;
            queue = refl;
            sent = [];
            signals = sym (append-nil s.signals);
            complete = tt;
          },
        )
      ]

  pub later-Arrived :
      (s : Approx) (i : ℕ) (m x : Message) (d : List Message) (q : Input)
      → Ready n s
      → get_elem? s.inputs i ≡ some q
      → q.deque ≡ x ∷ d
      → Arrived n i s (record s {
        inputs =
            set s.inputs i (check_inter_message_bound (record q { deque = q.deque ++ m ∷ [] }));
      })
  later-Arrived s i m x d q r e f =
      let p : Input = check_inter_message_bound (record q { deque = q.deque ++ m ∷ [] }) in
      let (a, b) = check-same (record q { deque = q.deque ++ m ∷ [] }) in
      record {
        inv =
            pushed-Inv n i s.num_non_empty s m q p r.inv e b a
              (ground (arith, filled-set s.inputs i q p e, r.inv.counted, f, a));
        idle = r.idle;
        fits = pushed-FitsBut m s.queue_size s.inputs i q p e b a r.fits;
        queue = refl;
        sent = [];
        signals = sym (append-nil s.signals);
        complete = tt;
      }

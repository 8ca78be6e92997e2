-- ===== src/MessageFilters/ApproximateTime/Search.antt =====
-- The inner search of ApproximateTime ends, and it publishes the candidate or changes nothing.
use mathlib.Core.Path.{subst}
use native.Mathlib.Nat.{zero-add}
use agnocast.Prelude.{
  ℕ, zero, suc, ◌+◌, ◌<◌, ◌≡◌, refl, sym, ap, ◌∙◌, ◌⊎◌, inl, inr, Bool, true, false, Option, some,
  List, [], ◌∷◌, ◌++◌, ℤ, sub_ℕ, ltb_ℤ, leb_ℤ, arith, length, get_elem?, set, length-set,
  Bool-cases,
}
use agnocast.MessageFilters.Message.{Message}
use agnocast.MessageFilters.ApproximateTime.Defs.{
  Input, Approx, no_pivot, delete_front, move_front_to_past, recover_moves, publish_candidate,
}
use agnocast.MessageFilters.ApproximateTime.Process.{
  virtual_boundary, boundary_from, penalized, search_tests, virtual_search, count_move, messages,
}
use agnocast.MessageFilters.ApproximateTime.Streams.{
  streams, filled, total, Heads, Delivers, PastEmpty, recover_and_delete-Published,
}
use agnocast.MessageFilters.ApproximateTime.Moves.{
  filled-set, messages-set, Filled, boundary_from-Picks, Picks, virtual_times-some, Moved,
  Moved-step, Moved-streams, recover_moves-Moved,
}

-- The state with other inputs, whose non-empty deques are counted.
abbrev pub with_inputs : Approx → List Input → Approx
with_inputs s xs = record s { inputs = xs; num_non_empty = filled xs }

-- Publication: the candidate is signalled, and its messages leave their streams.
pub record Delivered (s u : Approx) : Type 0 where
  pub signals : u.signals ≡ s.signals ++ s.candidate ∷ []
  pub delivers : Delivers s.candidate (streams s.inputs) (streams u.inputs)
  pub idle : u.pivot ≡ no_pivot
  pub past : PastEmpty u.inputs
  pub counted : u.num_non_empty ≡ filled u.inputs
  pub size : length u.inputs ≡ length s.inputs
  pub less : total (streams u.inputs) + length s.inputs ≡ total (streams s.inputs)
  pub queue : u.queue_size ≡ s.queue_size

-- If each slot of the candidate is the oldest message of its input, past messages before those of
-- the deque, `publishCandidate` returns: it signals the candidate, takes exactly its messages out of
-- the inputs, leaves no past message and no pivot, and counts the non-empty deques.
pub publish-Delivered :
    (s : Approx)
    → Heads s.candidate (streams s.inputs)
    → (u : Approx) × (publish_candidate s ≡ some u) × Delivered s u
unfolding publish_candidate
publish-Delivered s h =
    let p = recover_and_delete-Published s.candidate s.inputs 0 h in
    (
      record s {
        signals = s.signals ++ s.candidate ∷ [];
        candidate = [];
        pivot = no_pivot;
        inputs = p.rest;
        num_non_empty = p.count;
      },
      rw p.result refl,
      record {
        signals = refl;
        delivers = p.delivers;
        idle = refl;
        past = p.past;
        counted = omega (arith, p.counted);
        size = p.size;
        less = p.less;
        queue = refl;
      },
    )

-- A front moved to the past, with the count kept right.
pub move-front :
    (s : Approx) (i : ℕ) (q : Input) (m : Message) (d : List Message)
    → s.num_non_empty ≡ filled s.inputs
    → get_elem? s.inputs i ≡ some q
    → q.deque ≡ m ∷ d
    → move_front_to_past i s
      ≡ some (with_inputs s (set s.inputs i (record q { deque = d; past = m ∷ q.past })))
unfolding move_front_to_past
move-front s i q m [] k e f =
    ground (arith, filled-set s.inputs i q (record q { deque = []; past = m ∷ q.past }) e)
move-front s i q m (x ∷ d) k e f =
    ground (arith, filled-set s.inputs i q (record q { deque = x ∷ d; past = m ∷ q.past }) e)

pub delete-front :
    (s : Approx) (i : ℕ) (q : Input) (m : Message) (d : List Message)
    → s.num_non_empty ≡ filled s.inputs
    → get_elem? s.inputs i ≡ some q
    → q.deque ≡ m ∷ d
    → delete_front i s ≡ some (with_inputs s (set s.inputs i (record q { deque = d })))
unfolding delete_front
delete-front s i q m [] k e f = ground (arith, filled-set s.inputs i q (record q { deque = [] }) e)
delete-front s i q m (x ∷ d) k e f =
    ground (arith, filled-set s.inputs i q (record q { deque = x ∷ d }) e)

-- The virtual boundary is the time of one of the inputs.
virtual_boundary-get :
    (end : Bool) (ts : List ℕ)
    → 0 < length ts
    → (b : ℕ × ℕ) × (virtual_boundary end ts ≡ some b) × (get_elem? ts b.0 ≡ some b.1)
unfolding virtual_boundary
virtual_boundary-get end [] h = absurd (omega arith)
virtual_boundary-get end (t ∷ ts) h =
    (boundary_from end 0 (0, t) (t ∷ ts), refl, found (boundary_from-Picks end 0 (0, t) (t ∷ ts)))
  where
    found : {b : ℕ × ℕ} → Picks 0 (0, t) (t ∷ ts) b → get_elem? (t ∷ ts) b.0 ≡ some b.1
    found (inl e) = rw e refl
    found (inr (j, e, g)) = rw (e ∙ zero-add j) g

-- The candidate is published, or the state is as before.
abbrev pub Concluded : Approx → Option Approx → Type 0
Concluded s o = (o ≡ some s) ⊎ ((u : Approx) × (o ≡ some u) × Delivered s u)

-- Neither test of the inner loop holds: the earliest virtual time is before the pivot.
before_pivot :
    (p c v : ℕ) (x : ℤ) → leb_ℤ (sub_ℕ p c) x ≡ false → ltb_ℤ x (sub_ℕ v c) ≡ false → v < p
before_pivot p c v x e f = ground arith

module _ (scale : ℤ → ℤ) (s : Approx) (heads : Heads s.candidate (streams s.inputs))
    (some_input : 0 < length s.inputs) (counted : s.num_non_empty ≡ filled s.inputs) where
  pub unchanged : with_inputs s s.inputs ≡ s
  unchanged = λ i. record s { num_non_empty = sym counted i }

  published :
      (xs : List Input)
      → streams xs ≡ streams s.inputs
      → length xs ≡ length s.inputs
      → {u : Approx} → Delivered (with_inputs s xs) u
      → Delivered s u
  published xs e l {u} d = record {
    signals = d.signals;
    delivers = subst (λ z. Delivers s.candidate z (streams u.inputs)) e d.delivers;
    idle = d.idle;
    past = d.past;
    counted = d.counted;
    size = d.size ∙ l;
    less = omega (arith, d.less, l, ap total e);
    queue = d.queue;
  }

  tests-publish :
      (next : Approx → Option Approx) (moves : List ℕ) (vend : ℕ) (vstart : ℕ × ℕ) (t : Approx)
      → leb_ℤ (sub_ℕ t.pivot_time t.candidate_start) (penalized scale t vend) ≡ true
      → search_tests scale next moves vend vstart t ≡ publish_candidate t
  unfolding search_tests
  tests-publish next moves vend vstart t e = rw (e, search_tests)

  tests-undo :
      (next : Approx → Option Approx) (moves : List ℕ) (vend : ℕ) (vstart : ℕ × ℕ) (t : Approx)
      (r : List Input × ℕ)
      → leb_ℤ (sub_ℕ t.pivot_time t.candidate_start) (penalized scale t vend) ≡ false
      → ltb_ℤ (penalized scale t vend) (sub_ℕ vstart.1 t.candidate_start) ≡ true
      → recover_moves moves t.inputs 0 ≡ some r
      → search_tests scale next moves vend vstart t
        ≡ some (record t { inputs = r.0; num_non_empty = r.1 })
  unfolding search_tests
  tests-undo next moves vend vstart t r e g h = rw (e, g, h, search_tests)

  tests-move :
      (next : Approx → Option Approx) (moves : List ℕ) (vend : ℕ) (vstart : ℕ × ℕ) (t u : Approx)
      → leb_ℤ (sub_ℕ t.pivot_time t.candidate_start) (penalized scale t vend) ≡ false
      → ltb_ℤ (penalized scale t vend) (sub_ℕ vstart.1 t.candidate_start) ≡ false
      → move_front_to_past vstart.0 t ≡ some u
      → search_tests scale next moves vend vstart t ≡ next u
  unfolding search_tests
  tests-move next moves vend vstart t u e g h = rw (e, g, h, search_tests)

  -- The tests of a round, at inputs that virtual moves lead to.
  tests-Concluded :
      (next : Approx → Option Approx) (moves : List ℕ) (xs : List Input) (vend : ℕ) (vstart : ℕ × ℕ)
      → length xs ≡ length s.inputs
      → Moved moves xs s.inputs
      → (vstart.1 < s.pivot_time → Filled xs vstart.0)
      → ((q : Input) (m : Message) (d : List Message)
          → get_elem? xs vstart.0 ≡ some q
          → q.deque ≡ m ∷ d
          → Concluded s
              (next (with_inputs s (set xs vstart.0 (record q { deque = d; past = m ∷ q.past })))))
      → Concluded s (search_tests scale next moves vend vstart (with_inputs s xs))
  tests-Concluded next moves xs vend vstart l b early more =
      elim (Bool-cases (leb_ℤ (sub_ℕ s.pivot_time s.candidate_start) (penalized scale s vend))) [
        | inl e ↦
            let same : streams xs ≡ streams s.inputs = Moved-streams moves xs s.inputs b in
            let h : Heads s.candidate (streams xs) = subst (Heads s.candidate) (sym same) heads in
            let (u, r, d) = publish-Delivered (with_inputs s xs) h in
            rw (tests-publish next moves vend vstart (with_inputs s xs) e, r)
              (inr (u, refl, published xs same l d))
        | inr e ↦
            elim (Bool-cases (ltb_ℤ (penalized scale s vend) (sub_ℕ vstart.1 s.candidate_start))) [
              | inl g ↦
                  rw
                    (tests-undo next moves vend vstart (with_inputs s xs) _ e g
                      (recover_moves-Moved moves xs s.inputs 0 b))
                    (inl (
                      ap some (
                        ap (λ k. record s { num_non_empty = k }) (zero-add (filled s.inputs))
                        ∙ unchanged)))
              | inr g ↦
                  let (q, m, d, qe, qd) = early (
                    before_pivot s.pivot_time s.candidate_start vstart.1 (penalized scale s vend) e
                      g) in
                  rw
                    (tests-move next moves vend vstart (with_inputs s xs) _ e g
                      (move-front (with_inputs s xs) vstart.0 q m d refl qe qd))
                    (more q m d qe qd)
            ]
      ]

  -- The inner search ends within its fuel: it publishes the candidate, or undoes its moves.
  pub virtual_search-Concluded :
      (fuel : ℕ) (moves : List ℕ) (xs : List Input)
      → messages xs < fuel
      → length xs ≡ length s.inputs
      → Moved moves xs s.inputs
      → Concluded s (virtual_search scale fuel moves (with_inputs s xs))
  unfolding virtual_search
  virtual_search-Concluded zero moves xs f l b = absurd (omega arith)
  virtual_search-Concluded (suc fuel) moves xs f l b =
      let same : streams xs ≡ streams s.inputs = Moved-streams moves xs s.inputs b in
      let (ts, te, tl, early) =
        virtual_times-some s.candidate s.pivot_time xs
          (subst (Heads s.candidate) (sym same) heads) in
      let (vend, ve, _) = virtual_boundary-get true ts (omega (arith, tl)) in
      let (vstart, we, wg) = virtual_boundary-get false ts (omega (arith, tl)) in
      rw (te, ve, we)
        (tests-Concluded (λ s'. virtual_search scale fuel (count_move vstart.0 moves) s') moves xs
          vend.1 vstart l b (early vstart.0 vstart.1 wg)
          λ q m d qe qd.
            let q' : Input = record q { deque = d; past = m ∷ q.past } in
            virtual_search-Concluded fuel (count_move vstart.0 moves) (set xs vstart.0 q')
              (omega (arith, messages-set xs vstart.0 q q' qe, ap length qd))
              (length-set xs vstart.0 q' ∙ l) (Moved-step moves xs s.inputs vstart.0 q m d qe qd b))

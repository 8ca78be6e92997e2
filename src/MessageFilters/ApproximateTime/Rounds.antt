-- ===== src/MessageFilters/ApproximateTime/Rounds.antt =====
-- Every round of `process` succeeds, keeps the invariant and makes progress.
use mathlib.Core.Path.{subst}
use agnocast.Prelude.{
  ℕ, zero, suc, ◌<◌, ◌≡◌, refl, sym, ap, ◌∙◌, inl, inr, Bool, Option, some, List, [], ◌∷◌, map, ℤ,
  arith, length, get_elem?, set, length-set,
}
use agnocast.MessageFilters.Message.{Message}
use agnocast.MessageFilters.ApproximateTime.Defs.{
  Input, Approx, no_pivot, ◌>>=◌, fronts, clear_past, make_candidate, delete_front,
  move_front_to_past,
}
use agnocast.MessageFilters.ApproximateTime.Process.{boundary, boundary_from, stamps, conclude}
use agnocast.MessageFilters.ApproximateTime.Streams.{
  streams, filled, Heads, PastEmpty, AllFilled, stream-move,
}
use agnocast.MessageFilters.ApproximateTime.Moves.{
  streams-set, messages-set, AllFilled-get, fronts-Heads, clear_past-filled, clear_past-messages,
  clear_past-length, clear_past-AllFilled, Picks, boundary_from-Picks,
}
use agnocast.MessageFilters.ApproximateTime.Search.{with_inputs, move-front, delete-front}
use agnocast.MessageFilters.ApproximateTime.Suffix.{
  Suffixes, Suffixes-refl, Suffixes-total, clear_past-Suffixes, delete-Suffixes,
}
use agnocast.MessageFilters.ApproximateTime.Round.{Round, finish}

get_elem?-lt {ℓ} :
    {A : Type ℓ} (xs : List A) (i : ℕ) {x : A} → get_elem? xs i ≡ some x → i < length xs
get_elem?-lt [] i e = ground arith
get_elem?-lt (y ∷ xs) zero e = omega arith
get_elem?-lt (y ∷ xs) (suc i) e = omega (arith, get_elem?-lt xs i e)

-- The boundary of the fronts names an input.
pub boundary-lt :
    (end : Bool) (ts : List ℕ)
    → 0 < length ts
    → (b : ℕ × ℕ) × (boundary end ts ≡ some b) × (b.0 < length ts)
unfolding boundary
boundary-lt end [] h = absurd (omega arith)
boundary-lt end (t ∷ ts) h =
    (boundary_from end 1 (0, t) ts, refl, found (boundary_from-Picks end 1 (0, t) ts))
  where
    found : {b : ℕ × ℕ} → Picks 1 (0, t) ts b → b.0 < length (t ∷ ts)
    found (inl e) = rw e (omega arith)
    found (inr (j, e, g)) = omega (arith, e, get_elem?-lt ts j g)

pub length-stamps : (ms : List Message) → length (stamps ms) ≡ length ms
length-stamps [] = refl
length-stamps (m ∷ r) = ap suc (length-stamps r)

module _ (scale : ℤ → ℤ) (n : ℕ) (s : Approx) (positive : 0 < n) (size : length s.inputs ≡ n)
    (counted : s.num_non_empty ≡ filled s.inputs) (all : AllFilled s.inputs) where
  abbrev pub take_candidate : ℕ → ℕ → ℕ → ℕ → ℕ → Option Approx
  take_candidate si st et p pt = make_candidate s >>= λ c.
      move_front_to_past si
        (record c { candidate_start = st; candidate_end = et; pivot = p; pivot_time = pt })
      >>= λ moved. conclude scale si et moved

  -- The fronts become the candidate, and the earliest of them moves to the past.
  pub candidate-Round :
      (start_index start_time end_time pivot pivot_time : ℕ)
      → start_index < n
      → pivot < n
      → (u : Approx) × (take_candidate start_index start_time end_time pivot pivot_time ≡ some u)
        × Round n s u
  unfolding make_candidate
  candidate-Round si st et p pt sl pl =
      let (ms, fe, fl, heads) = fronts-Heads s.inputs all in
      let (q, m, d, qe, qd) =
        AllFilled-get (map clear_past s.inputs) si (clear_past-AllFilled s.inputs all)
          (omega (arith, clear_past-length s.inputs)) in
      chosen ms fe heads q m d qe qd
    where
      chosen :
          (ms : List Message)
          → fronts s.inputs ≡ some ms
          → Heads (map some ms) (streams (map clear_past s.inputs))
          → (q : Input) (m : Message) (d : List Message)
          → get_elem? (map clear_past s.inputs) si ≡ some q
          → q.deque ≡ m ∷ d
          → (u : Approx) × (take_candidate si st et p pt ≡ some u) × Round n s u
      chosen ms fe heads q m d qe qd =
          let xs = map clear_past s.inputs in
          let q' : Input = record q { deque = d; past = m ∷ q.past } in
          let c : Approx = record s {
            candidate = map some ms;
            inputs = xs;
            candidate_start = st;
            candidate_end = et;
            pivot = p;
            pivot_time = pt;
          } in
          let kc : c.num_non_empty ≡ filled xs = counted ∙ sym (clear_past-filled s.inputs) in
          let same : streams (set xs si q') ≡ streams xs =
            streams-set xs si q q' qe (stream-move q m d qd) in
          rw (fe, move-front c si q m d kc qe qd)
            (finish scale n si et s (with_inputs c (set xs si q')) positive
              (length-set xs si q' ∙ clear_past-length s.inputs ∙ size) refl pl
              (subst (Heads (map some ms)) (sym same) heads)
              (subst (λ z. Suffixes z (streams s.inputs)) (sym same) (clear_past-Suffixes s.inputs))
              (omega
                (arith, messages-set xs si q q' qe, ap length qd, clear_past-messages s.inputs))
              refl refl)

  -- The candidate stays, and the earliest front moves to the past.
  pub move-Round :
      (si et : ℕ)
      → si < n
      → s.pivot < n
      → Heads s.candidate (streams s.inputs)
      → (u : Approx) × ((move_front_to_past si s >>= λ moved. conclude scale si et moved) ≡ some u)
        × Round n s u
  move-Round si et sl pl heads =
      let (q, m, d, qe, qd) = AllFilled-get s.inputs si all (omega (arith, size)) in
      moving q m d qe qd
    where
      moving :
          (q : Input) (m : Message) (d : List Message)
          → get_elem? s.inputs si ≡ some q
          → q.deque ≡ m ∷ d
          → (u : Approx) × ((move_front_to_past si s >>= λ moved. conclude scale si et moved)
              ≡ some u)
            × Round n s u
      moving q m d qe qd =
          let q' : Input = record q { deque = d; past = m ∷ q.past } in
          let same : streams (set s.inputs si q') ≡ streams s.inputs =
            streams-set s.inputs si q q' qe (stream-move q m d qd) in
          rw (move-front s si q m d counted qe qd) (
            finish scale n si et s (with_inputs s (set s.inputs si q')) positive
              (length-set s.inputs si q' ∙ size) refl pl
              (subst (Heads s.candidate) (sym same) heads)
              (subst (λ z. Suffixes z (streams s.inputs)) (sym same)
                (Suffixes-refl (streams s.inputs)))
              (omega (arith, messages-set s.inputs si q q' qe, ap length qd)) refl refl)

  -- No candidate is made: the earliest front is dropped.
  pub delete-Round :
      (si : ℕ)
      → si < n
      → s.pivot ≡ no_pivot
      → PastEmpty s.inputs
      → (u : Approx) × (delete_front si s ≡ some u) × Round n s u
  delete-Round si sl p past =
      let (q, m, d, qe, qd) = AllFilled-get s.inputs si all (omega (arith, size)) in
      let q' : Input = record q { deque = d } in
      let (kept, empty) = delete-Suffixes s.inputs si q m d past qe qd in
      (
        with_inputs s (set s.inputs si q'),
        delete-front s si q m d counted qe qd,
        record {
          inv = record {
            size = length-set s.inputs si q' ∙ size;
            counted = refl;
            search = inl (p, empty);
          };
          less = inr (
            Suffixes-total _ _ kept,
            omega (arith, messages-set s.inputs si q q' qe, ap length qd),
          );
          kept = kept;
          signalled = inl refl;
          queue = refl;
        },
      )

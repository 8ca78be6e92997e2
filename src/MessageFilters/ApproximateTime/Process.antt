-- ===== src/MessageFilters/ApproximateTime/Process.antt =====
-- approximate_time.hpp: the search for a match, `process`, and `add`.
use agnocast.Prelude.{
  ℕ, zero, suc, ◌+◌, Bool, true, false, not, Option, none, some, List, [], ◌∷◌, map, ℤ, pos, sub_ℕ,
  ltb_ℤ, leb_ℤ, ltb, ◌==◌, if◌then◌else◌, length, get_elem?,
}
use agnocast.MessageFilters.Message.{Message}
use agnocast.MessageFilters.ApproximateTime.Defs.{
  Input, Approx, no_pivot, ◌>>=◌, delete_front, move_front_to_past, recover_moves, fronts,
  make_candidate, publish_candidate,
}

abbrev pub xor : Bool → Bool → Bool
xor true b = not b
xor false b = b

-- The loop of `getCandidateBoundary` and of `getVirtualCandidateBoundary` over the times from number
-- `i` on, with the best so far: its index and time.
unfoldable pub boundary_from : Bool → ℕ → ℕ × ℕ → List ℕ → ℕ × ℕ
boundary_from end i best [] = best
boundary_from end i best (t ∷ ts) =
    boundary_from end (i + 1) (if xor (ltb t best.1) end then (i, t) else best) ts

-- `getCandidateBoundary`: `end` looks for the latest front, else for the earliest.
unfoldable pub boundary : Bool → List ℕ → Option (ℕ × ℕ)
unfolding boundary_from
boundary end [] = none
boundary end (t ∷ ts) = some (boundary_from end 1 (0, t) ts)

-- `getVirtualCandidateBoundary`, whose loop starts at the first input again.
unfoldable pub virtual_boundary : Bool → List ℕ → Option (ℕ × ℕ)
unfolding boundary_from
virtual_boundary end [] = none
virtual_boundary end (t ∷ ts) = some (boundary_from end 0 (0, t) (t ∷ ts))

abbrev pub stamps : List Message → List ℕ
stamps = map (λ m. m.stamp)

-- `getVirtualTime` of one input.
unfoldable pub virtual_time : ℕ → List Message → List Message → ℕ → Option ℕ
virtual_time pivot_time (m ∷ r) past lower_bound = some m.stamp
virtual_time pivot_time [] [] lower_bound = none
virtual_time pivot_time [] (m ∷ v) lower_bound =
    some (if ltb pivot_time (m.stamp + lower_bound) then m.stamp + lower_bound else pivot_time)

unfoldable pub virtual_times : ℕ → List Input → Option (List ℕ)
unfolding virtual_time
virtual_times pivot_time [] = some []
virtual_times pivot_time (q ∷ r) = do
  t ← virtual_time pivot_time q.deque q.past q.lower_bound
  ts ← virtual_times pivot_time r
  some (t ∷ ts)

-- `num_virtual_moves[i]++`
abbrev pub count_move : ℕ → List ℕ → List ℕ
count_move i [] = []
count_move zero (c ∷ r) = suc c ∷ r
count_move (suc i) (c ∷ r) = c ∷ count_move i r

abbrev pub no_moves : List Input → List ℕ
no_moves = map (λ q. 0)

-- `has_dropped_messages_[i] = false` for every input but `i`.
unfoldable pub clear_dropped : ℕ → ℕ → List Input → List Input
clear_dropped k i [] = []
clear_dropped k i (q ∷ r) =
    (if k == i then q else record q { has_dropped = false }) ∷ clear_dropped (k + 1) i r

abbrev pub messages : List Input → ℕ
messages [] = 0
messages (q ∷ r) = length q.deque + messages r

module _ (scale : ℤ → ℤ) where
  -- `(time - candidate_end_) * (1 + age_penalty_)`
  abbrev pub penalized : Approx → ℕ → ℤ
  penalized s time = scale (sub_ℕ time s.candidate_end)

  -- The two tests of the inner loop; `next` is the round after a virtual move.
  unfoldable pub search_tests :
      (Approx → Option Approx) → List ℕ → ℕ → ℕ × ℕ → Approx → Option Approx
  unfolding publish_candidate recover_moves move_front_to_past
  search_tests next moves vend_time (vstart_index, vstart_time) s =
      elim (leb_ℤ (sub_ℕ s.pivot_time s.candidate_start) (penalized s vend_time)) [
        | true ↦ publish_candidate s
        | false ↦ elim (ltb_ℤ (penalized s vend_time) (sub_ℕ vstart_time s.candidate_start)) [
          | true ↦ do
            (inputs', k) ← recover_moves moves s.inputs 0
            some (record s { inputs = inputs'; num_non_empty = k })
          | false ↦ do s' ← move_front_to_past vstart_index s; next s'
        ]
      ]

  -- The inner `while (true)` of `process`.
  unfoldable pub virtual_search : ℕ → List ℕ → Approx → Option Approx
  unfolding virtual_times virtual_boundary search_tests
  virtual_search zero moves s = none
  virtual_search (suc fuel) moves s = do
    times ← virtual_times s.pivot_time s.inputs
    vend ← virtual_boundary true times
    vstart ← virtual_boundary false times
    search_tests (λ s'. virtual_search fuel (count_move vstart.0 moves) s') moves vend.1 vstart s

  -- From the assertion that there is a pivot to the end of the body of `process`. A round of the
  -- inner loop moves a message out of a deque, which bounds its fuel.
  unfoldable pub conclude : ℕ → ℕ → Approx → Option Approx
  unfolding virtual_search publish_candidate
  conclude start_index end_time s =
      if start_index == s.pivot
      then publish_candidate s
      else if leb_ℤ (sub_ℕ s.pivot_time s.candidate_start) (penalized s end_time)
      then publish_candidate s
      else if ltb s.num_non_empty (length s.inputs)
      then virtual_search (suc (messages s.inputs)) (no_moves s.inputs) s
      else some s

  -- There is no candidate: skip the earliest front, or take the fronts as the candidate.
  unfoldable pub begin_search : ℕ × ℕ → ℕ × ℕ → Approx → Option Approx
  unfolding conclude delete_front make_candidate move_front_to_past
  begin_search (end_index, end_time) (start_index, start_time) s =
      if ltb_ℤ (pos s.max_interval_duration) (sub_ℕ end_time start_time)
      then delete_front start_index s
      else do
        q ← get_elem? s.inputs end_index
        if q.has_dropped then delete_front start_index s else do
          c ← make_candidate s
          moved ← move_front_to_past start_index (record c {
            candidate_start = start_time;
            candidate_end = end_time;
            pivot = end_index;
            pivot_time = end_time;
          })
          conclude start_index end_time moved

  -- There is a candidate: keep it, or replace it by the fronts.
  unfoldable pub continue_search : ℕ × ℕ → ℕ × ℕ → Approx → Option Approx
  unfolding conclude make_candidate move_front_to_past
  continue_search (end_index, end_time) (start_index, start_time) s =
      if leb_ℤ (sub_ℕ start_time s.candidate_start) (penalized s end_time)
      then (do moved ← move_front_to_past start_index s; conclude start_index end_time moved)
      else do
        c ← make_candidate s
        moved ← move_front_to_past start_index (record c {
          candidate_start = start_time;
          candidate_end = end_time;
          pivot = s.pivot;
          pivot_time = s.pivot_time;
        })
        conclude start_index end_time moved

  -- The body of the outer loop of `process`.
  unfoldable pub process_round : Approx → Option Approx
  unfolding fronts boundary clear_dropped begin_search continue_search
  process_round s = do
    ms ← fronts s.inputs
    end ← boundary true (stamps ms)
    start ← boundary false (stamps ms)
    let cleared = record s { inputs = clear_dropped 0 end.0 s.inputs }
    if s.pivot == no_pivot
        then begin_search end start cleared
        else continue_search end start cleared

  -- `process`: `while (num_non_empty_deques_ == RealTypeCount::value)`.
  unfoldable pub process : ℕ → Approx → Option Approx
  unfolding process_round
  process zero s = none
  process (suc fuel) s = elim (s.num_non_empty == length s.inputs) [
    | false ↦ some s
    | true ↦ do s' ← process_round s; process fuel s'
  ]

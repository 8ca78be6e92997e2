-- ===== src/MessageFilters/ApproximateTime/Arrive.antt =====
-- approximate_time.hpp: `add`, with the check of the rate bound and the limit on the queues.
use agnocast.Prelude.{
  ℕ, suc, ◌+◌, ◌-◌, true, Option, none, some, List, [], ◌∷◌, ◌++◌, ℤ, ltb, ◌==◌, if◌then◌else◌,
  length, get_elem?, set,
}
use agnocast.MessageFilters.Message.{Message}
use agnocast.MessageFilters.ApproximateTime.Defs.{
  Input, Approx, no_pivot, ◌>>=◌, pop_deque, recover,
}
use agnocast.MessageFilters.ApproximateTime.Process.{process}
use agnocast.MessageFilters.ApproximateTime.Total.{rounds}

-- The message at the back of the deque with the one before it: in the deque, or else at the back of the
-- past messages.
abbrev pub last_pair : Option Message → List Message → Option (Message × Message)
last_pair previous [] = none
last_pair none (m ∷ []) = none
last_pair (some p) (m ∷ []) = some (p, m)
last_pair previous (m ∷ x ∷ r) = last_pair (some m) (x ∷ r)

abbrev pub back_of : List Message → Option Message
back_of [] = none
back_of (m ∷ v) = some m

-- `checkInterMessageBound`
unfoldable pub check_inter_message_bound : Input → Input
check_inter_message_bound q = if q.warned then q else elim (last_pair (back_of q.past) q.deque) [
  | none ↦ q
  | some (p, m) ↦
      if ltb m.stamp p.stamp
      then record q { warned = true }
      else if ltb (m.stamp - p.stamp) q.lower_bound
      then record q { warned = true }
      else q
]

module _ (scale : ℤ → ℤ) where
  -- `process`, with fuel for every round that the state can take.
  abbrev pub process_all : Approx → Option Approx
  process_all s = process scale (suc (rounds s)) s

  -- A message came to an empty deque.
  unfoldable pub fill_deque : Approx → Option Approx
  fill_deque s =
      let filled = record s { num_non_empty = s.num_non_empty + 1 } in
      if filled.num_non_empty == length filled.inputs then process_all filled else some filled

  -- The end of `add`: an input that holds too much loses its oldest message, and the search restarts.
  unfoldable pub limit_queue : ℕ → Approx → Option Approx
  unfolding recover pop_deque
  limit_queue i s = do
    q ← get_elem? s.inputs i
    if ltb s.queue_size (length q.deque + length q.past)
        then (do
          let recovered = recover s.inputs 0
          r ← get_elem? recovered.0 i
          (m, d) ← pop_deque r.deque
          let dropped = record s {
            inputs = set recovered.0 i (record r { deque = d; has_dropped = true });
            num_non_empty = recovered.1;
          }
          if s.pivot == no_pivot
              then some dropped
              else process_all (record dropped { candidate = []; pivot = no_pivot }))
        else some s

  -- `add<i>(evt)`
  unfoldable pub add : ℕ → Message → Approx → Option Approx
  unfolding fill_deque limit_queue check_inter_message_bound
  add i m s = do
    q ← get_elem? s.inputs i
    let d = q.deque ++ m ∷ []
    let pushed = record q { deque = d }
    t ←
        (if length d == 1
          then fill_deque (record s { inputs = set s.inputs i pushed })
          else some (record s { inputs = set s.inputs i (check_inter_message_bound pushed) }))
    limit_queue i t

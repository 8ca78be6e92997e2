-- ===== src/MessageFilters/ExactTime/Defs.antt =====
-- exact_time.hpp: the state of the policy, `add`, `checkTuple` and `clearOldTuples`.
use agnocast.Prelude.{
  ℕ, ◌+◌, Bool, true, false, ◌&&◌, ◌||◌, Option, none, some, List, [], ◌∷◌, ◌++◌, map, ltb, leb,
  ◌==◌, if◌then◌else◌, length, set,
}
use agnocast.MessageFilters.Message.{Message, Tuple, empty_tuple}

abbrev pub Entry : Type 0
Entry = ℕ × Tuple

-- `real_type_count` is `RealTypeCount::value`.
pub record ExactTime : Type 0 where
  pub real_type_count : ℕ
  pub queue_size : ℕ
  pub tuples : List Entry
  pub last_signal_time : ℕ
  pub signals : List Tuple
  pub drops : List Tuple

unfoldable pub init : ℕ → ℕ → ExactTime
init real_type_count queue_size = record {
  real_type_count = real_type_count;
  queue_size = queue_size;
  tuples = [];
  last_signal_time = 0;
  signals = [];
  drops = [];
}

abbrev pub is_filled : Option Message → Bool
is_filled none = false
is_filled (some m) = true

-- The slots from number `k` on: the first two are always required, another one if it is in use.
unfoldable pub full_from : ℕ → ℕ → Tuple → Bool
full_from n k [] = true
full_from n k (s ∷ t) = (if ltb k 2 || ltb k n then is_filled s else true) && full_from n (k + 1) t

abbrev pub full : ℕ → Tuple → Bool
full n t = full_from n 0 t

-- `tuples_[time]`, which makes an empty tuple for a new time, and the write to its slot `i`.
unfoldable pub insert : ℕ → Message → List Entry → List Entry
insert i m [] = (m.stamp, set empty_tuple i (some m)) ∷ []
insert i m ((k, t) ∷ r) =
    if m.stamp == k
    then (k, set t i (some m)) ∷ r
    else if ltb m.stamp k
    then (m.stamp, set empty_tuple i (some m)) ∷ (k, t) ∷ r
    else (k, t) ∷ insert i m r

unfoldable pub find : ℕ → List Entry → Tuple
find k [] = empty_tuple
find k ((j, t) ∷ r) = if j == k then t else find k r

unfoldable pub erase : ℕ → List Entry → List Entry
erase k [] = []
erase k ((j, t) ∷ r) = if j == k then r else (j, t) ∷ erase k r

-- `clearOldTuples`: the entries that it drops, and those that stay.
unfoldable pub clear_old_tuples : ℕ → List Entry → List Entry × List Entry
clear_old_tuples last [] = ([], [])
clear_old_tuples last ((k, t) ∷ r) =
    let rest = clear_old_tuples last r in
    if leb k last then ((k, t) ∷ rest.0, rest.1) else ([], (k, t) ∷ r)

-- `while (tuples_.size() > queue_size_)`, from the front.
unfoldable pub drop_excess : ℕ → List Entry → List Entry × List Entry
drop_excess q [] = ([], [])
drop_excess q ((k, t) ∷ r) =
    let rest = drop_excess q r in
    if ltb q (length ((k, t) ∷ r)) then ((k, t) ∷ rest.0, rest.1) else ([], (k, t) ∷ r)

abbrev pub tuples_of : List Entry → List Tuple
tuples_of = map (λ e. e.1)

-- The stamp of the message in slot 0, which a full tuple has.
abbrev pub first_stamp : Tuple → ℕ
first_stamp [] = 0
first_stamp (none ∷ t) = 0
first_stamp (some m ∷ t) = m.stamp

-- The branch of `checkTuple` for a full tuple.
unfoldable pub signal_tuple : Tuple → ExactTime → ExactTime
unfolding erase clear_old_tuples
signal_tuple t s =
    let last = first_stamp t in
    let cleared = clear_old_tuples last (erase last s.tuples) in
    record s {
      tuples = cleared.1;
      last_signal_time = last;
      signals = s.signals ++ t ∷ [];
      drops = s.drops ++ tuples_of cleared.0;
    }

unfoldable pub limit_queue : ExactTime → ExactTime
unfolding drop_excess
limit_queue s =
    let cut = drop_excess s.queue_size s.tuples in
    if ltb 0 s.queue_size
    then record s { tuples = cut.1; drops = s.drops ++ tuples_of cut.0 }
    else s

unfoldable pub check_tuple : Tuple → ExactTime → ExactTime
unfolding full_from signal_tuple limit_queue
check_tuple t s = limit_queue (if full s.real_type_count t then signal_tuple t s else s)

-- `add<i>(evt)`
unfoldable pub add : ℕ → Message → ExactTime → ExactTime
unfolding insert find check_tuple
add i m s =
    let stored = insert i m s.tuples in
    check_tuple (find m.stamp stored) (record s { tuples = stored })

-- ===== src/MessageFilters/ApproximateTime/Defs.antt =====
-- approximate_time.hpp: the state of the policy, and the operations on deques and past messages.
use agnocast.Prelude.{
  ℕ, zero, suc, ◌+◌, ◌-◌, Bool, true, false, Option, none, some, List, [], ◌∷◌, ◌++◌, map,
  if◌then◌else◌, get_elem?, set,
}
use agnocast.MessageFilters.Message.{Message, Tuple}

-- One input. `past` has the back of the C++ vector at its head; `deque` has its front there.
-- `lower_bound` is the input's entry of `inter_message_lower_bounds_`, in nanoseconds.
pub record Input : Type 0 where
  pub deque : List Message
  pub past : List Message
  pub has_dropped : Bool
  pub lower_bound : ℕ
  pub warned : Bool

pub record Approx : Type 0 where
  pub inputs : List Input
  pub queue_size : ℕ
  pub num_non_empty : ℕ
  pub candidate : Tuple
  pub candidate_start : ℕ
  pub candidate_end : ℕ
  pub pivot_time : ℕ
  pub pivot : ℕ
  pub max_interval_duration : ℕ
  pub signals : List Tuple

abbrev pub no_pivot : ℕ
no_pivot = 9

abbrev pub new_input : Input
new_input = record { deque = []; past = []; has_dropped = false; lower_bound = 0; warned = false }

abbrev pub new_inputs : ℕ → List Input
new_inputs zero = []
new_inputs (suc n) = new_input ∷ new_inputs n

-- The constructor, for `n` inputs in use; `max_interval_duration` starts at INT32_MAX s + 999999999 ns.
unfoldable pub init : ℕ → ℕ → Approx
init n queue_size = record {
  inputs = new_inputs n;
  queue_size = queue_size;
  num_non_empty = 0;
  candidate = [];
  candidate_start = 0;
  candidate_end = 0;
  pivot_time = 0;
  pivot = no_pivot;
  max_interval_duration = 2_147_483_647_999_999_999;
  signals = [];
}

-- `none` is undefined behaviour (the front of an empty deque), an abort, or fuel that ran out.
infixl 5 ◌>>=◌
abbrev pub ◌>>=◌ {ℓ κ} : {A : Type ℓ} {B : Type κ} → Option A → (A → Option B) → Option B
none >>= f = none
some a >>= f = f a

abbrev pub is_empty : List Message → Bool
is_empty [] = true
is_empty (m ∷ r) = false

-- The C++ code counts up or down by one where a deque becomes non-empty or empty.
abbrev pub one_if_filled : List Message → ℕ
one_if_filled [] = 0
one_if_filled (m ∷ r) = 1

unfoldable pub pop_deque : List Message → Option (Message × List Message)
pop_deque [] = none
pop_deque (m ∷ r) = some (m, r)

-- `dequeDeleteFront(index)`
unfoldable pub delete_front : ℕ → Approx → Option Approx
unfolding pop_deque
delete_front i s = do
  q ← get_elem? s.inputs i
  (m, r) ← pop_deque q.deque
  some (record s {
    inputs = set s.inputs i (record q { deque = r });
    num_non_empty = if is_empty r then s.num_non_empty - 1 else s.num_non_empty;
  })

-- `dequeMoveFrontToPast(index)`
unfoldable pub move_front_to_past : ℕ → Approx → Option Approx
unfolding pop_deque
move_front_to_past i s = do
  q ← get_elem? s.inputs i
  (m, r) ← pop_deque q.deque
  some (record s {
    inputs = set s.inputs i (record q { deque = r; past = m ∷ q.past });
    num_non_empty = if is_empty r then s.num_non_empty - 1 else s.num_non_empty;
  })

-- `while (!v.empty()) { q.push_front(v.back()); v.pop_back(); }`
unfoldable pub push_back_past : List Message → List Message → List Message
push_back_past [] q = q
push_back_past (m ∷ v) q = push_back_past v (m ∷ q)

-- The same `num_messages` times, with what stays in the vector.
unfoldable pub push_back_some :
    ℕ → List Message → List Message → Option (List Message × List Message)
push_back_some zero v q = some (v, q)
push_back_some (suc k) [] q = none
push_back_some (suc k) (m ∷ v) q = push_back_some k v (m ∷ q)

-- `recover<0>() … recover<8>()`, from the count `k`.
unfoldable pub recover : List Input → ℕ → List Input × ℕ
unfolding push_back_past
recover [] k = ([], k)
recover (q ∷ r) k =
    let d = push_back_past q.past q.deque in
    let (r', k') = recover r (k + one_if_filled d) in (record q { deque = d; past = [] } ∷ r', k')

-- `recover<0>(num_virtual_moves[0]) … recover<8>(num_virtual_moves[8])`
unfoldable pub recover_moves : List ℕ → List Input → ℕ → Option (List Input × ℕ)
unfolding push_back_some
recover_moves moves [] k = some ([], k)
recover_moves [] (q ∷ r) k = none
recover_moves (c ∷ moves) (q ∷ r) k = do
  (v, d) ← push_back_some c q.past q.deque
  (r', k') ← recover_moves moves r (k + one_if_filled d)
  some (record q { deque = d; past = v } ∷ r', k')

-- `recoverAndDelete<0>() … recoverAndDelete<8>()`
unfoldable pub recover_and_delete : List Input → ℕ → Option (List Input × ℕ)
unfolding push_back_past pop_deque
recover_and_delete [] k = some ([], k)
recover_and_delete (q ∷ r) k = do
  (m, d) ← pop_deque (push_back_past q.past q.deque)
  (r', k') ← recover_and_delete r (k + one_if_filled d)
  some (record q { deque = d; past = [] } ∷ r', k')

-- The fronts of the deques.
unfoldable pub fronts : List Input → Option (List Message)
unfolding pop_deque
fronts [] = some []
fronts (q ∷ r) = do (m, d) ← pop_deque q.deque; ms ← fronts r; some (m ∷ ms)

abbrev pub clear_past : Input → Input
clear_past q = record q { past = [] }

-- `makeCandidate`
unfoldable pub make_candidate : Approx → Option Approx
unfolding fronts
make_candidate s = do
  ms ← fronts s.inputs
  some (record s { candidate = map some ms; inputs = map clear_past s.inputs })

-- `publishCandidate`
unfoldable pub publish_candidate : Approx → Option Approx
unfolding recover_and_delete
publish_candidate s = do
  (inputs', k) ← recover_and_delete s.inputs 0
  some (record s {
    signals = s.signals ++ s.candidate ∷ [];
    candidate = [];
    pivot = no_pivot;
    inputs = inputs';
    num_non_empty = k;
  })

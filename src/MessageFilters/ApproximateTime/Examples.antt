-- ===== src/MessageFilters/ApproximateTime/Examples.antt =====
-- ApproximateTime on two inputs with a queue of two, and `scale` the identity (no age penalty).
use agnocast.Prelude.{ℕ, ◌≡◌, refl, inl, inr, false, Option, some, List, [], ◌∷◌, ℤ, arith}
use mathlib.Core.Option
use agnocast.MessageFilters.Message.{Message, Tuple}
use agnocast.MessageFilters.ApproximateTime.Defs.{Input, Approx, init, publish_candidate}
use agnocast.MessageFilters.ApproximateTime.Process.{process}
use agnocast.MessageFilters.ApproximateTime.Streams.{streams, filled, total, Heads}
use agnocast.MessageFilters.ApproximateTime.Search.{Delivered, publish-Delivered}
use agnocast.MessageFilters.ApproximateTime.Round.{Inv}
use agnocast.MessageFilters.ApproximateTime.Total.{weight, Processed, process-Processed}
use agnocast.MessageFilters.ApproximateTime.Arrive.{add}
use agnocast.MessageFilters.ApproximateTime.Arrival.{Ready, Added}
use agnocast.MessageFilters.ApproximateTime.Add.{add-Added}

abbrev at : ℕ → ℕ → Message
at stamp id = record { stamp = stamp; id = id }

abbrev same : ℤ → ℤ
same x = x

two_inputs : Approx → Unit {0}
unfolding init add filled total weight
two_inputs s = tt

init-Ready : Ready 2 (init 2 2)
unfolding two_inputs
init-Ready = record {
  inv = record { size = refl; counted = refl; search = inl (refl, (refl, (refl, tt))) };
  idle = omega arith;
  fits = (omega arith, (omega arith, tt));
  room = omega arith;
}

add-Added_example : (u : Approx) × (add same 0 (at 10 1) (init 2 2) ≡ some u) × Added 2 (init 2 2) u
add-Added_example =
    add-Added same 2 0 (at 10 1) (init 2 2) (omega arith) (omega arith) (omega arith) init-Ready

-- Both inputs hold one message.
abbrev input : Message → Input
input m = record { deque = m ∷ []; past = []; has_dropped = false; lower_bound = 0; warned = false }

abbrev both : Approx
both = record {
  inputs = input (at 10 1) ∷ input (at 12 2) ∷ [];
  queue_size = 2;
  num_non_empty = 2;
  candidate = some (at 10 1) ∷ some (at 12 2) ∷ [];
  candidate_start = 10;
  candidate_end = 12;
  pivot_time = 12;
  pivot = 1;
  max_interval_duration = 1000;
  signals = [];
}

both-Heads : Heads both.candidate (streams both.inputs)
unfolding two_inputs
both-Heads = ((at 10 1, [], refl, refl), ((at 12 2, [], refl, refl), tt))

publish-Delivered_example : (u : Approx) × (publish_candidate both ≡ some u) × Delivered both u
publish-Delivered_example = publish-Delivered both both-Heads

both-Inv : Inv 2 both
unfolding two_inputs
both-Inv = record { size = refl; counted = refl; search = inr (omega arith, both-Heads) }

process-Processed_example : (u : Approx) × (process same 9 both ≡ some u) × Processed 2 both u
unfolding two_inputs
process-Processed_example =
    process-Processed same 2 (omega arith) (omega arith) 9 both both-Inv (omega arith)

signals_of : Option Approx → Option (List Tuple)
signals_of = Option.map (λ s. s.signals)

one_match :
    signals_of (
      Option.bind
        (add same 0 (at 10 1) (init 2 2))
        λ s. Option.bind (add same 1 (at 12 2) s) λ t. add same 0 (at 30 3) t)
    ≡ some ((some (at 10 1) ∷ some (at 12 2) ∷ []) ∷ [])
unfolding two_inputs signals_of Option.bind process
one_match = refl

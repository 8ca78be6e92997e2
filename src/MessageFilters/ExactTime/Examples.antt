-- ===== src/MessageFilters/ExactTime/Examples.antt =====
-- ExactTime on two inputs with a queue of two.
use agnocast.Prelude.{ℕ, ◌≡◌, refl, none, some, [], ◌∷◌, arith}
use agnocast.MessageFilters.Message.{Message}
use agnocast.MessageFilters.ExactTime.Defs.{ExactTime, init, full_from, insert, find, erase, add}
use agnocast.MessageFilters.ExactTime.Store.{Chain}
use agnocast.MessageFilters.ExactTime.Kept.{later_than, limited}
use agnocast.MessageFilters.ExactTime.Add.{Keeps, Bounded, joined, IsValid, add-full, add-waiting}
use agnocast.MessageFilters.ExactTime.Run.{run, Sound, run-Sound}

abbrev at : ℕ → ℕ → Message
at stamp id = record { stamp = stamp; id = id }

abbrev waiting : ExactTime
waiting = record {
  real_type_count = 2;
  queue_size = 2;
  tuples =
      (3, some (at 3 0) ∷ none ∷ none ∷ none ∷ none ∷ none ∷ none ∷ none ∷ none ∷ [])
      ∷ (5, some (at 5 1) ∷ none ∷ none ∷ none ∷ none ∷ none ∷ none ∷ none ∷ none ∷ [])
      ∷ [];
  last_signal_time = 0;
  signals = [];
  drops = [];
}

waiting-IsValid : IsValid waiting
unfolding full_from
waiting-IsValid = (omega arith, refl, (refl, tt), refl, (omega arith, refl, (refl, tt), refl, tt))

arrivals : (run ((0, at 3 0) ∷ (0, at 5 1) ∷ (1, at 5 2) ∷ []) (init 2 2)).tuples ≡ []
unfolding run init add
arrivals = refl

add-full_example :
    ((add 1 (at 5 2) waiting).signals ≡ joined 1 (at 5 2) waiting ∷ [])
    × ((add 1 (at 5 2) waiting).last_signal_time ≡ 5)
    × ((add 1 (at 5 2) waiting).tuples ≡ limited 2 (later_than 5 waiting.tuples))
    × Keeps (erase 5 waiting.tuples) waiting (add 1 (at 5 2) waiting)
    × Chain 2 6 (add 1 (at 5 2) waiting).tuples
    × Bounded 2 (add 1 (at 5 2) waiting).tuples
unfolding full_from find
add-full_example = add-full 1 (at 5 2) waiting waiting-IsValid refl

add-waiting_example :
    ((add 0 (at 9 2) waiting).signals ≡ [])
    × ((add 0 (at 9 2) waiting).last_signal_time ≡ 0)
    × ((add 0 (at 9 2) waiting).tuples ≡ limited 2 (insert 0 (at 9 2) waiting.tuples))
    × Keeps (insert 0 (at 9 2) waiting.tuples) waiting (add 0 (at 9 2) waiting)
    × Bounded 2 (add 0 (at 9 2) waiting).tuples
unfolding full_from find
add-waiting_example = add-waiting 0 (at 9 2) waiting waiting-IsValid refl

run-Sound_example : Sound 2 2 (run ((0, at 3 0) ∷ (1, at 3 1) ∷ []) (init 2 2))
run-Sound_example = run-Sound 2 2 ((0, at 3 0) ∷ (1, at 3 1) ∷ [])

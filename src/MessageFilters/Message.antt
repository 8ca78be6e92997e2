-- ===== src/MessageFilters/Message.antt =====
-- What the policies read of a message: its time stamp. An event is a slot that may be empty
-- (`getMessage()` is null), and a tuple has one slot for each of the nine inputs.
use agnocast.Prelude.{ℕ, Option, none, List, [], ◌∷◌}

pub record Message : Type 0 where
  pub stamp : ℕ
  pub id : ℕ

abbrev pub Tuple : Type 0
Tuple = List (Option Message)

abbrev pub empty_tuple : Tuple
empty_tuple = none ∷ none ∷ none ∷ none ∷ none ∷ none ∷ none ∷ none ∷ none ∷ []

-- ===== src/MessageFilters/ExactTime/Run.antt =====
-- ExactTime along a sequence of arrivals.
use agnocast.Prelude.{
  ◌⊎◌, none, some, ◌≤◌, ◌+◌, ℕ, ◌≡◌, refl, ◌∙◌, inl, inr, true, List, [], ◌∷◌, arith, Bool-cases,
  All, All-append,
}
use mathlib.Core.Path.{subst}
use agnocast.MessageFilters.Message.{Message, Tuple}
use agnocast.MessageFilters.ExactTime.Defs.{ExactTime, init, full, full_from, first_stamp, add}
use agnocast.MessageFilters.ExactTime.Store.{Stamped}
use agnocast.MessageFilters.ExactTime.Add.{
  IsValid, Bounded, joined, joined-Stamped, first, add-full, add-waiting, add-IsValid, add-count,
}

unfoldable pub run : List (ℕ × Message) → ExactTime → ExactTime
run [] s = s
run ((i, m) ∷ r) s = run r (add i m s)

-- From slot `k` on: a slot is unused, beyond the inputs and the first two, or holds a message.
unfoldable pub Filled : ℕ → ℕ → Tuple → Type 0
Filled n k [] = Unit
Filled n k (s ∷ t) = (((n ≤ k) × (2 ≤ k)) ⊎ ((m : Message) × (s ≡ some m))) × Filled n (k + 1) t

-- The slots in use are filled, by messages of one stamp.
abbrev pub IsMatch : ℕ → Tuple → Type 0
IsMatch n t = Filled n 0 t × Stamped (first_stamp t) t

full-Filled : (n k : ℕ) (t : Tuple) → full_from n k t ≡ true → Filled n k t
unfolding full_from Filled
full-Filled n k [] e = tt
full-Filled n k (none ∷ t) e = (inl (ground arith), full-Filled n (k + 1) t (ground arith))
full-Filled n k (some m ∷ t) e = (inr (m, refl), full-Filled n (k + 1) t (ground arith))

pub record Sound (n q : ℕ) (s : ExactTime) : Type 0 where
  pub valid : IsValid s
  pub inputs : s.real_type_count ≡ n
  pub size : s.queue_size ≡ q
  pub matches : All (IsMatch n) s.signals
  pub bounded : Bounded q s.tuples

add-Sound : (n q i : ℕ) (m : Message) (s : ExactTime) → Sound n q s → Sound n q (add i m s)
add-Sound n q i m s v = elim (Bool-cases (full s.real_type_count (joined i m s))) [
  | inl f ↦
      let (a, _, _, _, _, b) = add-full i m s v.valid f in
      record {
        valid = add-IsValid i m s v.valid;
        inputs = c.0 ∙ v.inputs;
        size = c.1 ∙ v.size;
        matches = rw a (
            All-append (IsMatch n) s.signals (joined i m s ∷ []) v.matches (
              (
                full-Filled n 0 (joined i m s)
                    (subst (λ k. full k (joined i m s) ≡ true) v.inputs f),
                rw (first i m s v.valid f) (joined-Stamped i m s v.valid),
              ),
              tt,
            ));
        bounded = ground (arith, b, v.size);
      }
  | inr f ↦
      let (a, _, _, _, b) = add-waiting i m s v.valid f in
      record {
        valid = add-IsValid i m s v.valid;
        inputs = c.0 ∙ v.inputs;
        size = c.1 ∙ v.size;
        matches = rw a v.matches;
        bounded = ground (arith, b, v.size);
      }
]
  where
    c : ((add i m s).real_type_count ≡ s.real_type_count) × ((add i m s).queue_size ≡ s.queue_size)
    c = add-count i m s v.valid

-- After any arrivals on `n` inputs with a queue of size `q`: every signal carried a tuple whose slots
-- in use are filled by messages of one stamp, no tuple that waits is full, the map is in order, and
-- it holds at most `q` tuples unless `q` is 0.
pub run-Sound : (n q : ℕ) (ms : List (ℕ × Message)) → Sound n q (run ms (init n q))
unfolding init run
run-Sound n q ms =
    from ms (init n q)
      (record { valid = tt; inputs = refl; size = refl; matches = tt; bounded = inr (omega arith) })
  where
    from : (ms : List (ℕ × Message)) (s : ExactTime) → Sound n q s → Sound n q (run ms s)
    from [] s v = v
    from ((i, m) ∷ r) s v = from r (add i m s) (add-Sound n q i m s v)

-- ===== src/MessageFilters/ApproximateTime/Fits.antt =====
-- How much the inputs hold, against the size of the queues.
use agnocast.Prelude.{
  ℕ, zero, suc, ◌+◌, ◌≤◌, ◌≡◌, refl, ap, ◌∙◌, some, List, [], ◌∷◌, ◌++◌, arith, length,
  length-append, get_elem?, set,
}
use agnocast.MessageFilters.Message.{Message, Tuple}
use agnocast.MessageFilters.ApproximateTime.Defs.{Input, one_if_filled, push_back_past, recover}
use agnocast.MessageFilters.ApproximateTime.Streams.{
  stream, streams, filled, Heads, PastEmpty, length-push_back_past,
}
use agnocast.MessageFilters.ApproximateTime.Suffix.{Suffixes}

abbrev pub Fits : ℕ → List (List Message) → Type 0
Fits k [] = Unit {0}
Fits k (x ∷ xs) = (length x ≤ k) × Fits k xs

-- Stream `i` may be one message too long.
abbrev pub FitsBut : ℕ → ℕ → List (List Message) → Type 0
FitsBut k i [] = Unit {0}
FitsBut k zero (x ∷ xs) = (length x ≤ k + 1) × Fits k xs
FitsBut k (suc i) (x ∷ xs) = (length x ≤ k) × FitsBut k i xs

suffix-length : (g y : List Message) {x : List Message} → g ++ y ≡ x → length y ≤ length x
suffix-length g y e = omega (arith, length-append g y, ap length e)

pub Suffixes-Fits : (k : ℕ) (ys xs : List (List Message)) → Suffixes ys xs → Fits k xs → Fits k ys
Suffixes-Fits k [] [] s f = tt
Suffixes-Fits k (y ∷ ys) (x ∷ xs) ((g, e), s) f =
    (omega (arith, suffix-length g y e, f.0), Suffixes-Fits k ys xs s f.1)
Suffixes-Fits k (y ∷ ys) [] s f = elim s [ ]
Suffixes-Fits k [] (x ∷ xs) s f = tt

pub Suffixes-FitsBut :
    (k i : ℕ) (ys xs : List (List Message)) → Suffixes ys xs → FitsBut k i xs → FitsBut k i ys
Suffixes-FitsBut k i [] [] s f = tt
Suffixes-FitsBut k zero (y ∷ ys) (x ∷ xs) ((g, e), s) f =
    (omega (arith, suffix-length g y e, f.0), Suffixes-Fits k ys xs s f.1)
Suffixes-FitsBut k (suc i) (y ∷ ys) (x ∷ xs) ((g, e), s) f =
    (omega (arith, suffix-length g y e, f.0), Suffixes-FitsBut k i ys xs s f.1)
Suffixes-FitsBut k i (y ∷ ys) [] s f = elim s [ ]
Suffixes-FitsBut k i [] (x ∷ xs) s f = elim s [ ]

push_back_past-append : (v q e : List Message) → push_back_past v (q ++ e) ≡ push_back_past v q ++ e
unfolding push_back_past
push_back_past-append [] q e = refl
push_back_past-append (m ∷ v) q e = push_back_past-append v (m ∷ q) e

-- A message that comes in stands at the end of its stream.
module _ (m : Message) where
  pub pushed-Heads :
      (c : Tuple) (xs : List Input) (i : ℕ) (q p : Input)
      → get_elem? xs i ≡ some q
      → p.past ≡ q.past
      → p.deque ≡ q.deque ++ m ∷ []
      → Heads c (streams xs)
      → Heads c (streams (set xs i p))
  pushed-Heads [] [] i q p e f g h = tt
  pushed-Heads [] (x ∷ xs) i q p e f g h = elim h [ ]
  pushed-Heads (c ∷ cs) [] i q p e f g h = elim h [ ]
  pushed-Heads (c ∷ cs) (x ∷ xs) zero q p e f g ((n, r, s, t), h) =
      let t' : stream q ≡ n ∷ r = ground (arith, t) in
      (
        (
          n,
          r ++ m ∷ [],
          s,
          rw (f, g) (push_back_past-append q.past q.deque (m ∷ []) ∙ ap (λ z. z ++ m ∷ []) t'),
        ),
        h,
      )
  pushed-Heads (c ∷ cs) (x ∷ xs) (suc i) q p e f g (a, h) = (a, pushed-Heads cs xs i q p e f g h)

  pub pushed-FitsBut :
      (k : ℕ) (xs : List Input) (i : ℕ) (q p : Input)
      → get_elem? xs i ≡ some q
      → p.past ≡ q.past
      → p.deque ≡ q.deque ++ m ∷ []
      → Fits k (streams xs)
      → FitsBut k i (streams (set xs i p))
  pushed-FitsBut k [] i q p e f g h = tt
  pushed-FitsBut k (x ∷ xs) zero q p e f g h = (
    ground (
      arith,
      length-push_back_past p.past p.deque,
      length-push_back_past x.past x.deque,
      length-append q.deque (m ∷ []),
      ap length f,
      ap length g,
    ),
    h.1,
  )
  pushed-FitsBut k (x ∷ xs) (suc i) q p e f g h = (h.0, pushed-FitsBut k xs i q p e f g h.1)

  pub pushed-PastEmpty :
      (xs : List Input) (i : ℕ) (q p : Input)
      → get_elem? xs i ≡ some q
      → p.past ≡ q.past
      → PastEmpty xs
      → PastEmpty (set xs i p)
  pushed-PastEmpty [] i q p e f h = tt
  pushed-PastEmpty (x ∷ xs) zero q p e f h = (ground arith, h.1)
  pushed-PastEmpty (x ∷ xs) (suc i) q p e f h = (h.0, pushed-PastEmpty xs i q p e f h.1)

-- The one stream that may be too long is not, or it loses its oldest message.
pub Fits-of_short :
    (k : ℕ) (xs : List Input) (i : ℕ) (q : Input)
    → get_elem? xs i ≡ some q
    → length q.deque + length q.past ≤ k
    → FitsBut k i (streams xs)
    → Fits k (streams xs)
Fits-of_short k [] i q e h f = tt
Fits-of_short k (x ∷ xs) zero q e h f = (ground (arith, length-push_back_past x.past x.deque), f.1)
Fits-of_short k (x ∷ xs) (suc i) q e h f = (f.0, Fits-of_short k xs i q e h f.1)

pub Fits-of_drop :
    (k : ℕ) (xs : List Input) (i : ℕ) (q p : Input) (m : Message)
    → get_elem? xs i ≡ some q
    → q.past ≡ []
    → p.past ≡ []
    → q.deque ≡ m ∷ p.deque
    → FitsBut k i (streams xs)
    → Fits k (streams (set xs i p))
Fits-of_drop k [] i q p m e a b d f = tt
Fits-of_drop k (x ∷ xs) zero q p m e a b d f = (
  ground (
    arith,
    length-push_back_past x.past x.deque,
    length-push_back_past p.past p.deque,
    ap length a,
    ap length b,
    ap length d,
  ),
  f.1,
)
Fits-of_drop k (x ∷ xs) (suc i) q p m e a b d f = (f.0, Fits-of_drop k xs i q p m e a b d f.1)

-- Recovering the input `i` puts its whole stream into its deque.
pub recover-get :
    (xs : List Input) (j i : ℕ) (q : Input)
    → get_elem? xs i ≡ some q
    → (r : Input) × (get_elem? (recover xs j).0 i ≡ some r) × (r.past ≡ []) × (r.deque ≡ stream q)
unfolding recover
recover-get [] j i q e = cc
recover-get (x ∷ xs) j zero q e =
    (record x { deque = stream x; past = [] }, refl, refl, ground arith)
recover-get (x ∷ xs) j (suc i) q e = recover-get xs (j + one_if_filled (stream x)) i q e

pub recover-filled_same :
    (xs : List Input) (j : ℕ) → PastEmpty xs → filled (recover xs j).0 ≡ filled xs
unfolding recover filled push_back_past
recover-filled_same [] j h = refl
recover-filled_same (x ∷ xs) j h =
    ground (arith, h.0, recover-filled_same xs (j + one_if_filled (stream x)) h.1)

-- ===== src/MessageFilters/ApproximateTime/Streams.antt =====
-- What an input still holds, oldest first: its past messages and then its deque. The operations on
-- deques and past messages, seen as operations on these streams.
use agnocast.Prelude.{
  ℕ, suc, ◌+◌, ◌≤◌, ◌≡◌, refl, sym, ap, Option, some, List, [], ◌∷◌, map, arith, length,
}
use agnocast.MessageFilters.Message.{Message, Tuple}
use agnocast.MessageFilters.ApproximateTime.Defs.{
  Input, one_if_filled, push_back_past, recover, recover_and_delete,
}
use agnocast.MessageFilters.ApproximateTime.Process.{messages}

abbrev pub stream : Input → List Message
stream q = push_back_past q.past q.deque

abbrev pub streams : List Input → List (List Message)
streams = map stream

-- How many deques are not empty.
unfoldable pub filled : List Input → ℕ
filled [] = 0
filled (q ∷ r) = one_if_filled q.deque + filled r

-- How many messages the inputs hold.
unfoldable pub total : List (List Message) → ℕ
total [] = 0
total (x ∷ r) = length x + total r

-- Each stream begins with the message of its slot.
abbrev pub Heads : Tuple → List (List Message) → Type 0
Heads [] [] = Unit {0}
Heads [] (x ∷ xs) = ⊥
Heads (c ∷ cs) [] = ⊥
Heads (c ∷ cs) (x ∷ xs) =
    ((m : Message) × (r : List Message) × (c ≡ some m) × (x ≡ m ∷ r)) × Heads cs xs

-- Each stream lost the message of its slot from its front, and nothing else.
abbrev pub Delivers : Tuple → List (List Message) → List (List Message) → Type 0
Delivers [] [] [] = Unit {0}
Delivers (c ∷ cs) (x ∷ xs) (y ∷ ys) =
    ((m : Message) × (c ≡ some m) × (x ≡ m ∷ y)) × Delivers cs xs ys
Delivers _ _ _ = ⊥

abbrev pub PastEmpty : List Input → Type 0
PastEmpty [] = Unit {0}
PastEmpty (q ∷ r) = (q.past ≡ []) × PastEmpty r

pub length-push_back_past : (v q : List Message) → length (push_back_past v q) ≡ length v + length q
unfolding push_back_past
length-push_back_past [] q = omega arith
length-push_back_past (m ∷ v) q = omega (arith, length-push_back_past v (m ∷ q))

-- A front that moves to the past stays in the stream.
pub stream-move :
    (q : Input) (m : Message) (d : List Message)
    → q.deque ≡ m ∷ d
    → stream (record q { deque = d; past = m ∷ q.past }) ≡ stream q
unfolding push_back_past
stream-move q m d e = ap (push_back_past q.past) (sym e)

pub messages-le-total : (xs : List Input) → messages xs ≤ total (streams xs)
unfolding total
messages-le-total [] = omega arith
messages-le-total (q ∷ r) = omega (arith, messages-le-total r, length-push_back_past q.past q.deque)

-- `recover` keeps the streams and empties the past.
pub recover-streams : (xs : List Input) (k : ℕ) → streams (recover xs k).0 ≡ streams xs
unfolding recover
recover-streams [] k = refl
recover-streams (q ∷ r) k = ap (◌∷◌ (stream q)) (recover-streams r (k + one_if_filled (stream q)))

pub recover-filled : (xs : List Input) (k : ℕ) → (recover xs k).1 ≡ k + filled (recover xs k).0
unfolding recover filled
recover-filled [] k = omega arith
recover-filled (q ∷ r) k = omega (arith, recover-filled r (k + one_if_filled (stream q)))

pub recover-PastEmpty : (xs : List Input) (k : ℕ) → PastEmpty (recover xs k).0
unfolding recover
recover-PastEmpty [] k = tt
recover-PastEmpty (q ∷ r) k = (refl, recover-PastEmpty r (k + one_if_filled (stream q)))

pub recover-length : (xs : List Input) (k : ℕ) → length (recover xs k).0 ≡ length xs
unfolding recover
recover-length [] k = refl
recover-length (q ∷ r) k = ap suc (recover-length r (k + one_if_filled (stream q)))

pub record Published (c : Tuple) (xs : List Input) (k : ℕ) (o : Option (List Input × ℕ))
    : Type 0 where
  pub rest : List Input
  pub count : ℕ
  pub result : o ≡ some (rest, count)
  pub delivers : Delivers c (streams xs) (streams rest)
  pub counted : count ≡ k + filled rest
  pub past : PastEmpty rest
  pub size : length rest ≡ length xs
  pub less : total (streams rest) + length xs ≡ total (streams xs)

-- With a candidate at the fronts, publication succeeds and takes exactly the candidate's messages.
pub recover_and_delete-Published :
    (c : Tuple) (xs : List Input) (k : ℕ)
    → Heads c (streams xs)
    → Published c xs k (recover_and_delete xs k)
unfolding recover_and_delete filled total
recover_and_delete-Published [] [] k h = record {
  rest = [];
  count = k;
  result = refl;
  delivers = tt;
  counted = omega arith;
  past = tt;
  size = refl;
  less = refl;
}
recover_and_delete-Published [] (q ∷ r) k h = elim h [ ]
recover_and_delete-Published (c ∷ cs) [] k h = elim h [ ]
recover_and_delete-Published (c ∷ cs) (q ∷ r) k ((m, d, e, x), h) =
    let p : Published cs r (k + one_if_filled d) (recover_and_delete r (k + one_if_filled d)) =
      recover_and_delete-Published cs r (k + one_if_filled d) h in
    record {
      rest = record q { deque = d; past = [] } ∷ p.rest;
      count = p.count;
      result = rw (x, p.result) refl;
      delivers = ((m, e, x), p.delivers);
      counted = omega (arith, p.counted);
      past = (refl, p.past);
      size = ap suc p.size;
      less = omega (arith, p.less, ap length x);
    }

abbrev pub AllFilled : List Input → Type 0
AllFilled [] = Unit {0}
AllFilled (q ∷ r) = ((m : Message) × (d : List Message) × (q.deque ≡ m ∷ d)) × AllFilled r

filled-le : (xs : List Input) → filled xs ≤ length xs
unfolding filled
filled-le [] = omega arith
filled-le (q ∷ r) = ground (arith, filled-le r)

pub filled-AllFilled : (xs : List Input) → filled xs ≡ length xs → AllFilled xs
unfolding filled
filled-AllFilled [] e = tt
filled-AllFilled (q ∷ r) e = (front q.deque refl, filled-AllFilled r (ground (arith, filled-le r)))
  where
    front :
        (d : List Message) → q.deque ≡ d → (m : Message) × (x : List Message) × (q.deque ≡ m ∷ x)
    front [] z = absurd (ground (arith, filled-le r))
    front (m ∷ x) z = (m, x, z)

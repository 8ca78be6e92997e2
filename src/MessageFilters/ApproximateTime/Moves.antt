-- ===== src/MessageFilters/ApproximateTime/Moves.antt =====
-- One input changed at a time, and the virtual moves with their undoing.
use agnocast.Prelude.{
  ℕ, zero, suc, ◌+◌, ◌<◌, ◌≡◌, refl, ap, ◌⊎◌, inl, inr, Bool, true, false, some, List, [], ◌∷◌, map,
  arith, ltb, if◌then◌else◌, length, get_elem?, set,
}
use mathlib.Core.Path.{ap₂}
use agnocast.MessageFilters.Message.{Message, Tuple}
use agnocast.MessageFilters.ApproximateTime.Defs.{
  Input, one_if_filled, push_back_past, push_back_some, recover_moves, fronts, clear_past,
}
use agnocast.MessageFilters.ApproximateTime.Process.{
  clear_dropped, count_move, no_moves, messages, virtual_time, virtual_times, boundary_from, xor,
}
use agnocast.MessageFilters.ApproximateTime.Streams.{
  stream, streams, filled, Heads, PastEmpty, AllFilled,
}

pub streams-set :
    (xs : List Input) (i : ℕ) (q q' : Input)
    → get_elem? xs i ≡ some q
    → stream q' ≡ stream q
    → streams (set xs i q') ≡ streams xs
streams-set [] i q q' e h = refl
streams-set (x ∷ xs) zero q q' e h = ground arith
streams-set (x ∷ xs) (suc i) q q' e h = ap (◌∷◌ (stream x)) (streams-set xs i q q' e h)

pub filled-set :
    (xs : List Input) (i : ℕ) (q q' : Input)
    → get_elem? xs i ≡ some q
    → filled (set xs i q') + one_if_filled q.deque ≡ filled xs + one_if_filled q'.deque
unfolding filled
filled-set [] i q q' e = ground arith
filled-set (x ∷ xs) zero q q' e = ground arith
filled-set (x ∷ xs) (suc i) q q' e = omega (arith, filled-set xs i q q' e)

pub messages-set :
    (xs : List Input) (i : ℕ) (q q' : Input)
    → get_elem? xs i ≡ some q
    → messages (set xs i q') + length q.deque ≡ messages xs + length q'.deque
messages-set [] i q q' e = ground arith
messages-set (x ∷ xs) zero q q' e = ground arith
messages-set (x ∷ xs) (suc i) q q' e = omega (arith, messages-set xs i q q' e)

abbrev pub Filled : List Input → ℕ → Type 0
Filled xs i =
    (q : Input) × (m : Message) × (d : List Message) × (get_elem? xs i ≡ some q) × (q.deque ≡ m ∷ d)

pub AllFilled-get : (xs : List Input) (i : ℕ) → AllFilled xs → i < length xs → Filled xs i
AllFilled-get [] i h l = elim l [ ]
AllFilled-get (q ∷ r) zero ((m, d, e), h) l = (q, m, d, refl, e)
AllFilled-get (q ∷ r) (suc i) (_, h) l = AllFilled-get r i h (omega arith)

-- `clear_dropped` touches no deque and no past message.
pub clear_dropped-streams :
    (k i : ℕ) (xs : List Input) → streams (clear_dropped k i xs) ≡ streams xs
unfolding clear_dropped
clear_dropped-streams k i [] = refl
clear_dropped-streams k i (q ∷ r) = ground (arith, clear_dropped-streams (k + 1) i r)

pub clear_dropped-filled : (k i : ℕ) (xs : List Input) → filled (clear_dropped k i xs) ≡ filled xs
unfolding clear_dropped filled
clear_dropped-filled k i [] = refl
clear_dropped-filled k i (q ∷ r) = ground (arith, clear_dropped-filled (k + 1) i r)

pub clear_dropped-messages :
    (k i : ℕ) (xs : List Input) → messages (clear_dropped k i xs) ≡ messages xs
unfolding clear_dropped
clear_dropped-messages k i [] = refl
clear_dropped-messages k i (q ∷ r) = ground (arith, clear_dropped-messages (k + 1) i r)

pub clear_dropped-length : (k i : ℕ) (xs : List Input) → length (clear_dropped k i xs) ≡ length xs
unfolding clear_dropped
clear_dropped-length k i [] = refl
clear_dropped-length k i (q ∷ r) = ap suc (clear_dropped-length (k + 1) i r)

pub clear_dropped-PastEmpty :
    (k i : ℕ) (xs : List Input) → PastEmpty xs → PastEmpty (clear_dropped k i xs)
unfolding clear_dropped
clear_dropped-PastEmpty k i [] h = tt
clear_dropped-PastEmpty k i (q ∷ r) h = (ground arith, clear_dropped-PastEmpty (k + 1) i r h.1)

-- The fronts of non-empty deques, which a new candidate holds.
pub fronts-Heads :
    (xs : List Input)
    → AllFilled xs
    → (ms : List Message) × (fronts xs ≡ some ms)
      × (length ms ≡ length xs)
      × Heads (map some ms) (streams (map clear_past xs))
unfolding fronts push_back_past
fronts-Heads [] h = ([], refl, refl, tt)
fronts-Heads (q ∷ r) ((m, d, e), h) =
    let (ms, f, l, z) = fronts-Heads r h in (m ∷ ms, rw (e, f) refl, ap suc l, ((m, d, refl, e), z))

pub clear_past-filled : (xs : List Input) → filled (map clear_past xs) ≡ filled xs
unfolding filled
clear_past-filled [] = refl
clear_past-filled (q ∷ r) = ap (λ n. one_if_filled q.deque + n) (clear_past-filled r)

pub clear_past-messages : (xs : List Input) → messages (map clear_past xs) ≡ messages xs
clear_past-messages [] = refl
clear_past-messages (q ∷ r) = ap (λ n. length q.deque + n) (clear_past-messages r)

pub clear_past-length : (xs : List Input) → length (map clear_past xs) ≡ length xs
clear_past-length [] = refl
clear_past-length (q ∷ r) = ap suc (clear_past-length r)

pub clear_past-AllFilled : (xs : List Input) → AllFilled xs → AllFilled (map clear_past xs)
clear_past-AllFilled [] h = tt
clear_past-AllFilled (q ∷ r) h = (h.0, clear_past-AllFilled r h.1)

-- The boundary that is found is the one it started from, or the time of one of the inputs.
abbrev pub Picks : ℕ → ℕ × ℕ → List ℕ → ℕ × ℕ → Type 0
Picks i best ts b = (b ≡ best) ⊎ ((j : ℕ) × (b.0 ≡ i + j) × (get_elem? ts j ≡ some b.1))

pub boundary_from-Picks :
    (end : Bool) (i : ℕ) (best : ℕ × ℕ) (ts : List ℕ)
    → Picks i best ts (boundary_from end i best ts)
unfolding boundary_from
boundary_from-Picks end i best [] = inl refl
boundary_from-Picks end i best (t ∷ ts) =
    let test = xor (ltb t best.1) end in
    let b : ℕ × ℕ = if test then (i, t) else best in
    later b (next test) (boundary_from-Picks end (i + 1) b ts)
  where
    next : (b : Bool) → Picks i best (t ∷ ts) (if b then (i, t) else best)
    next true = inr (0, omega arith, refl)
    next false = inl refl

    later :
        (b : ℕ × ℕ) {r : ℕ × ℕ}
        → Picks i best (t ∷ ts) b
        → Picks (i + 1) b ts r
        → Picks i best (t ∷ ts) r
    later b p (inl e) = rw e p
    later b p (inr (j, f, g)) = inr (suc j, omega arith, g)

virtual_time-some :
    (p b : ℕ) (d v : List Message) {m : Message} {r : List Message}
    → push_back_past v d ≡ m ∷ r
    → (t : ℕ) × (virtual_time p d v b ≡ some t)
      × (t < p → (m' : Message) × (d' : List Message) × (d ≡ m' ∷ d'))
unfolding virtual_time push_back_past
virtual_time-some p b (x ∷ d) v e = (x.stamp, refl, λ l. (x, d, refl))
virtual_time-some p b [] (x ∷ v) e =
    ((if ltb p (x.stamp + b) then x.stamp + b else p), refl, λ l. absurd (ground arith))
virtual_time-some p b [] [] e = absurd (cc)

-- Where every stream has a message the virtual times are defined, and one that is before the pivot
-- is that of a deque with a front.
pub virtual_times-some :
    (c : Tuple) (p : ℕ) (xs : List Input)
    → Heads c (streams xs)
    → (ts : List ℕ) × (virtual_times p xs ≡ some ts)
      × (length ts ≡ length xs)
      × ((j t : ℕ) → get_elem? ts j ≡ some t → t < p → Filled xs j)
unfolding virtual_times push_back_past
virtual_times-some [] p [] h = ([], refl, refl, λ j t e l. absurd (ground arith))
virtual_times-some [] p (q ∷ r) h = elim h [ ]
virtual_times-some (c ∷ cs) p [] h = elim h [ ]
virtual_times-some (c ∷ cs) p (q ∷ r) ((m, d, e, x), h) =
    let (t, f, early) = virtual_time-some p q.lower_bound q.deque q.past x in
    let (ts, g, l, k) = virtual_times-some cs p r h in
    (t ∷ ts, rw (f, g) refl, ap suc l, found t early ts k)
  where
    found :
        (t : ℕ)
        → (t < p → (m' : Message) × (d' : List Message) × (q.deque ≡ m' ∷ d'))
        → (ts : List ℕ) → ((j u : ℕ) → get_elem? ts j ≡ some u → u < p → Filled r j)
        → (j u : ℕ) → get_elem? (t ∷ ts) j ≡ some u
        → u < p
        → Filled (q ∷ r) j
    found t early ts k zero u y l = let (m', d', z) = early (ground arith) in (q, m', d', refl, z)
    found t early ts k (suc j) u y l = k j u y l

-- The virtual moves `moves` lead from `ys` to `xs`: undoing them gives `ys` back.
abbrev pub Moved : List ℕ → List Input → List Input → Type 0
Moved [] [] [] = Unit {0}
Moved (c ∷ cs) (q ∷ xs) (p ∷ ys) =
    ((push_back_some c q.past q.deque ≡ some (p.past, p.deque))
      × (q.has_dropped ≡ p.has_dropped)
      × (q.lower_bound ≡ p.lower_bound)
      × (q.warned ≡ p.warned))
    × Moved cs xs ys
Moved _ _ _ = ⊥

pub Moved-refl : (xs : List Input) → Moved (no_moves xs) xs xs
unfolding push_back_some
Moved-refl [] = tt
Moved-refl (q ∷ xs) = ((refl, refl, refl, refl), Moved-refl xs)

pub Moved-step :
    (cs : List ℕ) (xs ys : List Input) (i : ℕ) (q : Input) (m : Message) (d : List Message)
    → get_elem? xs i ≡ some q
    → q.deque ≡ m ∷ d
    → Moved cs xs ys
    → Moved (count_move i cs) (set xs i (record q { deque = d; past = m ∷ q.past })) ys
unfolding push_back_some
Moved-step [] [] [] i q m d e f h = h
Moved-step (c ∷ cs) (x ∷ xs) (y ∷ ys) zero q m d e f h = ground arith
Moved-step (c ∷ cs) (x ∷ xs) (y ∷ ys) (suc i) q m d e f h =
    (h.0, Moved-step cs xs ys i q m d e f h.1)
Moved-step (c ∷ cs) [] ys i q m d e f h = elim h [ ]
Moved-step (c ∷ cs) (x ∷ xs) [] i q m d e f h = elim h [ ]
Moved-step [] (x ∷ xs) ys i q m d e f h = elim h [ ]
Moved-step [] [] (y ∷ ys) i q m d e f h = elim h [ ]

push_back_some-stream :
    (c : ℕ) (v q v' q' : List Message)
    → push_back_some c v q ≡ some (v', q')
    → push_back_past v q ≡ push_back_past v' q'
unfolding push_back_some push_back_past
push_back_some-stream zero v q v' q' e = ground arith
push_back_some-stream (suc c) [] q v' q' e = cc
push_back_some-stream (suc c) (m ∷ v) q v' q' e = push_back_some-stream c v (m ∷ q) v' q' e

pub Moved-streams : (cs : List ℕ) (xs ys : List Input) → Moved cs xs ys → streams xs ≡ streams ys
Moved-streams [] [] [] h = refl
Moved-streams (c ∷ cs) (x ∷ xs) (y ∷ ys) h =
    ap₂ ◌∷◌ (push_back_some-stream c x.past x.deque y.past y.deque h.0.0)
      (Moved-streams cs xs ys h.1)
Moved-streams (c ∷ cs) [] ys h = elim h [ ]
Moved-streams (c ∷ cs) (x ∷ xs) [] h = elim h [ ]
Moved-streams [] (x ∷ xs) ys h = elim h [ ]
Moved-streams [] [] (y ∷ ys) h = elim h [ ]

pub recover_moves-Moved :
    (cs : List ℕ) (xs ys : List Input) (k : ℕ)
    → Moved cs xs ys
    → recover_moves cs xs k ≡ some (ys, k + filled ys)
unfolding recover_moves filled
recover_moves-Moved [] [] [] k h = ground arith
recover_moves-Moved (c ∷ cs) (x ∷ xs) (y ∷ ys) k h =
    ground (arith, recover_moves-Moved cs xs ys (k + one_if_filled y.deque) h.1)
recover_moves-Moved (c ∷ cs) [] ys k h = elim h [ ]
recover_moves-Moved (c ∷ cs) (x ∷ xs) [] k h = elim h [ ]
recover_moves-Moved [] (x ∷ xs) ys k h = elim h [ ]
recover_moves-Moved [] [] (y ∷ ys) k h = elim h [ ]

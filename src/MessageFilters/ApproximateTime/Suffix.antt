-- ===== src/MessageFilters/ApproximateTime/Suffix.antt =====
-- Streams lose messages at the front only.
use agnocast.Prelude.{
  ℕ, zero, suc, ◌≤◌, ◌≡◌, refl, sym, ap, ◌∙◌, some, List, [], ◌∷◌, ◌++◌, map, arith, length,
  length-append, get_elem?, set,
}
use mathlib.Core.List.{append_assoc}
use agnocast.MessageFilters.Message.{Message, Tuple}
use agnocast.MessageFilters.ApproximateTime.Defs.{Input, push_back_past, clear_past}
use agnocast.MessageFilters.ApproximateTime.Streams.{streams, total, Heads, Delivers, PastEmpty}

-- Each stream of `ys` is a rest of the one of `xs`.
abbrev pub Suffixes : List (List Message) → List (List Message) → Type 0
Suffixes [] [] = Unit {0}
Suffixes (y ∷ ys) (x ∷ xs) = ((gone : List Message) × (gone ++ y ≡ x)) × Suffixes ys xs
Suffixes _ _ = ⊥

pub Suffixes-refl : (xs : List (List Message)) → Suffixes xs xs
Suffixes-refl [] = tt
Suffixes-refl (x ∷ xs) = (([], refl), Suffixes-refl xs)

pub Suffixes-trans :
    (zs ys xs : List (List Message)) → Suffixes zs ys → Suffixes ys xs → Suffixes zs xs
Suffixes-trans [] [] [] h k = tt
Suffixes-trans (z ∷ zs) (y ∷ ys) (x ∷ xs) ((g, e), h) ((f, d), k) =
    ((f ++ g, append_assoc f g z ∙ ap (◌++◌ f) e ∙ d), Suffixes-trans zs ys xs h k)
Suffixes-trans (z ∷ zs) [] xs h k = elim h [ ]
Suffixes-trans (z ∷ zs) (y ∷ ys) [] h k = elim k [ ]
Suffixes-trans [] (y ∷ ys) xs h k = elim h [ ]
Suffixes-trans [] [] (x ∷ xs) h k = elim k [ ]

pub Suffixes-total : (ys xs : List (List Message)) → Suffixes ys xs → total ys ≤ total xs
unfolding total
Suffixes-total [] [] h = omega arith
Suffixes-total (y ∷ ys) (x ∷ xs) ((g, e), h) =
    omega (arith, Suffixes-total ys xs h, length-append g y, ap length e)
Suffixes-total (y ∷ ys) [] h = elim h [ ]
Suffixes-total [] (x ∷ xs) h = elim h [ ]

pub Delivers-Suffixes :
    (c : Tuple) (xs ys : List (List Message)) → Delivers c xs ys → Suffixes ys xs
Delivers-Suffixes [] [] [] h = tt
Delivers-Suffixes (c ∷ cs) (x ∷ xs) (y ∷ ys) ((m, e, f), h) =
    ((m ∷ [], sym f), Delivers-Suffixes cs xs ys h)
Delivers-Suffixes (c ∷ cs) [] ys h = elim h [ ]
Delivers-Suffixes (c ∷ cs) (x ∷ xs) [] h = elim h [ ]
Delivers-Suffixes [] (x ∷ xs) ys h = elim h [ ]
Delivers-Suffixes [] [] (y ∷ ys) h = elim h [ ]

-- A candidate has a message for each of `n` inputs.
abbrev pub Complete : ℕ → Tuple → Type 0
Complete zero [] = Unit {0}
Complete (suc n) (c ∷ cs) = ((m : Message) × (c ≡ some m)) × Complete n cs
Complete _ _ = ⊥

pub Heads-Complete : (c : Tuple) (xs : List Input) → Heads c (streams xs) → Complete (length xs) c
Heads-Complete [] [] h = tt
Heads-Complete (c ∷ cs) (x ∷ xs) ((m, r, e, f), h) = ((m, e), Heads-Complete cs xs h)
Heads-Complete [] (x ∷ xs) h = elim h [ ]
Heads-Complete (c ∷ cs) [] h = elim h [ ]

push_back_past-split : (v q : List Message) → (g : List Message) × (g ++ q ≡ push_back_past v q)
unfolding push_back_past
push_back_past-split [] q = ([], refl)
push_back_past-split (m ∷ v) q =
    let (g, e) = push_back_past-split v (m ∷ q) in (g ++ m ∷ [], append_assoc g (m ∷ []) q ∙ e)

-- Dropping the past of every input.
pub clear_past-Suffixes : (xs : List Input) → Suffixes (streams (map clear_past xs)) (streams xs)
unfolding push_back_past
clear_past-Suffixes [] = tt
clear_past-Suffixes (q ∷ r) = (push_back_past-split q.past q.deque, clear_past-Suffixes r)

-- Dropping the front of one input, where no input has a past.
pub delete-Suffixes :
    (xs : List Input) (i : ℕ) (q : Input) (m : Message) (d : List Message)
    → PastEmpty xs
    → get_elem? xs i ≡ some q
    → q.deque ≡ m ∷ d
    → Suffixes (streams (set xs i (record q { deque = d }))) (streams xs)
      × PastEmpty (set xs i (record q { deque = d }))
unfolding push_back_past
delete-Suffixes [] i q m d p e f = (tt, tt)
delete-Suffixes (x ∷ xs) zero q m d p e f =
    let k : x ≡ q = ground arith in
    let z : q.past ≡ [] = ap (λ (y : Input). y.past) (sym k) ∙ p.0 in
    (
      ((m ∷ [], rw (z, p.0, ap (λ (y : Input). y.deque) k ∙ f) refl), Suffixes-refl (streams xs)),
      (z, p.1),
    )
delete-Suffixes (x ∷ xs) (suc i) q m d p e f =
    let (s, t) = delete-Suffixes xs i q m d p.1 e f in ((([], refl), s), (p.0, t))

-- ===== src/SmartPtr/Refs.antt =====
-- How many handles of a list point to a control block.
use agnocast.Prelude.{
  ℕ, zero, suc, ◌+◌, ◌≤◌, ◌≡◌, Option, none, some, List, [], ◌∷◌, ◌++◌, arith, ◌==◌, if◌then◌else◌,
  length, get_elem?, set,
}
use agnocast.SmartPtr.Defs.{Handle}

abbrev pub points : ℕ → Option ℕ → ℕ
points a none = 0
points a (some c) = if c == a then 1 else 0

unfoldable pub refs : ℕ → List Handle → ℕ
refs a [] = 0
refs a (h ∷ hs) = points a h.control + refs a hs

pub refs-push :
    (a : ℕ) (hs : List Handle) (h : Handle) → refs a (hs ++ h ∷ []) ≡ refs a hs + points a h.control
unfolding refs
refs-push a [] h = omega arith
refs-push a (x ∷ hs) h = omega (arith, refs-push a hs h)

pub refs-set :
    (a : ℕ) (hs : List Handle) (i : ℕ) (h h' : Handle)
    → get_elem? hs i ≡ some h
    → refs a (set hs i h') + points a h.control ≡ refs a hs + points a h'.control
unfolding refs
refs-set a [] i h h' e = ground arith
refs-set a (x ∷ hs) zero h h' e = ground arith
refs-set a (x ∷ hs) (suc i) h h' e = omega (arith, refs-set a hs i h h' e)

pub points-le-refs :
    (a : ℕ) (hs : List Handle) (i : ℕ) (h : Handle)
    → get_elem? hs i ≡ some h
    → points a h.control ≤ refs a hs
unfolding refs
points-le-refs a [] i h e = ground arith
points-le-refs a (x ∷ hs) zero h e = ground arith
points-le-refs a (x ∷ hs) (suc i) h e = omega (arith, points-le-refs a hs i h e)

pub points-le-one : (a : ℕ) (c : Option ℕ) → points a c ≤ 1
points-le-one a none = omega arith
points-le-one a (some c) = ground arith

pub refs-le-length : (a : ℕ) (hs : List Handle) → refs a hs ≤ length hs
unfolding refs
refs-le-length a [] = omega arith
refs-le-length a (h ∷ hs) = omega (arith, refs-le-length a hs, points-le-one a h.control)

-- ===== src/SmartPtr/Reset.antt =====
-- The invariant on the reference counts, and what `share` and `reset` do to it.
use agnocast.Prelude.{
  ℕ, ◌+◌, ◌-◌, ◌%◌, ◌^◌, ◌≤◌, ◌<◌, ◌≡◌, ◌≢◌, refl, inl, inr, true, Option, none, some, arith, ◌==◌,
  get_elem?, Option-cases,
}
use agnocast.SmartPtr.Defs.{
  ControlBlock, Handle, World, Outcome, ok, terminate, fault, no_object, ◌>>=◌, update, handle_at,
  drop_last, share, reset, free, assign,
}
use agnocast.SmartPtr.Refs.{points, refs, points-le-refs}

-- A freed block has no handle; a live one has as many as its count says, and at least one.
abbrev pub CountOf : Option ControlBlock → ℕ → Type 0
CountOf none n = n ≡ 0
CountOf (some b) n = (b.ref_count ≡ n) × (0 < n)

abbrev pub IsFresh : World → Type 0
IsFresh w = (a : ℕ) → w.next ≤ a → w.block a ≡ none

pub record Counted (w : World) : Type 0 where
  pub counts : (a : ℕ) → CountOf (w.block a) (refs a w.handles)
  pub fresh : IsFresh w

-- No use of freed memory, and `P` of the state that is reached, if one is.
abbrev pub Ensures : (World → Type 0) → Outcome World → Type 0
Ensures P (ok w) = P w
Ensures P terminate = Unit {0}
Ensures P fault = ⊥
Ensures P no_object = Unit {0}

pub Ensures-bind :
    (P Q : World → Type 0) (m : Outcome World) (f : World → Outcome World)
    → Ensures P m
    → ((w : World) → P w → Ensures Q (f w))
    → Ensures Q (m >>= f)
Ensures-bind P Q (ok w) f h k = k w h
Ensures-bind P Q terminate f h k = tt
Ensures-bind P Q fault f h k = absurd h
Ensures-bind P Q no_object f h k = tt

pub Ensures-handle :
    (Q : World → Type 0) (w : World) (i : ℕ) (f : Handle → Outcome World)
    → ((h : Handle) → get_elem? w.handles i ≡ some h → Ensures Q (f h))
    → Ensures Q (handle_at w i >>= f)
Ensures-handle Q w i f k = elim (Option-cases (get_elem? w.handles i)) [
  | inl e ↦ rw (e, Ensures) tt
  | inr (h, e) ↦ rw (e, Ensures) (k h e)
]

pub Ensures-mono :
    (P Q : World → Type 0) (m : Outcome World)
    → Ensures P m
    → ((w : World) → P w → Q w)
    → Ensures Q m
Ensures-mono P Q (ok w) h k = k w h
Ensures-mono P Q terminate h k = tt
Ensures-mono P Q fault h k = h
Ensures-mono P Q no_object h k = tt

-- A handle's block is live.
pub live :
    (w : World)
    → Counted w
    → (i : ℕ) (h : Handle) (a : ℕ) → get_elem? w.handles i ≡ some h
    → h.control ≡ some a
    → (b : ControlBlock) × (w.block a ≡ some b)
live w v i h a e c = elim (Option-cases (w.block a)) [
  | inl n ↦ absurd (ground (arith, v.counts a, points-le-refs a w.handles i h e))
  | inr found ↦ found
]

abbrev pub Shares : (ℕ → ℕ) → World → Option ℕ → World → Type 0
Shares m w c u =
    ((a : ℕ) → CountOf (u.block a) (m a + points a c)) × IsFresh u × (u.handles ≡ w.handles)

-- A reference more, on top of counts `m`.
pub share-Ensures :
    (m : ℕ → ℕ) (w : World) (c : Option ℕ)
    → ((a : ℕ) → CountOf (w.block a) (m a))
    → IsFresh w
    → ((a : ℕ) → c ≡ some a → (b : ControlBlock) × (w.block a ≡ some b))
    → ((a : ℕ) → c ≡ some a → m a + 1 < 2 ^ 32)
    → Ensures (Shares m w c) (share c w)
unfolding share
share-Ensures m w none k f l s = (λ a. ground (arith, k a), f, refl)
share-Ensures m w (some c) k f l s =
    let (b, e) = l c refl in
    rw (e, Ensures)
      (λ a. ground (arith, k a, k c, s c refl), λ a h. ground (arith, f a h, f c), refl)

abbrev pub IsNullAt : ℕ → World → Type 0
IsNullAt i w = (h : Handle) × (get_elem? w.handles i ≡ some h) × (h.control ≡ none)

-- The block of the last reference once its count is written back.
abbrev pub drained : ℕ → ControlBlock → World → World
drained a b w = record w {
  block = update w.block a (some (record b { ref_count = (b.ref_count + (2 ^ 32 - 1)) % 2 ^ 32 }));
}

eq_self : (a : ℕ) → (a == a) ≡ true
eq_self a = ground arith

pub reset-absent : (w : World) (i : ℕ) → get_elem? w.handles i ≡ none → reset i w ≡ no_object
unfolding reset
reset-absent w i e = ground arith

pub reset-null :
    (w : World) (i : ℕ) (h : Handle)
    → get_elem? w.handles i ≡ some h
    → h.control ≡ none
    → reset i w ≡ ok w
unfolding reset
reset-null w i h found e = ground arith

module _ (w : World) (i : ℕ) (h : Handle) (a : ℕ) (b : ControlBlock)
    (found : get_elem? w.handles i ≡ some h) (owned : h.control ≡ some a)
    (there : w.block a ≡ some b) where
  pub reset-last :
      b.ref_count ≡ 1
      → reset i w ≡ (
          drop_last h
            (record b { ref_count = (b.ref_count + (2 ^ 32 - 1)) % 2 ^ 32 })
            (drained a b w)
          >>= λ u. ok (assign i h none none (free a u)))
  unfolding reset
  reset-last e = ground arith

  pub reset-shared : b.ref_count ≢ 1 → reset i w ≡ ok (assign i h none none (drained a b w))
  unfolding reset
  reset-shared e = ground arith

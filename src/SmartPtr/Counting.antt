-- ===== src/SmartPtr/Counting.antt =====
-- Every operation keeps the counts right and uses no freed block.
use agnocast.Prelude.{
  ℕ, zero, suc, ◌+◌, ◌^◌, ◌≤◌, ◌<◌, ◌≡◌, ◌≢◌, refl, inl, inr, Option, none, some, List, [], ◌∷◌,
  arith, length, get_elem?, set, length-set, get_elem?-set_self, Option-cases,
}
use native.Mathlib.Decide.{ℕ_discrete}
use agnocast.SmartPtr.Defs.{
  ControlBlock, Handle, World, update, drop_last, reset, free, assign, share,
}
use agnocast.SmartPtr.Refs.{points, refs, refs-set, refs-le-length}
use agnocast.SmartPtr.Reset.{
  CountOf, IsFresh, Counted, Ensures, Ensures-bind, live, share-Ensures, IsNullAt, drained,
  reset-last, reset-shared, reset-null, reset-absent, Ensures-mono, Shares,
}

abbrev Dropped : World → World → Type 0
Dropped w u = (u.block ≡ w.block) × (u.handles ≡ w.handles) × (u.next ≡ w.next)

-- `drop_last` writes the event list only.
drop_last-Ensures :
    (h : Handle) (b : ControlBlock) (w : World) → Ensures (Dropped w) (drop_last h b w)
unfolding drop_last
drop_last-Ensures h b w = ground arith

pub get_elem?-lt {ℓ} :
    {A : Type ℓ} (xs : List A) (i : ℕ) {x : A} → get_elem? xs i ≡ some x → i < length xs
get_elem?-lt [] i e = ground arith
get_elem?-lt (y ∷ xs) zero e = omega arith
get_elem?-lt (y ∷ xs) (suc i) e = omega (arith, get_elem?-lt xs i e)

abbrev nulled : Handle → Handle
nulled h = record { ptr = none; control = none; is_void = h.is_void }

-- What `reset` promises: the counts stay right, and the object is null afterwards.
pub record WasReset (i n : ℕ) (u : World) : Type 0 where
  pub counted : Counted u
  pub null : IsNullAt i u
  pub size : length u.handles ≡ n

module _ (w : World) (v : Counted w) (few : length w.handles < 2 ^ 32) (i : ℕ) (h : Handle)
    (found : get_elem? w.handles i ≡ some h) where
  null-after : IsNullAt i (assign i h none none w)
  null-after =
      (nulled h, get_elem?-set_self w.handles i (nulled h) (get_elem?-lt w.handles i found), refl)

  last-counts :
      (a : ℕ) (b : ControlBlock)
      → h.control ≡ some a
      → w.block a ≡ some b
      → b.ref_count ≡ 1
      → (c : ℕ) → CountOf (update w.block a none c) (refs c (set w.handles i (nulled h)))
  last-counts a b owned there one c =
      ground (arith, v.counts c, v.counts a, refs-set c w.handles i h (nulled h) found)

  shared-counts :
      (a : ℕ) (b : ControlBlock)
      → h.control ≡ some a
      → w.block a ≡ some b
      → b.ref_count ≢ 1
      → (c : ℕ) → CountOf ((drained a b w).block c) (refs c (set w.handles i (nulled h)))
  shared-counts a b owned there more c = ground (
    arith,
    v.counts c,
    v.counts a,
    refs-set c w.handles i h (nulled h) found,
    refs-le-length a w.handles,
  )

  last-WasReset :
      (a : ℕ) (b : ControlBlock) (u : World)
      → h.control ≡ some a
      → w.block a ≡ some b
      → b.ref_count ≡ 1
      → u.block ≡ (drained a b w).block
      → u.handles ≡ w.handles
      → u.next ≡ w.next
      → WasReset i (length w.handles) (assign i h none none (free a u))
  last-WasReset a b u owned there one ub uh un = record {
    counted = record {
      counts = λ c. rw (ub, uh) (ground (arith, last-counts a b owned there one c));
      fresh = λ c h. rw ub (ground (arith, v.fresh c, v.fresh a));
    };
    null = rw uh null-after;
    size = rw uh (length-set w.handles i (nulled h));
  }

  last-Ensures :
      (a : ℕ) (b : ControlBlock)
      → h.control ≡ some a
      → w.block a ≡ some b
      → b.ref_count ≡ 1
      → Ensures (WasReset i (length w.handles)) (reset i w)
  last-Ensures a b owned there one = rw (reset-last w i h a b found owned there one) (
      Ensures-bind (Dropped (drained a b w)) (WasReset i (length w.handles)) _ _
        (drop_last-Ensures h _ (drained a b w))
        λ u k. last-WasReset a b u owned there one k.0 k.1 k.2)

  shared-Ensures :
      (a : ℕ) (b : ControlBlock)
      → h.control ≡ some a
      → w.block a ≡ some b
      → b.ref_count ≢ 1
      → Ensures (WasReset i (length w.handles)) (reset i w)
  shared-Ensures a b owned there more = rw (reset-shared w i h a b found owned there more) (record {
    counted = record {
      counts = shared-counts a b owned there more;
      fresh = λ c k. ground (arith, v.fresh c k, v.fresh a);
    };
    null = null-after;
    size = length-set w.handles i (nulled h);
  })

  pub reset-Ensures : Ensures (WasReset i (length w.handles)) (reset i w)
  reset-Ensures = elim (Option-cases h.control) [
    | inl e ↦
        rw (reset-null w i h found e) (record { counted = v; null = (h, found, e); size = refl })
    | inr (a, e) ↦
        let (b, there) = live w v i h a found e in
        elim (ℕ_discrete b.ref_count 1) [
          | yes one ↦ last-Ensures a b e there one
          | no more ↦ shared-Ensures a b e there more
        ]
  ]

-- `reset` of any object, there or not.
pub reset-WasReset :
    (w : World) (i : ℕ)
    → Counted w
    → length w.handles < 2 ^ 32
    → Ensures (WasReset i (length w.handles)) (reset i w)
reset-WasReset w i v few = elim (Option-cases (get_elem? w.handles i)) [
  | inl e ↦ rw (reset-absent w i e) tt
  | inr (h, e) ↦ reset-Ensures w v few i h e
]

-- What an operation promises that starts with `n` objects: right counts, and one object more at most.
pub record Next (n : ℕ) (u : World) : Type 0 where
  pub counted : Counted u
  pub size : length u.handles ≤ n + 1

-- The new reference stands in the list already, and its count is still to come.
pub share-Next :
    (n : ℕ) (m : ℕ → ℕ) (w : World) (c : Option ℕ)
    → ((a : ℕ) → CountOf (w.block a) (m a))
    → IsFresh w
    → ((a : ℕ) → c ≡ some a → (b : ControlBlock) × (w.block a ≡ some b))
    → ((a : ℕ) → refs a w.handles ≡ m a + points a c)
    → length w.handles ≤ n + 1
    → n + 1 < 2 ^ 32
    → Ensures (Next n) (share c w)
share-Next n m w c k f l total size few =
    Ensures-mono (Shares m w c) (Next n) (share c w) (share-Ensures m w c k f l room) λ u s.
      record {
        counted = record { counts = λ a. rw (s.2, total a) (s.0 a); fresh = s.1 };
        size = rw s.2 size;
      }
  where
    room : (a : ℕ) → c ≡ some a → m a + 1 < 2 ^ 32
    room a e = ground (arith, total a, refs-le-length a w.handles)

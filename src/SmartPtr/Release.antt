-- ===== src/SmartPtr/Release.antt =====
-- What leaves the class when a handle is dropped, and what publication does to the copies.
use native.Mathlib.Decide.{ℕ_discrete}
use agnocast.Prelude.{
  ℕ, Bool-cases, ◌⊎◌, inl, inr, ◌+◌, ◌-◌, ◌%◌, ◌^◌, ◌<◌, ◌≡◌, ◌≢◌, refl, true, false, none, some,
  List, ◌∷◌, eq_ℤ, eq_of_parts, arith, length, get_elem?,
}
use agnocast.SmartPtr.Defs.{
  ControlBlock, Handle, Event, release_subscriber_reference, decrement_borrowed_publisher_num,
  delete_message, World, ok, terminate, get, to_bool, dereference, reset, drop_last,
  entry_id_not_assigned, invalidate_all_references, free, assign, update,
}
use agnocast.SmartPtr.Refs.{refs, refs-le-length, points-le-refs}
use agnocast.SmartPtr.Reset.{Counted, drained, reset-last, reset-shared}

-- The object `i` holds a reference to the block `b` at `a`.
pub record Holds (w : World) (i a : ℕ) (h : Handle) (b : ControlBlock) : Type 0 where
  pub found : get_elem? w.handles i ≡ some h
  pub owned : h.control ≡ some a
  pub there : w.block a ≡ some b

-- The kernel is told, once, or the reference count falls by one.
abbrev pub Dropped : World → World → ℕ → ControlBlock → List Event → Type 0
Dropped w u a b es =
    ((refs a w.handles ≡ 1) × (u.events ≡ es) × (u.block a ≡ none))
    ⊎ ((1 < refs a w.handles)
        × (u.events ≡ w.events)
        × (u.block a ≡ some (record b { ref_count = refs a w.handles - 1 })))

module _ (w : World) (k : Counted w) (few : length w.handles < 2 ^ 32) (i a : ℕ) (h : Handle)
    (b : ControlBlock) (holds : Holds w i a h b) where
  abbrev zeroed : ControlBlock
  zeroed = record b { ref_count = (b.ref_count + (2 ^ 32 - 1)) % 2 ^ 32 }

  still_shared :
      (es : List Event) → b.ref_count ≢ 1 → (u : World) × (reset i w ≡ ok u) × Dropped w u a b es
  still_shared es more = (
    assign i h none none (drained a b w),
    reset-shared w i h a b holds.found holds.owned holds.there more,
    inr (
      ground
          (arith, k.counts a, holds.there, holds.owned, points-le-refs a w.handles i h holds.found),
      refl,
      ground (arith, k.counts a, holds.there, refs-le-length a w.handles),
    ),
  )

  -- From what the last reference emits to what dropping any reference does.
  dropped :
      (es : List Event)
      → drop_last h zeroed (drained a b w) ≡ ok (record (drained a b w) { events = es })
      → (u : World) × (reset i w ≡ ok u) × Dropped w u a b es
  dropped es e = elim (ℕ_discrete b.ref_count 1) [
    | yes one ↦ (
      assign i h none none (free a (record (drained a b w) { events = es })),
      rw (reset-last w i h a b holds.found holds.owned holds.there one, e) refl,
      inl (ground (arith, k.counts a, holds.there), refl, ground arith),
    )
    | no more ↦ still_shared es more
  ]

  -- With right counts and fewer than 2^32 objects: dropping a handle of a received message tells the kernel that the message is released exactly
  -- when no other handle shares the control block; the block is then freed. Otherwise no event
  -- leaves the class and the count of the block falls by one.
  pub reset-release :
      b.entry_id ≢ entry_id_not_assigned
      → (u : World) × (reset i w ≡ ok u)
        × Dropped w u a b
            (release_subscriber_reference b.topic_name b.pubsub_id b.entry_id ∷ w.events)
  unfolding drop_last
  reset-release e =
      let t : eq_ℤ b.entry_id entry_id_not_assigned ≡ false =
        ground (arith, eq_of_parts b.entry_id entry_id_not_assigned) in
      dropped _ (rw t)

  -- With right counts and fewer than 2^32 objects: dropping a handle of a borrowed message that was never
  -- published. If it is the last one on the control block and of type void, the process is terminated.
  -- If it is the last one and of another type, what the pointer stored in this handle points at is
  -- deleted, and the borrow is given back; the block is freed. If it is not the last one, of any
  -- type, no event leaves the class and the count of the block falls by one.
  pub reset-unpublished :
      b.entry_id ≡ entry_id_not_assigned
      → b.valid ≡ true
      → ((h.is_void ≡ true) × (refs a w.handles ≡ 1) × (reset i w ≡ terminate))
        ⊎ (((h.is_void ≡ false) ⊎ (1 < refs a w.handles))
            × (u : World) × (reset i w ≡ ok u)
            × Dropped w u a b (delete_message h.ptr ∷ decrement_borrowed_publisher_num ∷ w.events))
  unfolding drop_last
  reset-unpublished e v = elim (Bool-cases h.is_void) [
    | inr t ↦ let (u, r, d) = dropped _ (rw (e, v, t)) in inr (inl t, u, r, d)
    | inl t ↦ elim (ℕ_discrete b.ref_count 1) [
      | yes one ↦ inl (
        t,
        ground (arith, k.counts a, holds.there),
        rw (reset-last w i h a b holds.found holds.owned holds.there one, e, v, t) refl,
      )
      | no more ↦
          let (u, r, d) =
            still_shared (delete_message h.ptr ∷ decrement_borrowed_publisher_num ∷ w.events)
              more in
          inr (
            inr (
                ground (
                  arith,
                  k.counts a,
                  holds.there,
                  holds.owned,
                  points-le-refs a w.handles i h holds.found,
                )),
            u,
            r,
            d,
          )
    ]
  ]

  -- With right counts and fewer than 2^32 objects: dropping a handle of a message that was borrowed
  -- and published emits nothing, last handle or not.
  pub reset-published :
      b.entry_id ≡ entry_id_not_assigned
      → b.valid ≡ false
      → (u : World) × (reset i w ≡ ok u) × Dropped w u a b w.events
  unfolding drop_last
  reset-published e v = dropped _ (rw (e, v))

  -- Publication (`invalidate_all_references` on any handle) succeeds and leaves the handles and what
  -- was emitted; it makes every handle `g` on the same control block unusable: `get` gives null,
  -- `operator bool` false, and a dereference terminates.
  pub invalidate-copies :
      (j : ℕ) (g : Handle)
      → get_elem? w.handles j ≡ some g
      → g.control ≡ some a
      → (u : World) × (invalidate_all_references i w ≡ ok u)
        × (get j u ≡ ok none)
        × (to_bool j u ≡ ok false)
        × (dereference j u ≡ terminate)
        × (u.handles ≡ w.handles)
        × (u.events ≡ w.events)
  unfolding invalidate_all_references get to_bool dereference
  invalidate-copies j g f o = (
    record w { block = update w.block a (some (record b { valid = false })) },
    ground (arith, holds.found, holds.owned, holds.there),
    ground arith,
    ground arith,
    ground arith,
    refl,
    refl,
  )

  -- Publication leaves a handle on another block, or on none, as it was: it reads the same.
  pub invalidate-others :
      (j : ℕ) (g : Handle)
      → get_elem? w.handles j ≡ some g
      → g.control ≢ some a
      → (u : World) × (invalidate_all_references i w ≡ ok u)
        × (get j u ≡ get j w)
        × (to_bool j u ≡ to_bool j w)
        × (dereference j u ≡ dereference j w)
  unfolding invalidate_all_references get to_bool dereference
  invalidate-others j g f o = (
    record w { block = update w.block a (some (record b { valid = false })) },
    ground (arith, holds.found, holds.owned, holds.there),
    ground arith,
    ground arith,
    ground arith,
  )

-- ===== src/SmartPtr/Ownership.antt =====
-- The counting invariant along every operation and every sequence of operations.
use Prim.Native.String.{String}
use agnocast.Prelude.{
  ℕ, zero, suc, ◌+◌, ◌^◌, ◌<◌, ◌≡◌, Bool, Option, none, some, List, [], ◌∷◌, ◌++◌, ℤ, arith, ◌==◌,
  if◌then◌else◌, length, length-append, get_elem?, set, length-set, Option-cases, Bool-cases,
  get_elem?-set_self, get_elem?-set_ne, ◌⊎◌, inl, inr, ◌∙◌,
}
use agnocast.SmartPtr.Defs.{
  Handle, World, ok, no_object, Op, step, run, construct, copy_with, move_with, convert_copy_assign,
  copy_assign, convert_move_assign, move_assign, invalidate_all_references, cast_copy, cast_move,
  get, reset, assign, push,
}
use agnocast.SmartPtr.Refs.{refs, refs-push, refs-set}
use agnocast.SmartPtr.Reset.{
  Counted, Ensures, Ensures-bind, Ensures-handle, Ensures-mono, live, IsNullAt,
}
use agnocast.SmartPtr.Counting.{WasReset, reset-WasReset, share-Next, Next, get_elem?-lt}
use native.Mathlib.Decide.{ℕ_discrete}

pub get_elem?-append {ℓ} :
    {A : Type ℓ} (xs ys : List A) (i : ℕ) {x : A}
    → get_elem? xs i ≡ some x
    → get_elem? (xs ++ ys) i ≡ some x
get_elem?-append [] ys i e = cc
get_elem?-append (y ∷ xs) ys zero e = e
get_elem?-append (y ∷ xs) ys (suc i) e = get_elem?-append xs ys i e

-- Moving a reference from one object to a null one changes no count.
moved :
    (u : World) (i j : ℕ) (h r : Handle)
    → IsNullAt i u
    → get_elem? u.handles i ≡ some h
    → get_elem? u.handles j ≡ some r
    → (a : ℕ)
    → refs a (assign j r none none (assign i h r.ptr r.control u)).handles ≡ refs a u.handles
moved u i j h r z e f a = elim (ℕ_discrete i j) [
  | yes same ↦
      let (_, g, c) = z in
      let f' : get_elem? (set u.handles i n) j ≡ some n =
        rw (← same) (get_elem?-set_self u.handles i n (get_elem?-lt u.handles i e)) in
      ground (arith, refs-set a u.handles i h n e, refs-set a (set u.handles i n) j n o f', c)
  | no other ↦
      let f' : get_elem? (set u.handles i n) j ≡ some r =
        get_elem?-set_ne u.handles i j n other ∙ f in
      ground (arith, refs-set a u.handles i h n e, refs-set a (set u.handles i n) j r o f', z)
]
  where
    n : Handle
    n = record { ptr = r.ptr; control = r.control; is_void = h.is_void }

    o : Handle
    o = record { ptr = none; control = none; is_void = r.is_void }

construct-Next :
    (w : World) (p : Option ℕ) (topic : String) (pubsub entry : ℤ) (v : Bool)
    → Counted w
    → Next (length w.handles) (construct p topic pubsub entry v w)
unfolding construct
construct-Next w none topic pubsub entry v k =
    let h : Handle = record { ptr = none; control = none; is_void = v } in
    record {
      counted = record {
        counts = λ a. ground (arith, k.counts a, refs-push a w.handles h);
        fresh = k.fresh;
      };
      size = omega (arith, length-append w.handles (h ∷ []));
    }
construct-Next w (some p) topic pubsub entry v k =
    let h : Handle = record { ptr = some p; control = some w.next; is_void = v } in
    record {
      counted = record {
        counts = λ a. ground (arith, k.counts a, k.fresh a, refs-push a w.handles h);
        fresh = λ a l. ground (arith, k.fresh a);
      };
      size = omega (arith, length-append w.handles (h ∷ []));
    }

module _ (w : World) (k : Counted w) (room : length w.handles + 1 < 2 ^ 32) where
  abbrev After : World → Type 0
  After = Next (length w.handles)

  same : After w
  same = record { counted = k; size = omega arith }

  copy_with-Next : (j : ℕ) (v : Bool) (p : Handle → Option ℕ) → Ensures After (copy_with j v p w)
  unfolding copy_with
  copy_with-Next j v p = Ensures-handle After w j _ λ r e.
      let h : Handle = record { ptr = p r; control = r.control; is_void = v } in
      share-Next (length w.handles) (λ a. refs a w.handles) (push h w) r.control k.counts k.fresh
        (λ a c. live w k j r a e c) (λ a. refs-push a w.handles h)
        (omega (arith, length-append w.handles (h ∷ []))) room

  move_with-Next : (j : ℕ) (v : Bool) (p : Handle → Option ℕ) → Ensures After (move_with j v p w)
  unfolding move_with
  move_with-Next j v p = Ensures-handle After w j _ λ r e.
      let h : Handle = record { ptr = p r; control = r.control; is_void = v } in
      let o : Handle = record { ptr = none; control = none; is_void = r.is_void } in
      record {
        counted = record {
          counts = λ a. ground (
            arith,
            k.counts a,
            refs-push a w.handles h,
            refs-set a (w.handles ++ h ∷ []) j r o (get_elem?-append w.handles (h ∷ []) j e),
          );
          fresh = k.fresh;
        };
        size =
            omega (arith, length-append w.handles (h ∷ []), length-set (w.handles ++ h ∷ []) j o);
      }

  convert_copy_assign-Next : (i j : ℕ) → Ensures After (convert_copy_assign i j w)
  unfolding convert_copy_assign
  convert_copy_assign-Next i j =
      Ensures-bind (WasReset i (length w.handles)) After (reset i w) _
        (reset-WasReset w i k (omega arith))
        λ u z. Ensures-handle After u i _ λ h e. Ensures-handle After u j _ λ r f.
          let n : Handle = record { ptr = r.ptr; control = r.control; is_void = h.is_void } in
          share-Next (length w.handles) (λ a. refs a u.handles) (assign i h r.ptr r.control u)
            r.control z.counted.counts z.counted.fresh (λ a c. live u z.counted j r a f c)
            (λ a. ground (arith, refs-set a u.handles i h n e, z.null))
            (omega (arith, length-set u.handles i n, z.size)) room

  copy_assign-Next : (i j : ℕ) → Ensures After (copy_assign i j w)
  unfolding copy_assign
  copy_assign-Next i j = elim (Bool-cases (i == j)) [
    | inl e ↦ rw e same
    | inr e ↦ rw e (convert_copy_assign-Next i j)
  ]

  convert_move_assign-Next : (i j : ℕ) → Ensures After (convert_move_assign i j w)
  unfolding convert_move_assign
  convert_move_assign-Next i j =
      Ensures-bind (WasReset i (length w.handles)) After (reset i w) _
        (reset-WasReset w i k (omega arith))
        λ u z. Ensures-handle After u i _ λ h e. Ensures-handle After u j _ λ r f. record {
          counted = record {
            counts = λ a. ground (arith, moved u i j h r z.null e f a, z.counted.counts a);
            fresh = z.counted.fresh;
          };
          size = omega (
            arith,
            z.size,
            length-set (assign i h r.ptr r.control u).handles j
                (record { ptr = none; control = none; is_void = r.is_void }),
            length-set u.handles i
                (record { ptr = r.ptr; control = r.control; is_void = h.is_void }),
          );
        }

  move_assign-Next : (i j : ℕ) → Ensures After (move_assign i j w)
  unfolding move_assign
  move_assign-Next i j = elim (Bool-cases (i == j)) [
    | inl e ↦ rw e same
    | inr e ↦ rw e (convert_move_assign-Next i j)
  ]

  invalidate-Next : (i : ℕ) → Ensures After (invalidate_all_references i w)
  unfolding invalidate_all_references
  invalidate-Next i = Ensures-handle After w i _ λ h e. elim (Option-cases h.control) [
    | inl c ↦ rw c same
    | inr (a, c) ↦
        let (b, there) = live w k i h a e c in
        rw (c, there, Ensures)
          (record {
            counted = record {
              counts = λ d. ground (arith, k.counts d, k.counts a);
              fresh = λ d l. ground (arith, k.fresh d l, k.fresh a);
            };
            size = omega arith;
          })
  ]

  get-cases : (j : ℕ) → (get j w ≡ no_object) ⊎ ((p : Option ℕ) × (get j w ≡ ok p))
  unfolding get
  get-cases j = elim (Option-cases (get_elem? w.handles j)) [
    | inl e ↦ inl (ground arith)
    | inr (h, e) ↦ elim (Option-cases h.control) [
      | inl c ↦ inr (h.ptr, ground arith)
      | inr (a, c) ↦
          let (b, there) = live w k j h a e c in
          inr ((if b.valid then h.ptr else none), ground arith)
    ]
  ]

  cast_copy-Next : (j : ℕ) (v : Bool) → Ensures After (cast_copy j v w)
  unfolding cast_copy
  cast_copy-Next j v = elim (get-cases j) [
    | inl e ↦ rw e tt
    | inr (p, e) ↦ rw e (copy_with-Next j v (λ _. p))
  ]

  cast_move-Next : (j : ℕ) (v : Bool) → Ensures After (cast_move j v w)
  unfolding cast_move
  cast_move-Next j v = elim (get-cases j) [
    | inl e ↦ rw e tt
    | inr (p, e) ↦ rw e (move_with-Next j v (λ _. p))
  ]

  step-Next : (o : Op) → Ensures After (step o w)
  unfolding step
  step-Next (Op.borrow p topic pubsub v) = construct-Next w p topic pubsub _ v k
  step-Next (Op.receive p topic pubsub entry v) = construct-Next w p topic pubsub entry v k
  step-Next (Op.copy_construct j v) = copy_with-Next j v (λ r. r.ptr)
  step-Next (Op.convert_copy_construct j v) = copy_with-Next j v (λ r. r.ptr)
  step-Next (Op.move_construct j v) = move_with-Next j v (λ r. r.ptr)
  step-Next (Op.convert_move_construct j v) = move_with-Next j v (λ r. r.ptr)
  step-Next (Op.alias_copy j v p) = copy_with-Next j v (λ _. p)
  step-Next (Op.alias_move j v p) = move_with-Next j v (λ _. p)
  step-Next (Op.assign_copy i j) = copy_assign-Next i j
  step-Next (Op.assign_move i j) = move_assign-Next i j
  step-Next (Op.assign_convert_copy i j) = convert_copy_assign-Next i j
  step-Next (Op.assign_convert_move i j) = convert_move_assign-Next i j
  step-Next (Op.cast j v) = cast_copy-Next j v
  step-Next (Op.cast_rvalue j v) = cast_move-Next j v
  step-Next (Op.destroy i) =
      Ensures-mono (WasReset i (length w.handles)) After (reset i w)
        (reset-WasReset w i k (omega arith))
        λ u z. record { counted = z.counted; size = omega (arith, z.size) }
  step-Next (Op.invalidate i) = invalidate-Next i

-- From right counts, and with fewer than 2^32 - 1 objects that exist or are made, no sequence of
-- operations touches a freed control block, and after it a block is freed exactly when no handle
-- points to it and a live one counts its handles.
pub run-Counted :
    (os : List Op) (w : World)
    → Counted w
    → length w.handles + length os + 1 < 2 ^ 32
    → Ensures Counted (run os w)
unfolding run
run-Counted [] w k room = k
run-Counted (o ∷ os) w k room =
    Ensures-bind (Next (length w.handles)) Counted (step o w) (run os)
      (step-Next w k (omega arith) o) λ u n. run-Counted os u n.counted (omega (arith, n.size))

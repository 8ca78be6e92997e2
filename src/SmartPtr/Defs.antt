-- ===== src/SmartPtr/Defs.antt =====
-- agnocast_smart_pointer.hpp: the state, and every operation of the class on it.
use Prim.Native.String.{String}
use agnocast.Prelude.{
  ℕ, ◌+◌, ◌-◌, ◌%◌, ◌^◌, Bool, true, false, not, Option, none, some, List, [], ◌∷◌, ◌++◌, ℤ, negsuc,
  eq_ℤ, ◌==◌, if◌then◌else◌, get_elem?, set,
}

abbrev pub entry_id_not_assigned : ℤ
entry_id_not_assigned = negsuc 0

pub record ControlBlock : Type 0 where
  pub topic_name : String
  pub entry_id : ℤ
  pub ref_count : ℕ
  pub pubsub_id : ℤ
  pub valid : Bool

-- `is_void` says whether the static type of the handle is `ipc_shared_ptr<void>`.
pub record Handle : Type 0 where
  pub ptr : Option ℕ
  pub control : Option ℕ
  pub is_void : Bool

pub data Event : Type 0 where
  release_subscriber_reference : String → ℤ → ℤ → Event
  decrement_borrowed_publisher_num : Event
  delete_message : Option ℕ → Event

pub record World : Type 0 where
  pub next : ℕ
  pub block : ℕ → Option ControlBlock
  pub handles : List Handle
  pub events : List Event

-- `fault` is a use of freed memory, `terminate` is `std::terminate`, and `no_object` says that the
-- operation names an object that does not exist, which no C++ program can write.
pub data Outcome (A : Type 0) : Type 0 where
  ok : A → Outcome A
  terminate fault no_object : Outcome A

infixl 5 ◌>>=◌
abbrev pub ◌>>=◌ : {A B : Type 0} → Outcome A → (A → Outcome B) → Outcome B
ok a >>= f = f a
terminate >>= f = terminate
fault >>= f = fault
no_object >>= f = no_object

abbrev pub update : (ℕ → Option ControlBlock) → ℕ → Option ControlBlock → ℕ → Option ControlBlock
update f a b c = if a == c then b else f c

abbrev pub block_at : World → ℕ → Outcome ControlBlock
block_at w a = elim (w.block a) [ none ↦ fault | some b ↦ ok b ]

abbrev pub handle_at : World → ℕ → Outcome Handle
handle_at w i = elim (get_elem? w.handles i) [ none ↦ no_object | some h ↦ ok h ]

abbrev pub emit : Event → World → World
emit e w = record w { events = e ∷ w.events }

abbrev pub push : Handle → World → World
push h w = record w { handles = w.handles ++ h ∷ [] }

-- `ptr_ = p; control_ = c;` on the object `i`, whose type does not change.
abbrev pub assign : ℕ → Handle → Option ℕ → Option ℕ → World → World
assign i h p c w = record w {
  handles = set w.handles i (record { ptr = p; control = c; is_void = h.is_void });
}

-- `control_block::increment`
unfoldable pub increment : ℕ → World → Outcome World
increment a w = do
  b ← block_at w a
  ok (record w {
    block = update w.block a (some (record b { ref_count = (b.ref_count + 1) % 2 ^ 32 }));
  })

-- `control_block::decrement_and_check`
unfoldable pub decrement_and_check : ℕ → World → Outcome (Bool × World)
decrement_and_check a w = do
  b ← block_at w a
  ok (
    b.ref_count == 1,
    record w {
      block =
          update w.block a (some (record b { ref_count = (b.ref_count + (2 ^ 32 - 1)) % 2 ^ 32 }));
    },
  )

-- The branch of `reset` that the last reference takes, up to `delete control_`.
unfoldable pub drop_last : Handle → ControlBlock → World → Outcome World
drop_last h b w =
    if eq_ℤ b.entry_id entry_id_not_assigned
    then (if b.valid
        then (if h.is_void
            then terminate
            else ok (emit (delete_message h.ptr) (emit decrement_borrowed_publisher_num w)))
        else ok w)
    else ok (emit (release_subscriber_reference b.topic_name b.pubsub_id b.entry_id) w)

abbrev pub free : ℕ → World → World
free a w = record w { block = update w.block a none }

unfoldable pub reset_control : ℕ → Handle → ℕ → World → Outcome World
unfolding decrement_and_check drop_last
reset_control i h a w = do
  (was_last, w1) ← decrement_and_check a w
  w2 ← (if was_last then (do b ← block_at w1 a; w2 ← drop_last h b w1; ok (free a w2)) else ok w1)
  ok (assign i h none none w2)

-- `reset`, which is also what the destructor runs.
unfoldable pub reset : ℕ → World → Outcome World
unfolding reset_control
reset i w = do h ← handle_at w i; elim h.control [ none ↦ ok w | some a ↦ reset_control i h a w ]

-- `if (control_) control_->increment();`
unfoldable pub share : Option ℕ → World → Outcome World
unfolding increment
share none w = ok w
share (some a) w = increment a w

-- The two constructors that make a control block, from a raw pointer that may be null.
unfoldable pub construct : Option ℕ → String → ℤ → ℤ → Bool → World → World
construct none topic pubsub entry v w = push (record { ptr = none; control = none; is_void = v }) w
construct (some p) topic pubsub entry v w =
    push (record { ptr = some p; control = some w.next; is_void = v })
      (record w {
        next = w.next + 1;
        block = update w.block w.next (
            some (record {
              topic_name = topic;
              entry_id = entry;
              ref_count = 1;
              pubsub_id = pubsub;
              valid = true;
            }));
      })

-- Copy, converting copy and aliasing construction: `p` is the pointer that the new object stores.
unfoldable pub copy_with : ℕ → Bool → (Handle → Option ℕ) → World → Outcome World
unfolding share
copy_with j v p w = do
  r ← handle_at w j
  share r.control (push (record { ptr = p r; control = r.control; is_void = v }) w)

-- Move, converting move and aliasing move construction.
unfoldable pub move_with : ℕ → Bool → (Handle → Option ℕ) → World → Outcome World
move_with j v p w = do
  r ← handle_at w j
  ok (assign j r none none (push (record { ptr = p r; control = r.control; is_void = v }) w))

-- Converting copy assignment; the two objects have different types, so they are never one.
unfoldable pub convert_copy_assign : ℕ → ℕ → World → Outcome World
unfolding reset share
convert_copy_assign i j w = do
  w1 ← reset i w
  h ← handle_at w1 i
  r ← handle_at w1 j
  share r.control (assign i h r.ptr r.control w1)

unfoldable pub copy_assign : ℕ → ℕ → World → Outcome World
unfolding convert_copy_assign
copy_assign i j w = if i == j then ok w else convert_copy_assign i j w

unfoldable pub convert_move_assign : ℕ → ℕ → World → Outcome World
unfolding reset
convert_move_assign i j w = do
  w1 ← reset i w
  h ← handle_at w1 i
  r ← handle_at w1 j
  ok (assign j r none none (assign i h r.ptr r.control w1))

unfoldable pub move_assign : ℕ → ℕ → World → Outcome World
unfolding convert_move_assign
move_assign i j w = if i == j then ok w else convert_move_assign i j w

unfoldable pub invalidate_control : ℕ → World → Outcome World
invalidate_control a w = do
  b ← block_at w a
  ok (record w { block = update w.block a (some (record b { valid = false })) })

-- `invalidate_all_references`, which `Publisher::publish` calls.
unfoldable pub invalidate_all_references : ℕ → World → Outcome World
unfolding invalidate_control
invalidate_all_references i w = do
  h ← handle_at w i
  elim h.control [ none ↦ ok w | some a ↦ invalidate_control a w ]

unfoldable pub is_invalidated : Handle → World → Outcome Bool
is_invalidated h w = elim h.control [
  | none ↦ ok false
  | some a ↦ do b ← block_at w a; ok (not b.valid)
]

unfoldable pub get : ℕ → World → Outcome (Option ℕ)
unfolding is_invalidated
get i w = do h ← handle_at w i; dead ← is_invalidated h w; ok (if dead then none else h.ptr)

-- `operator bool`
unfoldable pub to_bool : ℕ → World → Outcome Bool
unfolding is_invalidated
to_bool i w = do
  h ← handle_at w i
  elim h.ptr [ none ↦ ok false | some p ↦ do dead ← is_invalidated h w; ok (not dead) ]

-- `operator*` and `operator->`: the address that is used, null included.
unfoldable pub dereference : ℕ → World → Outcome (Option ℕ)
unfolding is_invalidated
dereference i w = do
  h ← handle_at w i
  dead ← is_invalidated h w
  if dead then terminate else ok h.ptr

-- `static_ipc_shared_ptr_cast` on an lvalue and on an rvalue.
unfoldable pub cast_copy : ℕ → Bool → World → Outcome World
unfolding get copy_with
cast_copy j v w = do p ← get j w; copy_with j v (λ _. p) w

unfoldable pub cast_move : ℕ → Bool → World → Outcome World
unfolding get move_with
cast_move j v w = do p ← get j w; move_with j v (λ _. p) w

-- The operations that change the state.
pub data Op : Type 0 where
  borrow : Option ℕ → String → ℤ → Bool → Op
  receive : Option ℕ → String → ℤ → ℤ → Bool → Op
  copy_construct convert_copy_construct : ℕ → Bool → Op
  move_construct convert_move_construct : ℕ → Bool → Op
  alias_copy alias_move : ℕ → Bool → Option ℕ → Op
  assign_copy assign_move assign_convert_copy assign_convert_move : ℕ → ℕ → Op
  cast cast_rvalue : ℕ → Bool → Op
  destroy invalidate : ℕ → Op

unfoldable pub step : Op → World → Outcome World
unfolding construct copy_with move_with copy_assign move_assign cast_copy cast_move
    invalidate_all_references convert_copy_assign convert_move_assign reset
step (borrow p topic pubsub v) w = ok (construct p topic pubsub entry_id_not_assigned v w)
step (receive p topic pubsub entry v) w = ok (construct p topic pubsub entry v w)
step (copy_construct j v) w = copy_with j v (λ r. r.ptr) w
step (convert_copy_construct j v) w = copy_with j v (λ r. r.ptr) w
step (move_construct j v) w = move_with j v (λ r. r.ptr) w
step (convert_move_construct j v) w = move_with j v (λ r. r.ptr) w
step (alias_copy j v p) w = copy_with j v (λ _. p) w
step (alias_move j v p) w = move_with j v (λ _. p) w
step (assign_copy i j) w = copy_assign i j w
step (assign_move i j) w = move_assign i j w
step (assign_convert_copy i j) w = convert_copy_assign i j w
step (assign_convert_move i j) w = convert_move_assign i j w
step (cast j v) w = cast_copy j v w
step (cast_rvalue j v) w = cast_move j v w
step (destroy i) w = reset i w
step (invalidate i) w = invalidate_all_references i w

unfoldable pub run : List Op → World → Outcome World
unfolding step
run [] w = ok w
run (o ∷ os) w = do w' ← step o w; run os w'

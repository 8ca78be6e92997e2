-- ===== src/SmartPtr/Examples.antt =====
-- The theorems about `ipc_shared_ptr` at concrete worlds.
use agnocast.Prelude.{
  ◌⊎◌, ◌<◌, ◌≡◌, refl, true, false, none, some, List, [], ◌∷◌, pos, arith, ◌==◌, if◌then◌else◌,
}
use agnocast.SmartPtr.Defs.{
  ControlBlock, Handle, release_subscriber_reference, decrement_borrowed_publisher_num,
  delete_message, World, ok, terminate, Op, run, reset, get, to_bool, dereference,
  invalidate_all_references, entry_id_not_assigned,
}
use agnocast.SmartPtr.Refs.{refs}
use agnocast.SmartPtr.Reset.{Counted, Ensures}
use agnocast.SmartPtr.Ownership.{run-Counted}
use agnocast.SmartPtr.Release.{
  Holds, Dropped, reset-release, reset-unpublished, reset-published, invalidate-copies,
  invalidate-others,
}
use agnocast.SmartPtr.Alias.{events_of, alias-delete}

abbrev empty : World
empty = record { next = 0; block = λ _. none; handles = []; events = [] }

empty-Counted : Counted empty
unfolding refs
empty-Counted = record { counts = λ a. refl; fresh = λ a h. refl }

abbrev program : List Op
program =
    Op.receive (some 100) "/chatter" (pos 4) (pos 7) false
    ∷ Op.copy_construct 0 false
    ∷ Op.assign_copy 0 1
    ∷ Op.destroy 1
    ∷ Op.destroy 0
    ∷ []

program_releases_once :
    events_of (run program empty)
    ≡ some (release_subscriber_reference "/chatter" (pos 4) (pos 7) ∷ [])
unfolding run
program_releases_once = refl

run-Counted_example : Ensures Counted (run program empty)
run-Counted_example = run-Counted program empty empty-Counted (omega arith)

-- One control block at 0 with one handle.
abbrev one_block : ControlBlock → World
one_block b = record {
  next = 1;
  block = λ a. if a == 0 then some b else none;
  handles = record { ptr = some 100; control = some 0; is_void = false } ∷ [];
  events = [];
}

one_block-Counted : (b : ControlBlock) → b.ref_count ≡ 1 → Counted (one_block b)
unfolding refs
one_block-Counted b e = record { counts = λ a. ground arith; fresh = λ a h. ground arith }

abbrev only : Handle
only = record { ptr = some 100; control = some 0; is_void = false }

abbrev received : ControlBlock
received = record {
  topic_name = "/t";
  entry_id = pos 7;
  ref_count = 1;
  pubsub_id = pos 4;
  valid = true;
}

abbrev borrowed : ControlBlock
borrowed = record received { entry_id = entry_id_not_assigned }

abbrev published : ControlBlock
published = record borrowed { valid = false }

one_block-Holds : (b : ControlBlock) → Holds (one_block b) 0 0 only b
one_block-Holds b = record { found = refl; owned = refl; there = refl }

reset-release_example :
    (u : World) × (reset 0 (one_block received) ≡ ok u)
    × Dropped
        (one_block received)
        u
        0
        received
        (release_subscriber_reference "/t" (pos 4) (pos 7) ∷ [])
reset-release_example =
    reset-release (one_block received) (one_block-Counted received refl) (omega arith) 0 0 only
      received (one_block-Holds received) (λ e. cc)

reset-unpublished_example :
    ((false ≡ true) × (refs 0 (only ∷ []) ≡ 1) × (reset 0 (one_block borrowed) ≡ terminate))
    ⊎ (((false ≡ false) ⊎ (1 < refs 0 (only ∷ [])))
        × (u : World) × (reset 0 (one_block borrowed) ≡ ok u)
        × Dropped
            (one_block borrowed)
            u
            0
            borrowed
            (delete_message (some 100) ∷ decrement_borrowed_publisher_num ∷ []))
reset-unpublished_example =
    reset-unpublished (one_block borrowed) (one_block-Counted borrowed refl) (omega arith) 0 0 only
      borrowed (one_block-Holds borrowed) refl refl

reset-published_example :
    (u : World) × (reset 0 (one_block published) ≡ ok u)
    × Dropped (one_block published) u 0 published []
reset-published_example =
    reset-published (one_block published) (one_block-Counted published refl) (omega arith) 0 0 only
      published (one_block-Holds published) refl refl

-- Two blocks, at 0 and 1, with a handle each.
abbrev two_blocks : World
two_blocks = record {
  next = 2;
  block = λ a. if a == 0 then some borrowed else if a == 1 then some received else none;
  handles = only ∷ record { ptr = some 200; control = some 1; is_void = false } ∷ [];
  events = [];
}

two_blocks-Counted : Counted two_blocks
unfolding refs
two_blocks-Counted = record { counts = λ a. ground arith; fresh = λ a h. ground arith }

invalidate-copies_example :
    (u : World) × (invalidate_all_references 0 (one_block borrowed) ≡ ok u)
    × (get 0 u ≡ ok none)
    × (to_bool 0 u ≡ ok false)
    × (dereference 0 u ≡ terminate)
    × (u.handles ≡ only ∷ [])
    × (u.events ≡ [])
invalidate-copies_example =
    invalidate-copies (one_block borrowed) (one_block-Counted borrowed refl) (omega arith) 0 0 only
      borrowed (one_block-Holds borrowed) 0 only refl refl

invalidate-others_example :
    (u : World) × (invalidate_all_references 0 two_blocks ≡ ok u)
    × (get 1 u ≡ get 1 two_blocks)
    × (to_bool 1 u ≡ to_bool 1 two_blocks)
    × (dereference 1 u ≡ dereference 1 two_blocks)
invalidate-others_example =
    invalidate-others two_blocks two_blocks-Counted (omega arith) 0 0 only borrowed
      (record { found = refl; owned = refl; there = refl }) 1
      (record { ptr = some 200; control = some 1; is_void = false }) refl
      (λ e. absurd (ground arith))

alias-delete_example :
    events_of (
      run
        (Op.alias_copy 0 false (some 104) ∷ Op.destroy 0 ∷ Op.destroy 1 ∷ [])
        (one_block borrowed))
    ≡ some (delete_message (some 104) ∷ decrement_borrowed_publisher_num ∷ [])
alias-delete_example =
    alias-delete (one_block borrowed) 0 0 only borrowed (some 104) (one_block-Holds borrowed) refl
      refl refl

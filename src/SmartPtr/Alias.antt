-- ===== src/SmartPtr/Alias.antt =====
-- The aliasing constructors and the pointer that `reset` deletes.
use agnocast.Prelude.{
  ℕ, ◌≡◌, refl, ◌∙◌, true, false, Option, none, some, List, [], ◌∷◌, ◌++◌, arith, length, get_elem?,
  set, get_elem?-set_ne,
}
use agnocast.SmartPtr.Defs.{
  ControlBlock, Handle, Event, decrement_borrowed_publisher_num, delete_message, World, Outcome, ok,
  terminate, fault, no_object, Op, run, entry_id_not_assigned,
}
use agnocast.SmartPtr.Release.{Holds}
use agnocast.SmartPtr.Counting.{get_elem?-lt}
use agnocast.SmartPtr.Ownership.{get_elem?-append}

abbrev pub events_of : Outcome World → Option (List Event)
events_of (ok w) = some w.events
events_of terminate = none
events_of fault = none
events_of no_object = none

get_elem?-last {ℓ} :
    {A : Type ℓ} (xs : List A) (x : A) → get_elem? (xs ++ x ∷ []) (length xs) ≡ some x
get_elem?-last [] x = refl
get_elem?-last (y ∷ xs) x = get_elem?-last xs x

-- If the only handle of a message that was borrowed and not published is aliased, with a type other than
-- void, and then dropped, and the alias is dropped last, the pointer that is deleted is the one the alias stores, whatever
-- the message's own address was.
pub alias-delete :
    (w : World) (i a : ℕ) (h : Handle) (b : ControlBlock) (p : Option ℕ)
    → Holds w i a h b
    → b.ref_count ≡ 1
    → b.entry_id ≡ entry_id_not_assigned
    → b.valid ≡ true
    → events_of
        (run (Op.alias_copy i false p ∷ Op.destroy i ∷ Op.destroy (length w.handles) ∷ []) w)
      ≡ some (delete_message p ∷ decrement_borrowed_publisher_num ∷ w.events)
unfolding run
alias-delete w i a h b p holds one e v =
    ground (arith, holds.found, holds.owned, holds.there, first, second)
  where
    n : Handle
    n = record { ptr = p; control = h.control; is_void = false }

    o : Handle
    o = record { ptr = none; control = none; is_void = h.is_void }

    first : get_elem? (w.handles ++ n ∷ []) i ≡ some h
    first = get_elem?-append w.handles (n ∷ []) i holds.found

    second : get_elem? (set (w.handles ++ n ∷ []) i o) (length w.handles) ≡ some n
    second =
        get_elem?-set_ne (w.handles ++ n ∷ []) i (length w.handles) o
          (ground (arith, get_elem?-lt w.handles i holds.found))
        ∙ get_elem?-last w.handles n

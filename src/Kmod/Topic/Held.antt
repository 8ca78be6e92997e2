-- ===== src/Kmod/Topic/Held.antt =====
-- A message that a subscriber references stays where it is: the loops over the entries.
pub mod Calls
pub mod Run
use agnocast.Prelude.{
  ℕ, zero, suc, ◌+◌, ◌-◌, ◌≤◌, ◌<◌, ◌≡◌, ◌≢◌, refl, sym, ap, ◌∙◌, Bool, true, false, ◌&&◌, ◌||◌,
  not, Option, none, some, List, [], ◌∷◌, ◌++◌, arith, ltb, leb, ◌==◌, if◌then◌else◌, Bool-cases,
  Option-cases, inl, inr,
}
use agnocast.Kmod.State.{
  Topic, Entry, Publisher, Subscriber, Env, Errno, max_topic_local_id, max_receive_num,
}
use agnocast.Kmod.Lists.{contains, remove, contains-remove, select, all, reverse}
use agnocast.Kmod.Topic.Delivery.{
  find_entry, is_referenced, find_publisher, Delivery, deliver, skip, no_publisher,
  is_entry_deliverable, find_process, find_subscriber,
}
use agnocast.Kmod.Topic.Publish.{
  new_entry, insert_message_entry, release_loop, release_msgs_to_meet_depth, publish_checked,
  publish_msg,
}
use agnocast.Kmod.Topic.Receive.{
  mark, fill, reference_error, receive_msg_core, receive_msg, update_latest, walk_back, Found,
  Candidate, candidate, lost, found, missing, receive_found, take_found, oldest_wanted, take_msg,
  take_candidate, search_back, claim, last_id,
}
use agnocast.Kmod.Topic.Release.{clear, unmark, release_reference}
use agnocast.Kmod.Topic.Remove.{
  stays, sweep, drop_publisher, drop_publishers, publisher_ids, subscriber_ids, publisher_exit,
  sweep_all, swept, subscriber_exit, process_exit, remove_subscriber, remove_publisher,
  unlink_subscriber, publisher_exited, count_down,
}
use agnocast.Kmod.Topic.Insert.{insert_subscriber_info, insert_publisher_info, link_subscriber}
use agnocast.Kmod.Topic.Steps.{
  Op, add_subscriber, add_publisher, publish, receive, take, release, leave_subscriber,
  leave_publisher, exit, step, run, drops,
}

-- The first entry of the id is referenced by the subscriber and holds the message at the address.
unfoldable pub holds : ℕ → ℕ → ℕ → List Entry → Bool
holds sub id address [] = false
holds sub id address (e ∷ r) =
    let rest = holds sub id address r in
    if e.entry_id == id then contains sub e.referencing && (e.address == address) else rest

pub holds-append :
    (sub id a : ℕ) (l r : List Entry) → holds sub id a l ≡ true → holds sub id a (l ++ r) ≡ true
unfolding holds
holds-append sub id a [] r h = cc
holds-append sub id a (e ∷ l) r h = ground (arith, holds-append sub id a l r)

pub holds-mark :
    (sub id a s i : ℕ) (l : List Entry)
    → holds sub id a l ≡ true
    → holds sub id a (mark s i l) ≡ true
unfolding holds mark
holds-mark sub id a s i [] h = cc
holds-mark sub id a s i (e ∷ l) h = ground (arith, holds-mark sub id a s i l)

pub holds-unmark :
    (sub id a s i : ℕ) (l : List Entry)
    → (s == sub) && (i == id) ≡ false
    → holds sub id a l ≡ true
    → holds sub id a (unmark s i l) ≡ true
unfolding holds unmark
holds-unmark sub id a s i [] d h = cc
holds-unmark sub id a s i (e ∷ l) d h =
    ground (arith, holds-unmark sub id a s i l d, contains-remove sub s e.referencing)

pub holds-select-stays :
    (sub id a p : ℕ) (l : List Entry)
    → holds sub id a l ≡ true
    → holds sub id a (select (stays p) l) ≡ true
unfolding holds select
holds-select-stays sub id a p [] h = cc
holds-select-stays sub id a p (e ∷ l) h = ground (arith, holds-select-stays sub id a p l)

pub holds-release_loop :
    (sub id a p search budget : ℕ) (l : List Entry)
    → holds sub id a l ≡ true
    → holds sub id a (release_loop p search budget l).2 ≡ true
unfolding holds release_loop
holds-release_loop sub id a p zero budget l h = h
holds-release_loop sub id a p (suc k) zero l h = h
holds-release_loop sub id a p (suc k) (suc b) [] h = cc
holds-release_loop sub id a p (suc k) (suc b) (e ∷ []) h = h
holds-release_loop sub id a p (suc k) (suc b) (e ∷ x ∷ r) h =
    let mine = e.publisher_id == p in
    let free = mine && not (is_referenced e) in
    ground (
      arith,
      holds-release_loop sub id a p (if mine then k else suc k) (if free then b else suc b) (x ∷ r),
    )

unreferenced : (e : Entry) (b : Bool) → not (is_referenced e) && b ≡ true → is_referenced e ≡ false
unreferenced e b h = ground arith

referenced-contains :
    (sub : ℕ) (e : Entry) → is_referenced e ≡ false → contains sub e.referencing ≡ false
referenced-contains sub e h = ground arith

pub holds-sweep :
    (env : Env) (sub id a s : ℕ) (l : List Entry) (pubs : List Publisher)
    → (s == sub) ≡ false
    → holds sub id a l ≡ true
    → holds sub id a (sweep env s l pubs).0 ≡ true
unfolding holds sweep
holds-sweep env sub id a s [] pubs d h = cc
holds-sweep env sub id a s (e ∷ l) pubs d h =
    elim (Bool-cases
      (not (is_referenced (clear s e)) && publisher_exited env e.publisher_id pubs)) [
        | inl g ↦ rw g (
            holds-sweep env sub id a s l (count_down e.publisher_id pubs) d (
              ground (
                arith,
                contains-remove sub s e.referencing,
                referenced-contains sub (clear s e)
                    (unreferenced (clear s e) (publisher_exited env e.publisher_id pubs) g),
              )))
        | inr g ↦ rw g (
            ground
              (arith, contains-remove sub s e.referencing, holds-sweep env sub id a s l pubs d))
      ]

pub holds-fill :
    (env : Env) (t : Topic) (s : Subscriber) (sub id a room : ℕ) (node l : List Entry)
    → holds sub id a l ≡ true
    → holds sub id a (fill env t s room node l).2 ≡ true
unfolding fill
holds-fill env t s sub id a zero node l h = h
holds-fill env t s sub id a (suc room) [] l h = h
holds-fill env t s sub id a (suc room) (e ∷ r) l h = ground (
  arith,
  holds-fill env t s sub id a (suc room) r l h,
  holds-fill env t s sub id a room r (mark s.id e.entry_id l)
      (holds-mark sub id a s.id e.entry_id l h),
)

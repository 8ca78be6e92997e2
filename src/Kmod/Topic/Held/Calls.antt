-- ===== src/Kmod/Topic/Held/Calls.antt =====
-- A message that a subscriber references stays where it is: each call.
use agnocast.Prelude.{
  Option, ℕ, ◌+◌, ◌-◌, ◌≡◌, refl, Bool, true, false, ◌&&◌, not, none, some, List, [], ◌∷◌, arith,
  leb, ltb, ◌&&◌, ◌==◌, if◌then◌else◌, Option-cases, inl, inr,
}
use agnocast.Kmod.State.{
  Errno, Topic, Entry, Publisher, Subscriber, Env, max_topic_local_id, max_receive_num,
}
use agnocast.Kmod.Lists.{contains, select, reverse}
use agnocast.Kmod.Topic.Delivery.{find_publisher, find_process, find_subscriber}
use agnocast.Kmod.Topic.Publish.{
  new_entry, insert_message_entry, release_msgs_to_meet_depth, publish_checked, publish_msg,
}
use agnocast.Kmod.Topic.Receive.{
  is_cut, settled, fill, receive_msg_core, receive_msg, update_latest, walk_back, Found, Candidate,
  candidate, lost, found, missing, receive_found, take_found, oldest_wanted, take_msg,
  take_candidate, search_back,
}
use agnocast.Kmod.Topic.Release.{release_reference}
use agnocast.Kmod.Topic.Remove.{
  drop_publisher, drop_publishers, publisher_ids, subscriber_ids, publisher_exit, sweep_all, swept,
  subscriber_exit, process_exit, remove_subscriber, remove_publisher, unlink_subscriber,
}
use agnocast.Kmod.Topic.Insert.{insert_subscriber_info, insert_publisher_info, link_subscriber}
use agnocast.Kmod.State.{max_release_num}
use agnocast.Kmod.Topic.Notify.{rebuild_all_notify_lists}
use agnocast.Kmod.Topic.Insert.{SubscriberArgs, PublisherArgs}
use agnocast.Kmod.Topic.Held.{
  holds, holds-append, holds-mark, holds-unmark, holds-select-stays, holds-release_loop,
  holds-sweep, holds-fill,
}

module _ (sub id a : ℕ) where
  abbrev pub Holds : Topic → Type 0
  Holds t = holds sub id a t.entries ≡ true

  pub update_latest-Holds :
      (s : ℕ) (l : List Entry) (t : Topic) → Holds t → Holds (update_latest s l t)
  update_latest-Holds s l t h = ground arith

  settled-Holds :
      (s : Subscriber) (t : Topic) (again : Bool) (o : Option Errno) (l r : List Entry)
      → holds sub id a r ≡ true
      → Holds (settled s t again (o, l, r)).topic
  settled-Holds s t again none l r h = update_latest-Holds s.id l (record t { entries = r }) h
  settled-Holds s t again (some err) l r h = h

  receive_found-Holds :
      (env : Env) (s : Subscriber) (t : Topic) (f : Found)
      → Holds t
      → Holds (receive_found env s t f).topic
  unfolding receive_found
  receive_found-Holds env s t missing h = h
  receive_found-Holds env s t (found node num) h =
      let filled = fill env t s max_receive_num node t.entries in
      settled-Holds s t (is_cut env t s max_receive_num node && ltb max_receive_num num) filled.0
        filled.1 filled.2 (holds-fill env t s sub id a max_receive_num node t.entries h)

  pub receive-Holds : (env : Env) (s : ℕ) (t : Topic) → Holds t → Holds (receive_msg env s t).topic
  unfolding receive_msg receive_msg_core
  receive-Holds env s t h = elim (Option-cases (find_subscriber s t.subscribers)) [
    | inl e ↦ rw (e, receive_msg) h
    | inr (x, e) ↦
        rw (e, receive_msg)
          (ground (
            arith,
            receive_found-Holds env x t
                (walk_back env t x (oldest_wanted x.latest_received) (reverse t.entries) [] [] 0) h,
          ))
  ]

  pub take_found-Holds :
      (s : Subscriber) (b : Bool) (t : Topic) (c : Candidate)
      → Holds t
      → Holds (take_found s b t c).topic
  unfolding take_found take_candidate
  take_found-Holds s b t lost h = h
  take_found-Holds s b t (candidate none) h = h
  take_found-Holds s b t (candidate (some e)) h =
      ground (arith, holds-mark sub id a s.id e.entry_id t.entries h)

  pub take-Holds :
      (env : Env) (s : ℕ) (b : Bool) (t : Topic) → Holds t → Holds (take_msg env s b t).topic
  unfolding take_msg
  take-Holds env s b t h = elim (Option-cases (find_subscriber s t.subscribers)) [
    | inl e ↦ rw (e, take_msg) h
    | inr (x, e) ↦
        rw (e, take_msg)
          (take_found-Holds x b t (search_back env t x b x.qos_depth (reverse t.entries) none) h)
  ]

  pub insert-Holds :
      (p address : ℕ) (t : Topic) → Holds t → Holds (insert_message_entry p address t).1
  unfolding insert_message_entry
  insert-Holds p address t h =
      ground
        (arith, holds-append sub id a t.entries (new_entry t.current_entry_id p address ∷ []) h)

  pub meet_depth-Holds :
      (p : Publisher) (t : Topic) → Holds t → Holds (release_msgs_to_meet_depth p t).topic
  unfolding release_msgs_to_meet_depth
  meet_depth-Holds p t h = ground (
    arith,
    holds-release_loop sub id a p.id (p.entries_num - p.qos_depth) max_release_num t.entries h,
  )

  pub publish-Holds :
      (pool_start : ℕ → ℕ) (pool_size : ℕ) (b : Bool) (env : Env) (p address : ℕ) (t : Topic)
      → Holds t
      → Holds (publish_msg pool_start pool_size b env p address t).topic
  unfolding publish_msg publish_checked
  publish-Holds pool_start pool_size b env p address t h =
      let g : (q : Publisher) → Holds (publish_checked pool_start pool_size q address t).topic =
        λ q. ground (
          arith,
          insert-Holds q.id address t h,
          meet_depth-Holds (record q { entries_num = q.entries_num + 1 })
              (insert_message_entry q.id address t).1,
        ) in
      elim (Option-cases (find_publisher p t.publishers)) [
        | inl e ↦ rw (e, publish_msg) h
        | inr (x, e) ↦
            rw (e, publish_msg)
              (elim (Option-cases (find_process x.pid env.processes)) [
                | inl f ↦ rw f h
                | inr (q, f) ↦ rw f (ground (arith, h, g x))
              ])
      ]

  pub release-Holds :
      (s i : ℕ) (t : Topic)
      → (s == sub) && (i == id) ≡ false
      → Holds t
      → Holds (release_reference s i t).1
  unfolding release_reference
  release-Holds s i t d h = ground (arith, holds-unmark sub id a s i t.entries d h)

  pub unlink-Holds :
      (env : Env) (s : Subscriber) (t : Topic) → Holds t → Holds (unlink_subscriber env s t)
  unfolding unlink_subscriber
  unlink-Holds env s t h = ground arith

  pub swept-Holds :
      (env : Env) (s : ℕ) (t : Topic) → (s == sub) ≡ false → Holds t → Holds (swept env s t)
  swept-Holds env s t d h = holds-sweep env sub id a s t.entries t.publishers d h

  pub remove_subscriber-Holds :
      (env : Env) (s : ℕ) (t : Topic)
      → (s == sub) ≡ false
      → Holds t
      → Holds (remove_subscriber env s t).1
  unfolding remove_subscriber
  remove_subscriber-Holds env s t d h = elim (Option-cases (find_subscriber s t.subscribers)) [
    | inl e ↦ rw (e, remove_subscriber) h
    | inr (x, e) ↦
        rw (e, remove_subscriber)
          (ground (arith, unlink-Holds env x t h, swept-Holds env s (unlink_subscriber env x t) d))
  ]

  pub drop_publisher-Holds : (p : ℕ) (t : Topic) → Holds t → Holds (drop_publisher p t)
  unfolding drop_publisher
  drop_publisher-Holds p t h = holds-select-stays sub id a p t.entries h

  pub remove_publisher-Holds : (p : ℕ) (t : Topic) → Holds t → Holds (remove_publisher p t).1
  unfolding remove_publisher
  remove_publisher-Holds p t h = ground (arith, drop_publisher-Holds p t h)

  pub drop_publishers-Holds : (l : List ℕ) (t : Topic) → Holds t → Holds (drop_publishers l t)
  unfolding drop_publishers
  drop_publishers-Holds [] t h = h
  drop_publishers-Holds (p ∷ l) t h =
      drop_publishers-Holds l (drop_publisher p t) (drop_publisher-Holds p t h)

  pub sweep_all-Holds :
      (env : Env) (l : List ℕ) (t : Topic)
      → contains sub l ≡ false
      → Holds t
      → Holds (sweep_all env l t)
  unfolding sweep_all
  sweep_all-Holds env [] t d h = h
  sweep_all-Holds env (s ∷ l) t d h =
      sweep_all-Holds env l (if leb max_topic_local_id s then t else swept env s t) (ground arith)
        (ground (arith, swept-Holds env s t))

  pub subscriber_exit-Holds :
      (env : Env) (pid : ℕ) (t : Topic)
      → contains sub (subscriber_ids pid t.subscribers) ≡ false
      → Holds t
      → Holds (subscriber_exit env pid t)
  unfolding subscriber_exit
  subscriber_exit-Holds env pid t d h = ground (
    arith,
    sweep_all-Holds env (subscriber_ids pid t.subscribers)
        (rebuild_all_notify_lists env
          (record t { subscribers = select (λ s. not (s.pid == pid)) t.subscribers }))
        d,
  )

  pub subscribers-drop_publishers :
      (l : List ℕ) (t : Topic) → (drop_publishers l t).subscribers ≡ t.subscribers
  unfolding drop_publishers drop_publisher
  subscribers-drop_publishers [] t = refl
  subscribers-drop_publishers (p ∷ l) t = subscribers-drop_publishers l (drop_publisher p t)

  pub exit-Holds :
      (env : Env) (pid : ℕ) (t : Topic)
      → contains sub (subscriber_ids pid t.subscribers) ≡ false
      → Holds t
      → Holds (process_exit env pid t)
  unfolding process_exit publisher_exit
  exit-Holds env pid t d h =
      let ids = publisher_ids pid t.publishers in
      subscriber_exit-Holds env pid (drop_publishers ids t)
        (rw (subscribers-drop_publishers ids t) d) (drop_publishers-Holds ids t h)

  pub add_subscriber-Holds :
      (env : Env) (b : Bool) (f : ℕ → Bool) (x : SubscriberArgs) (t : Topic)
      → Holds t
      → Holds (insert_subscriber_info env b f x t).1
  unfolding insert_subscriber_info link_subscriber
  add_subscriber-Holds env b f x t h = ground arith

  pub add_publisher-Holds :
      (env : Env) (b c : Bool) (x : PublisherArgs) (t : Topic)
      → Holds t
      → Holds (insert_publisher_info env b c x t).1
  unfolding insert_publisher_info
  add_publisher-Holds env b c x t h = ground arith

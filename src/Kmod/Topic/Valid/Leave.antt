-- ===== src/Kmod/Topic/Valid/Leave.antt =====
-- A release of a reference, the removal of an endpoint and the exit of a process keep a topic well formed.
use agnocast.Prelude.{
  ℕ, ◌≡◌, ◌∙◌, Bool, true, ◌&&◌, ◌||◌, not, List, [], ◌∷◌, arith, ltb, leb, ◌==◌, if◌then◌else◌,
  Option-cases, inl, inr,
}
use agnocast.Kmod.State.{Topic, Entry, Subscriber, Env, max_topic_local_id}
use agnocast.Kmod.Lists.{all, select}
use agnocast.Kmod.Topic.Delivery.{find_subscriber}
use agnocast.Kmod.Topic.Notify.{rebuild_all_notify_lists}
use agnocast.Kmod.Topic.Receive.{oldest_wanted}
use agnocast.Kmod.Topic.Release.{unmark, release_reference}
use agnocast.Kmod.Topic.Remove.{
  sweep, swept, drop_subscriber, unlink_subscriber, remove_subscriber, stays, leaving_num,
  drop_publisher, remove_publisher, publisher_ids, subscriber_ids, drop_publishers, publisher_exit,
  sweep_all, subscriber_exit, process_exit,
}
use agnocast.Kmod.Topic.Depth.{own_num}
use agnocast.Kmod.Topic.Window.{all-imply}
use agnocast.Kmod.Topic.Window.Receive.{is_unclaimed}
use agnocast.Kmod.Topic.Valid.{fresh_from, refers_below, IsValid}
use agnocast.Kmod.Topic.Valid.Entries.{
  ascending-unmark, ids-unmark, ascending-sweep, ids-sweep, ascending-select, all-select,
}
use agnocast.Kmod.Topic.Valid.Refs.{fresh-unmark, fresh-sweep, refers-unmark, refers-sweep}
use agnocast.Kmod.Topic.Valid.Counts.{own_num-unmark, own_num-stays}
use agnocast.Kmod.Topic.Valid.Publishers.{counts-settle, distinct-settle, below-settle}
use agnocast.Kmod.Topic.Valid.Sweep.{
  sweep-counts, distinct-sweep, below-sweep, counts-rebuild, distinct-rebuild, below-rebuild,
}

-- Freshness, where the entries change.
fresh-map :
    (l r : List Entry) (subs : List Subscriber)
    → ((w s : ℕ) → fresh_from w s l ≡ true → fresh_from w s r ≡ true)
    → all (λ s. fresh_from (oldest_wanted s.latest_received) s.id l) subs ≡ true
    → all (λ s. fresh_from (oldest_wanted s.latest_received) s.id r) subs ≡ true
fresh-map l r subs f h =
    all-imply (λ (s : Subscriber). fresh_from (oldest_wanted s.latest_received) s.id l)
      (λ (s : Subscriber). fresh_from (oldest_wanted s.latest_received) s.id l)
      (λ (s : Subscriber). fresh_from (oldest_wanted s.latest_received) s.id r) subs
      (λ s a b. f (oldest_wanted s.latest_received) s.id b) h h

unmarked-IsValid :
    (sub id : ℕ) (t : Topic) → IsValid t → IsValid (record t { entries = unmark sub id t.entries })
unmarked-IsValid sub id t v = record {
  ordered = ascending-unmark sub id t.entries v.ordered;
  ids_below = ids-unmark (λ n. ltb n t.current_entry_id) sub id t.entries v.ids_below;
  counted = λ i. rw (own_num-unmark i sub id t.entries) (v.counted i);
  separate = v.separate;
  publishers_below = v.publishers_below;
  subscribers_below = v.subscribers_below;
  bits_below = refers-unmark t.current_pubsub_id sub id t.entries v.bits_below;
  fresh =
      fresh-map t.entries (unmark sub id t.entries) t.subscribers
        (λ w s. fresh-unmark w s sub id t.entries) v.fresh;
}

pub release-IsValid : (sub id : ℕ) (t : Topic) → IsValid t → IsValid (release_reference sub id t).1
unfolding release_reference
release-IsValid sub id t v = ground (arith, v, unmarked-IsValid sub id t v)

swept-IsValid : (env : Env) (sub : ℕ) (t : Topic) → IsValid t → IsValid (swept env sub t)
swept-IsValid env sub t v =
    let after = (sweep env sub t.entries t.publishers).0 in
    record {
      ordered = ascending-sweep env sub t.entries t.publishers v.ordered;
      ids_below =
          ids-sweep (λ n. ltb n t.current_entry_id) env sub t.entries t.publishers v.ids_below;
      counted = λ i. ground (
        arith,
        sweep-counts env sub i t.entries t.publishers (λ n. 0) v.separate
            (λ j. ground (arith, v.counted j)),
      );
      separate = distinct-sweep env sub t.entries t.publishers v.separate;
      publishers_below =
          below-sweep t.current_pubsub_id env sub t.entries t.publishers v.publishers_below;
      subscribers_below = v.subscribers_below;
      bits_below = refers-sweep env t.current_pubsub_id sub t.entries t.publishers v.bits_below;
      fresh =
          fresh-map t.entries after t.subscribers
            (λ w s. fresh-sweep env w s sub t.entries t.publishers) v.fresh;
    }

selected-IsValid :
    (q : Subscriber → Bool) (t : Topic)
    → IsValid t
    → IsValid (record t { subscribers = select q t.subscribers })
selected-IsValid q t v = record {
  ordered = v.ordered;
  ids_below = v.ids_below;
  counted = v.counted;
  separate = v.separate;
  publishers_below = v.publishers_below;
  subscribers_below =
      all-select (λ (s : Subscriber). ltb s.id t.current_pubsub_id && ltb s.id max_topic_local_id) q
        t.subscribers v.subscribers_below;
  bits_below = v.bits_below;
  fresh =
      all-select (λ (s : Subscriber). fresh_from (oldest_wanted s.latest_received) s.id t.entries) q
        t.subscribers v.fresh;
}

pub rebuilt-IsValid : (env : Env) (t : Topic) → IsValid t → IsValid (rebuild_all_notify_lists env t)
rebuilt-IsValid env t v = record {
  ordered = v.ordered;
  ids_below = v.ids_below;
  counted = λ i. counts-rebuild env t i t.publishers (own_num i t.entries) ∙ v.counted i;
  separate = distinct-rebuild env t t.publishers v.separate;
  publishers_below = below-rebuild t.current_pubsub_id env t t.publishers v.publishers_below;
  subscribers_below = v.subscribers_below;
  bits_below = v.bits_below;
  fresh = v.fresh;
}

unlinked-IsValid :
    (env : Env) (s : Subscriber) (t : Topic) → IsValid t → IsValid (unlink_subscriber env s t)
unfolding unlink_subscriber
unlinked-IsValid env s t v =
    let u = selected-IsValid (λ x. not (x.id == s.id)) t v in
    ground (
      arith,
      u,
      rebuilt-IsValid env (record t { subscribers = drop_subscriber s.id t.subscribers }) u,
    )

pub remove_subscriber-IsValid :
    (env : Env) (sub : ℕ) (t : Topic) → IsValid t → IsValid (remove_subscriber env sub t).1
unfolding remove_subscriber
remove_subscriber-IsValid env sub t v = elim (Option-cases (find_subscriber sub t.subscribers)) [
  | inl e ↦ rw (e, remove_subscriber) v
  | inr (s, e) ↦
      let u = unlinked-IsValid env s t v in
      rw (e, remove_subscriber)
        (ground (arith, u, swept-IsValid env sub (unlink_subscriber env s t) u))
]

dropped-IsValid : (id : ℕ) (t : Topic) → IsValid t → IsValid (drop_publisher id t)
unfolding drop_publisher
dropped-IsValid id t v =
    let k = leaving_num id t.entries in
    record {
      ordered = ascending-select (stays id) t.entries v.ordered;
      ids_below =
          all-select (λ (e : Entry). ltb e.entry_id t.current_entry_id) (stays id) t.entries
            v.ids_below;
      counted = λ i. ground (
        arith,
        own_num-stays i id t.entries,
        counts-settle i id k t.publishers (own_num i t.entries) v.separate (v.counted i),
      );
      separate = distinct-settle id k t.publishers v.separate;
      publishers_below = below-settle t.current_pubsub_id id k t.publishers v.publishers_below;
      subscribers_below = v.subscribers_below;
      bits_below = all-select (refers_below t.current_pubsub_id) (stays id) t.entries v.bits_below;
      fresh =
          fresh-map t.entries (select (stays id) t.entries) t.subscribers
            (λ w s.
              all-select (λ (e : Entry). ltb e.entry_id w || is_unclaimed s e) (stays id) t.entries)
            v.fresh;
    }

pub remove_publisher-IsValid : (id : ℕ) (t : Topic) → IsValid t → IsValid (remove_publisher id t).1
unfolding remove_publisher
remove_publisher-IsValid id t v = ground (arith, v, dropped-IsValid id t v)

drop_publishers-IsValid : (l : List ℕ) (t : Topic) → IsValid t → IsValid (drop_publishers l t)
unfolding drop_publishers
drop_publishers-IsValid [] t v = v
drop_publishers-IsValid (id ∷ l) t v =
    drop_publishers-IsValid l (drop_publisher id t) (dropped-IsValid id t v)

sweep_all-IsValid : (env : Env) (l : List ℕ) (t : Topic) → IsValid t → IsValid (sweep_all env l t)
unfolding sweep_all
sweep_all-IsValid env [] t v = v
sweep_all-IsValid env (id ∷ l) t v =
    sweep_all-IsValid env l (if leb max_topic_local_id id then t else swept env id t)
      (ground (arith, v, swept-IsValid env id t v))

subscriber_exit-IsValid :
    (env : Env) (pid : ℕ) (t : Topic) → IsValid t → IsValid (subscriber_exit env pid t)
unfolding subscriber_exit
subscriber_exit-IsValid env pid t v =
    let left = record t { subscribers = select (λ s. not (s.pid == pid)) t.subscribers } in
    ground (
      arith,
      v,
      sweep_all-IsValid env (subscriber_ids pid t.subscribers) (rebuild_all_notify_lists env left)
          (rebuilt-IsValid env left (selected-IsValid (λ s. not (s.pid == pid)) t v)),
    )

pub exit-IsValid : (env : Env) (pid : ℕ) (t : Topic) → IsValid t → IsValid (process_exit env pid t)
unfolding process_exit publisher_exit
exit-IsValid env pid t v =
    let ids = publisher_ids pid t.publishers in
    subscriber_exit-IsValid env pid (drop_publishers ids t) (drop_publishers-IsValid ids t v)

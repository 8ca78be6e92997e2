-- ===== src/Kmod/Topic/Valid/Join.antt =====
-- A registration keeps a topic well formed.
use agnocast.Prelude.{
  ℕ, ◌+◌, ◌≡◌, refl, ◌∙◌, Bool, true, ◌&&◌, none, List, [], ◌∷◌, arith, ltb, if◌then◌else◌,
}
use agnocast.Kmod.State.{Topic, Publisher, Subscriber, Env, max_topic_local_id}
use agnocast.Kmod.Lists.{all}
use agnocast.Kmod.Topic.Delivery.{find_publisher}
use agnocast.Kmod.Topic.Notify.{
  reserve_all, reserve_notify_ctxs, notify_list, notifiable_subscriber_num,
}
use agnocast.Kmod.Topic.Insert.{
  SubscriberArgs, PublisherArgs, new_subscriber, link_subscriber, insert_subscriber_info,
  new_publisher, insert_publisher_info,
}
use agnocast.Kmod.Topic.Receive.{oldest_wanted}
use agnocast.Kmod.Topic.Depth.{own_num}
use agnocast.Kmod.Topic.Valid.{distinct, IsValid}
use agnocast.Kmod.Topic.Valid.Refs.{fresh-new, refers-suc}
use agnocast.Kmod.Topic.Valid.Publish.{below-next}
use agnocast.Kmod.Topic.Valid.Leave.{rebuilt-IsValid}
use agnocast.Kmod.Topic.Valid.Sweep.{counts-reserve, distinct-reserve, below-reserve}

publishers-suc :
    (n : ℕ) (l : List Publisher)
    → all (λ p. ltb p.id n) l ≡ true
    → all (λ p. ltb p.id (n + 1)) l ≡ true
unfolding all
publishers-suc n [] h = refl
publishers-suc n (p ∷ l) h = ground (arith, publishers-suc n l)

subscribers-suc :
    (n : ℕ) (l : List Subscriber)
    → all (λ s. ltb s.id n && ltb s.id max_topic_local_id) l ≡ true
    → all (λ s. ltb s.id (n + 1) && ltb s.id max_topic_local_id) l ≡ true
unfolding all
subscribers-suc n [] h = refl
subscribers-suc n (s ∷ l) h = ground (arith, subscribers-suc n l)

-- An id from `n` on is not that of a publisher.
below-none :
    (n : ℕ) (l : List Publisher) → all (λ p. ltb p.id n) l ≡ true → find_publisher n l ≡ none
unfolding all find_publisher
below-none n [] h = refl
below-none n (p ∷ l) h = ground (arith, below-none n l)

linked-IsValid :
    (env : Env) (a : SubscriberArgs) (t : Topic)
    → ltb t.current_pubsub_id max_topic_local_id ≡ true
    → IsValid t
    → IsValid (link_subscriber env a t)
unfolding link_subscriber all
linked-IsValid env a t b v =
    let n = t.current_pubsub_id in
    let s = new_subscriber a n t.current_entry_id in
    let linked = record t {
      subscribers = s ∷ t.subscribers;
      current_pubsub_id = n + 1;
      current_entry_id =
          if a.is_transient_local then t.current_entry_id else t.current_entry_id + 1;
    } in
    let u : IsValid linked = record {
      ordered = v.ordered;
      ids_below = ground (arith, v.ids_below, below-next t.current_entry_id t.entries v.ids_below);
      counted = v.counted;
      separate = v.separate;
      publishers_below = publishers-suc n t.publishers v.publishers_below;
      subscribers_below = ground (arith, subscribers-suc n t.subscribers v.subscribers_below);
      bits_below = refers-suc n t.entries v.bits_below;
      fresh = rw (fresh-new (oldest_wanted s.latest_received) n t.entries b v.bits_below) v.fresh;
    } in
    ground (arith, u, rebuilt-IsValid env linked u)

reserved-IsValid :
    (f : ℕ → Bool) (k : ℕ) (t : Topic)
    → IsValid t
    → IsValid (record t { publishers = (reserve_all f k t.publishers).1 })
reserved-IsValid f k t v = record {
  ordered = v.ordered;
  ids_below = v.ids_below;
  counted = λ i. counts-reserve f k i t.publishers (own_num i t.entries) ∙ v.counted i;
  separate = distinct-reserve f k t.publishers v.separate;
  publishers_below = below-reserve t.current_pubsub_id f k t.publishers v.publishers_below;
  subscribers_below = v.subscribers_below;
  bits_below = v.bits_below;
  fresh = v.fresh;
}

pub add_subscriber-IsValid :
    (env : Env) (allocates : Bool) (reserves : ℕ → Bool) (a : SubscriberArgs) (t : Topic)
    → IsValid t
    → IsValid (insert_subscriber_info env allocates reserves a t).1
unfolding insert_subscriber_info
add_subscriber-IsValid env x f a t v =
    let k = notifiable_subscriber_num t.subscribers + 1 in
    let u = reserved-IsValid f k t v in
    ground (
      arith,
      v,
      u,
      linked-IsValid env a t,
      linked-IsValid env a (record t { publishers = (reserve_all f k t.publishers).1 }),
    )

joined-IsValid :
    (t : Topic) (p : Publisher)
    → p.id ≡ t.current_pubsub_id
    → p.entries_num ≡ 0
    → IsValid t
    → IsValid
        (record t { current_pubsub_id = t.current_pubsub_id + 1; publishers = p ∷ t.publishers })
unfolding find_publisher distinct all
joined-IsValid t p e z v =
    let n = t.current_pubsub_id in
    let absent = below-none n t.publishers v.publishers_below in
    record {
      ordered = v.ordered;
      ids_below = v.ids_below;
      counted = λ i. ground (arith, v.counted i, absent);
      separate = ground (arith, absent, v.separate);
      publishers_below = ground (arith, publishers-suc n t.publishers v.publishers_below);
      subscribers_below = subscribers-suc n t.subscribers v.subscribers_below;
      bits_below = refers-suc n t.entries v.bits_below;
      fresh = v.fresh;
    }

used-IsValid :
    (t : Topic) → IsValid t → IsValid (record t { current_pubsub_id = t.current_pubsub_id + 1 })
used-IsValid t v =
    let n = t.current_pubsub_id in
    record {
      ordered = v.ordered;
      ids_below = v.ids_below;
      counted = v.counted;
      separate = v.separate;
      publishers_below = publishers-suc n t.publishers v.publishers_below;
      subscribers_below = subscribers-suc n t.subscribers v.subscribers_below;
      bits_below = refers-suc n t.entries v.bits_below;
      fresh = v.fresh;
    }

reserve_lem :
    (f : Bool) (k : ℕ) (p : Publisher)
    → ((reserve_notify_ctxs f k p).1.id ≡ p.id)
      × ((reserve_notify_ctxs f k p).1.entries_num ≡ p.entries_num)
unfolding reserve_notify_ctxs
reserve_lem f k p = ground arith

pub add_publisher-IsValid :
    (env : Env) (allocates reserves : Bool) (a : PublisherArgs) (t : Topic)
    → IsValid t
    → IsValid (insert_publisher_info env allocates reserves a t).1
unfolding insert_publisher_info
add_publisher-IsValid env x f a t v =
    let k = notifiable_subscriber_num t.subscribers in
    let facts = reserve_lem f k (new_publisher a t.current_pubsub_id) in
    let p = (reserve_notify_ctxs f k (new_publisher a t.current_pubsub_id)).1 in
    ground (
      arith,
      v,
      used-IsValid t v,
      joined-IsValid t
          (record p { notify_ctxs = notify_list env t p p.notify_capacity t.subscribers }) facts.0
          facts.1 v,
    )

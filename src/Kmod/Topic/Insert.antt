-- ===== src/Kmod/Topic/Insert.antt =====
-- agnocast_ioctl.c: `insert_subscriber_info` and `insert_publisher_info`, which a registration runs on the
-- topic. `allocates` and `reserves` say which allocations succeed, the second by the publisher's id.
use Prim.Native.String.{String}
use agnocast.Prelude.{
  ℕ, ◌+◌, Bool, true, not, Option, none, some, [], ◌∷◌, leb, ◌==◌, if◌then◌else◌, length,
}
use agnocast.Kmod.State.{
  Publisher, Subscriber, Topic, Env, Errno, enobufs, enospc, enomem, max_publisher_num,
  max_subscriber_num, max_topic_local_id,
}
use agnocast.Kmod.Topic.Notify.{
  notifiable_subscriber_num, reserve_notify_ctxs, reserve_all, notify_list, rebuild_lists,
  rebuild_all_notify_lists,
}

-- The arguments of a registration.
pub record SubscriberArgs : Type 0 where
  pub domain_id : ℕ
  pub pid : ℕ
  pub qos_depth : ℕ
  pub is_transient_local : Bool
  pub is_reliable : Bool
  pub node_name : String
  pub is_take_sub : Bool
  pub ignores_local : Bool
  pub is_bridge : Bool
  pub notify_ctx : Option ℕ

pub record PublisherArgs : Type 0 where
  pub domain_id : ℕ
  pub pid : ℕ
  pub qos_depth : ℕ
  pub is_transient_local : Bool
  pub node_name : String
  pub is_bridge : Bool

-- The entry ids before `current` count as received by a volatile subscriber, which takes `current` for
-- itself.
abbrev pub new_subscriber : SubscriberArgs → ℕ → ℕ → Subscriber
new_subscriber a id current = record {
  id = id;
  domain_id = a.domain_id;
  pid = a.pid;
  qos_depth = a.qos_depth;
  is_transient_local = a.is_transient_local;
  is_reliable = a.is_reliable;
  latest_received = if a.is_transient_local then none else some current;
  node_name = a.node_name;
  is_take_sub = a.is_take_sub;
  ignores_local = a.ignores_local;
  need_mmap_update = true;
  is_bridge = a.is_bridge;
  notify_ctx = a.notify_ctx;
}

-- The subscriber is linked; the publishers' lists have the room they need.
unfoldable pub link_subscriber : Env → SubscriberArgs → Topic → Topic
unfolding rebuild_lists
link_subscriber env a t =
    let linked = record t {
      subscribers = new_subscriber a t.current_pubsub_id t.current_entry_id ∷ t.subscribers;
      current_pubsub_id = t.current_pubsub_id + 1;
      current_entry_id =
          if a.is_transient_local then t.current_entry_id else t.current_entry_id + 1;
    } in
    elim a.notify_ctx [ none ↦ linked | some c ↦ rebuild_all_notify_lists env linked ]

unfoldable pub insert_subscriber_info :
    Env → Bool → (ℕ → Bool) → SubscriberArgs → Topic → Option Errno × Topic
unfolding notifiable_subscriber_num reserve_all link_subscriber
insert_subscriber_info env allocates reserves a t =
    if length t.subscribers == max_subscriber_num
    then (some enobufs, t)
    else if leb max_topic_local_id t.current_pubsub_id
    then (some enospc, t)
    else if not allocates
    then (some enomem, t)
    else elim a.notify_ctx [
      | none ↦ (none, link_subscriber env a t)
      | some c ↦
          let reserved =
            reserve_all reserves (notifiable_subscriber_num t.subscribers + 1) t.publishers in
          elim (reserved.0) [
            | some err ↦ (some err, record t { publishers = reserved.1 })
            | none ↦ (none, link_subscriber env a (record t { publishers = reserved.1 }))
          ]
    ]

abbrev pub new_publisher : PublisherArgs → ℕ → Publisher
new_publisher a id = record {
  id = id;
  domain_id = a.domain_id;
  pid = a.pid;
  node_name = a.node_name;
  qos_depth = a.qos_depth;
  is_transient_local = a.is_transient_local;
  entries_num = 0;
  is_bridge = a.is_bridge;
  notify_ctxs = [];
  notify_capacity = 0;
}

-- The id is used up also where the list cannot be reserved.
unfoldable pub insert_publisher_info :
    Env → Bool → Bool → PublisherArgs → Topic → Option Errno × Topic
unfolding notifiable_subscriber_num reserve_notify_ctxs notify_list
insert_publisher_info env allocates reserves a t =
    if length t.publishers == max_publisher_num
    then (some enobufs, t)
    else if leb max_topic_local_id t.current_pubsub_id
    then (some enospc, t)
    else if not allocates
    then (some enomem, t)
    else let counted = record t { current_pubsub_id = t.current_pubsub_id + 1 } in
      let reserved =
        reserve_notify_ctxs reserves (notifiable_subscriber_num t.subscribers)
          (new_publisher a t.current_pubsub_id) in
      let p = reserved.1 in
      elim (reserved.0) [
        | some err ↦ (some err, counted)
        | none ↦ (
          none,
          record counted {
            publishers =
                record p { notify_ctxs = notify_list env t p p.notify_capacity t.subscribers }
                ∷ t.publishers;
          },
        )
      ]

-- ===== src/Kmod/Topic/Remove.antt =====
-- agnocast_ioctl.c and agnocast_internal.c: how endpoints leave a topic, by their removal or by the exit of
-- their process.
use agnocast.Prelude.{
  ℕ, ◌+◌, ◌-◌, Bool, true, false, ◌&&◌, not, Option, none, some, List, [], ◌∷◌, leb, ◌==◌,
  if◌then◌else◌, map,
}
use agnocast.Kmod.State.{
  Publisher, Subscriber, Entry, Topic, Env, Errno, einval, enodata, max_topic_local_id,
}
use agnocast.Kmod.Lists.{remove, select}
use agnocast.Kmod.Topic.Delivery.{find_publisher, find_subscriber, is_alive, is_referenced}
use agnocast.Kmod.Topic.Notify.{rebuild_lists, rebuild_all_notify_lists}
use agnocast.Kmod.Topic.Release.{clear}

abbrev pub drop_subscriber : ℕ → List Subscriber → List Subscriber
drop_subscriber id = select (λ s. not (s.id == id))

-- One entry of the publisher is gone: it is counted, and the last one takes the publisher with it.
unfoldable pub count_down : ℕ → List Publisher → List Publisher
count_down id [] = []
count_down id (p ∷ r) =
    let rest = count_down id r in
    if p.id == id
    then (if p.entries_num == 1 then rest else record p { entries_num = p.entries_num - 1 } ∷ rest)
    else p ∷ rest

-- The publisher of an entry has exited.
abbrev pub publisher_exited : Env → ℕ → List Publisher → Bool
publisher_exited env id l = elim (find_publisher id l) [
  | none ↦ false
  | some p ↦ not (is_alive env p.pid)
]

-- The walk over the entries when a subscriber leaves.
unfoldable pub sweep : Env → ℕ → List Entry → List Publisher → List Entry × List Publisher
unfolding find_publisher is_alive count_down remove
sweep env sub [] pubs = ([], pubs)
sweep env sub (e ∷ r) pubs =
    let gone = not (is_referenced (clear sub e)) && publisher_exited env e.publisher_id pubs in
    let rest = sweep env sub r (if gone then count_down e.publisher_id pubs else pubs) in
    if gone then rest else (clear sub e ∷ rest.0, rest.1)

abbrev pub swept : Env → ℕ → Topic → Topic
swept env sub t =
    let after = sweep env sub t.entries t.publishers in
    record t { entries = after.0; publishers = after.1 }

-- `agnocast_unlink_subscriber_info`
unfoldable pub unlink_subscriber : Env → Subscriber → Topic → Topic
unfolding rebuild_lists select
unlink_subscriber env s t =
    let unlinked = record t { subscribers = drop_subscriber s.id t.subscribers } in
    elim s.notify_ctx [ none ↦ unlinked | some c ↦ rebuild_all_notify_lists env unlinked ]

-- `agnocast_ioctl_remove_subscriber` once the topic is found, up to the release of an empty topic.
unfoldable pub remove_subscriber : Env → ℕ → Topic → Option Errno × Topic
unfolding find_subscriber unlink_subscriber sweep
remove_subscriber env sub t = elim (find_subscriber sub t.subscribers) [
  | none ↦ (some enodata, t)
  | some s ↦
      if leb max_topic_local_id sub
      then (some einval, unlink_subscriber env s t)
      else (none, swept env sub (unlink_subscriber env s t))
]

-- The walk over the entries when a publisher leaves: those that nobody references go.
abbrev pub stays : ℕ → Entry → Bool
stays id e = if e.publisher_id == id then is_referenced e else true

unfoldable pub leaving_num : ℕ → List Entry → ℕ
leaving_num id [] = 0
leaving_num id (e ∷ r) = let rest = leaving_num id r in if stays id e then rest else rest + 1

-- The publisher's count after the walk, without the publisher if it is 0.
unfoldable pub settle_publisher : ℕ → ℕ → List Publisher → List Publisher
settle_publisher id k [] = []
settle_publisher id k (p ∷ r) =
    let rest = settle_publisher id k r in
    if p.id == id
    then (if p.entries_num - k == 0
        then rest
        else record p { entries_num = p.entries_num - k } ∷ rest)
    else p ∷ rest

unfoldable pub drop_publisher : ℕ → Topic → Topic
unfolding leaving_num settle_publisher select
drop_publisher id t = record t {
  entries = select (stays id) t.entries;
  publishers = settle_publisher id (leaving_num id t.entries) t.publishers;
}

-- `agnocast_ioctl_remove_publisher` once the topic is found, up to the release of an empty topic.
unfoldable pub remove_publisher : ℕ → Topic → Option Errno × Topic
unfolding find_publisher drop_publisher
remove_publisher id t = elim (find_publisher id t.publishers) [
  | none ↦ (some enodata, t)
  | some p ↦ (none, drop_publisher id t)
]

-- The ids of a process's endpoints.
abbrev pub publisher_ids : ℕ → List Publisher → List ℕ
publisher_ids pid l = map (λ p. p.id) (select (λ p. p.pid == pid) l)

abbrev pub subscriber_ids : ℕ → List Subscriber → List ℕ
subscriber_ids pid l = map (λ s. s.id) (select (λ s. s.pid == pid) l)

unfoldable pub drop_publishers : List ℕ → Topic → Topic
unfolding drop_publisher
drop_publishers [] t = t
drop_publishers (id ∷ r) t = drop_publishers r (drop_publisher id t)

-- `pre_handler_publisher_exit`
unfoldable pub publisher_exit : ℕ → Topic → Topic
unfolding drop_publishers select
publisher_exit pid t = drop_publishers (publisher_ids pid t.publishers) t

-- The loop over the subscribers that left; an id out of range is skipped.
unfoldable pub sweep_all : Env → List ℕ → Topic → Topic
unfolding sweep
sweep_all env [] t = t
sweep_all env (id ∷ r) t = sweep_all env r (if leb max_topic_local_id id then t else swept env id t)

-- `pre_handler_subscriber_exit`
unfoldable pub subscriber_exit : Env → ℕ → Topic → Topic
unfolding sweep_all rebuild_lists select
subscriber_exit env pid t = elim (subscriber_ids pid t.subscribers) [
  | [] ↦ t
  | id ∷ r ↦ sweep_all env (id ∷ r) (
      rebuild_all_notify_lists env
        (record t { subscribers = select (λ s. not (s.pid == pid)) t.subscribers }))
]

-- What the exit of a process does to a topic, up to the release of an empty one.
unfoldable pub process_exit : Env → ℕ → Topic → Topic
unfolding publisher_exit subscriber_exit
process_exit env pid t = subscriber_exit env pid (publisher_exit pid t)

-- ===== src/Kmod/Topic/Publish.antt =====
-- agnocast_ioctl.c: `insert_message_entry` and `release_msgs_to_meet_depth`, which `PUBLISH_MSG` runs.
use agnocast.Prelude.{
  ℕ, zero, suc, ◌+◌, ◌-◌, Bool, true, false, ◌&&◌, not, Option, none, some, List, [], ◌∷◌, ◌++◌,
  ltb, leb, ◌==◌, if◌then◌else◌, length,
}
use agnocast.Kmod.State.{
  Publisher, Entry, Topic, Env, Errno, einval, enodata, ecanceled, enomem, max_release_num,
}
use agnocast.Kmod.Lists.{all}
use agnocast.Kmod.Topic.Delivery.{find_process, find_publisher, is_referenced}

-- The publishers, with that of the id changed.
unfoldable pub set_entries_num : ℕ → (ℕ → ℕ) → List Publisher → List Publisher
set_entries_num id f [] = []
set_entries_num id f (p ∷ r) =
    let rest = set_entries_num id f r in
    (if p.id == id then record p { entries_num = f p.entries_num } else p) ∷ rest

abbrev pub new_entry : ℕ → ℕ → ℕ → Entry
new_entry id publisher address = record {
  entry_id = id;
  publisher_id = publisher;
  address = address;
  referencing = [];
}

-- The new entry is linked at the right end of the tree, if its id is the largest. Its allocation is before.
unfoldable pub insert_message_entry : ℕ → ℕ → Topic → Option Errno × Topic
unfolding all set_entries_num
insert_message_entry publisher address t =
    let counted = record t { current_entry_id = t.current_entry_id + 1 } in
    if all (λ e. ltb e.entry_id t.current_entry_id) t.entries
    then (
      none,
      record counted {
        entries = t.entries ++ new_entry t.current_entry_id publisher address ∷ [];
        publishers = set_entries_num publisher (λ n. n + 1) t.publishers;
      },
    )
    else (some ecanceled, counted)

-- The loop of `release_msgs_to_meet_depth`, with what is left of `num_search_entries` and of the number
-- that one call releases: whether it ended well, the addresses released, and the entries that stay.
unfoldable pub release_loop : ℕ → ℕ → ℕ → List Entry → Bool × List ℕ × List Entry
release_loop id zero budget l = (true, [], l)
release_loop id (suc search) zero l = (true, [], l)
release_loop id (suc search) (suc budget) [] = (false, [], [])
release_loop id (suc search) (suc budget) (e ∷ []) = (false, [], e ∷ [])
release_loop id (suc search) (suc budget) (e ∷ x ∷ r) =
    let mine = e.publisher_id == id in
    let free = mine && not (is_referenced e) in
    let rest =
      release_loop id (if mine then search else suc search) (if free then budget else suc budget)
        (x ∷ r) in
    if free then (rest.0, e.address ∷ rest.1, rest.2) else (rest.0, rest.1, e ∷ rest.2)

-- What the call gives: 0 or an error, the released addresses, the topic, and the contexts to signal.
pub record Published : Type 0 where
  pub result : Option Errno
  pub released : List ℕ
  pub topic : Topic
  pub signalled : List ℕ

abbrev pub failed : Errno → Topic → Published
failed e t = record { result = some e; released = []; topic = t; signalled = [] }

-- `p` is the publisher after its new entry was counted.
unfoldable pub release_msgs_to_meet_depth : Publisher → Topic → Published
unfolding release_loop set_entries_num
release_msgs_to_meet_depth p t =
    if leb p.entries_num p.qos_depth
    then record { result = none; released = []; topic = t; signalled = p.notify_ctxs }
    else (let loop = release_loop p.id (p.entries_num - p.qos_depth) max_release_num t.entries in
        record {
          result = if loop.0 then none else some enodata;
          released = loop.1;
          topic = record t {
            entries = loop.2;
            publishers = set_entries_num p.id (λ n. n - length loop.1) t.publishers;
          };
          signalled = if loop.0 then p.notify_ctxs else [];
        })

-- `agnocast_ioctl_publish_msg` once the topic is found. `allocates` says whether the new entry can be
-- allocated, which `insert_message_entry` does first; `pool_start` and `pool_size` give the range of
-- addresses of a process's pool.
module _ (pool_start : ℕ → ℕ) (pool_size : ℕ) where
  unfoldable pub publish_checked : Publisher → ℕ → Topic → Published
  unfolding insert_message_entry release_msgs_to_meet_depth
  publish_checked p address t =
      let inserted = insert_message_entry p.id address t in
      elim (inserted.0) [
        | some e ↦ failed e inserted.1
        | none ↦
            release_msgs_to_meet_depth (record p { entries_num = p.entries_num + 1 }) inserted.1
      ]

  unfoldable pub publish_msg : Bool → Env → ℕ → ℕ → Topic → Published
  unfolding find_publisher find_process publish_checked
  publish_msg allocates env publisher address t = elim (find_publisher publisher t.publishers) [
    | none ↦ failed einval t
    | some p ↦ elim (find_process p.pid env.processes) [
      | none ↦ failed einval t
      | some q ↦
          if ltb address (pool_start q.pool)
          then failed einval t
          else if leb (pool_start q.pool + pool_size) address
          then failed einval t
          else if not allocates
          then failed enomem t
          else publish_checked p address t
    ]
  ]

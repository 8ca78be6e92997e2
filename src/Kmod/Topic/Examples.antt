-- ===== src/Kmod/Topic/Examples.antt =====
-- The kernel module on concrete topics: a publisher of one process and a subscriber of another.
use agnocast.Prelude.{
  ℕ, ◌+◌, ◌-◌, ◌*◌, ◌<◌, ◌≡◌, refl, true, false, not, ◌&&◌, none, some, List, [], ◌∷◌, ◌++◌, arith,
  length, if◌then◌else◌, ltb,
}
use agnocast.Kmod.State.{
  Env, Process, Publisher, Subscriber, application, enodata, ealready, max_receive_num,
  max_release_num,
}
use agnocast.Kmod.Lists.{contains, head, take, select}
use agnocast.Kmod.Topic.Delivery.{find_process, find_publisher, find_subscriber}
use agnocast.Kmod.Topic.Insert.{SubscriberArgs, PublisherArgs}
use agnocast.Kmod.Topic.Publish.{publish_msg}
use agnocast.Kmod.Topic.Receive.{mark, set_latest, receive_msg, take_msg, update_latest}
use agnocast.Kmod.Topic.Steps.{
  Op, add_subscriber, add_publisher, publish, receive, leave_publisher, exit, run,
}
use agnocast.Kmod.Topic.Held.{holds}
use agnocast.Kmod.Topic.Held.Calls.{Holds}
use agnocast.Kmod.Topic.Held.Run.{keeps, run-Holds}
use agnocast.Kmod.Topic.Depth.{is_own, own, own_num, is_free, releasable}
use agnocast.Kmod.Topic.Window.Receive.{window, mark_all}
use agnocast.Kmod.Topic.Window.Take.{takeable}
use agnocast.Kmod.Topic.Depth.Stays.{released_ids, without}
use agnocast.Kmod.Topic.Depth.Outcome.{with_new}
use agnocast.Kmod.Topic.Valid.{IsValid}
use agnocast.Kmod.Topic.Valid.Run.{
  reached, run-IsValid, receive-window, take-oldest, publish-oldest, publish-depth_zero,
}

-- Process 1 publishes from the pool at 0, process 2 subscribes.
abbrev process : ℕ → ℕ → Process
process pid pool = record {
  exited = false;
  role = application;
  pid = pid;
  ipc_ns = 0;
  domain_id = 0;
  pool = pool;
}

abbrev env : Env
env = record { processes = process 1 0 ∷ process 2 1 ∷ []; rules = [] }

abbrev pool_start : ℕ → ℕ
pool_start pool = pool * 100

abbrev publisher_args : ℕ → PublisherArgs
publisher_args depth = record {
  domain_id = 0;
  pid = 1;
  qos_depth = depth;
  is_transient_local = false;
  node_name = "talker";
  is_bridge = false;
}

abbrev subscriber_args : SubscriberArgs
subscriber_args = record {
  domain_id = 0;
  pid = 2;
  qos_depth = 2;
  is_transient_local = false;
  is_reliable = true;
  node_name = "listener";
  is_take_sub = false;
  ignores_local = false;
  is_bridge = false;
  notify_ctx = some 7;
}

-- The publisher has id 0, the subscriber id 1; the first entry is 1.
abbrev joined : ℕ → List (Env × Op)
joined depth =
    (env, add_publisher true true (publisher_args depth))
    ∷ (env, add_subscriber true (λ id. true) subscriber_args)
    ∷ []

abbrev received_once : List (Env × Op)
received_once = joined 1 ++ (env, publish true 0 10) ∷ (env, receive 1) ∷ []

abbrev later : List (Env × Op)
later =
    (env, publish true 0 20)
    ∷ (env, publish true 0 30)
    ∷ (env, leave_publisher 0)
    ∷ (env, exit 1)
    ∷ []

abbrev published : List (Env × Op)
published = joined 1 ++ (env, publish true 0 10) ∷ []

abbrev publisher : ℕ → ℕ → Publisher
publisher depth entries = record {
  id = 0;
  domain_id = 0;
  pid = 1;
  node_name = "talker";
  qos_depth = depth;
  is_transient_local = false;
  entries_num = entries;
  is_bridge = false;
  notify_ctxs = 7 ∷ [];
  notify_capacity = 8;
}

abbrev subscriber : Subscriber
subscriber = record {
  id = 1;
  domain_id = 0;
  pid = 2;
  qos_depth = 2;
  is_transient_local = false;
  is_reliable = true;
  latest_received = some 0;
  node_name = "listener";
  is_take_sub = false;
  ignores_local = false;
  need_mmap_update = true;
  is_bridge = false;
  notify_ctx = some 7;
}

publisher-published :
    find_publisher 0 (reached pool_start 100 none published).publishers ≡ some (publisher 1 1)
unfolding run find_publisher
publisher-published = refl

subscriber-published :
    find_subscriber 1 (reached pool_start 100 none published).subscribers ≡ some subscriber
unfolding run find_subscriber
subscriber-published = refl

publisher-zero :
    find_publisher 0 (reached pool_start 100 none (joined 0)).publishers ≡ some (publisher 0 0)
unfolding run find_publisher
publisher-zero = refl

process-found : find_process 1 env.processes ≡ some (process 1 0)
unfolding find_process
process-found = refl

received_once-Holds : Holds 1 1 10 (reached pool_start 100 none received_once)
unfolding run holds
received_once-Holds = refl

later-keeps : keeps pool_start 100 1 1 later (reached pool_start 100 none received_once) ≡ true
unfolding keeps run
later-keeps = refl

-- The message at 10 outlives two later ones of a publisher of depth 1, the publisher, and its process.
run-Holds_example :
    Holds 1 1 10 (run pool_start 100 later (reached pool_start 100 none received_once))
run-Holds_example =
    run-Holds pool_start 100 1 1 10 later (reached pool_start 100 none received_once)
      received_once-Holds later-keeps

run-IsValid_example : IsValid (reached pool_start 100 none received_once)
run-IsValid_example = run-IsValid pool_start 100 none received_once

receive-window_example :
    let t = reached pool_start 100 none published in
    let l = take max_receive_num (window env t subscriber) in
    receive_msg env 1 t ≡ record {
      result = none;
      messages = l;
      call_again = ltb max_receive_num (length (window env t subscriber));
      topic = update_latest 1 l (record t { entries = mark_all 1 l t.entries });
    }
receive-window_example =
    receive-window pool_start 100 none published env 1 subscriber subscriber-published

take-oldest_example :
    let t = reached pool_start 100 none published in
    take_msg env 1 false t ≡ elim (head (takeable env t subscriber false)) [
      | none ↦ record { result = none; message = none; topic = t }
      | some e ↦
          if contains 1 e.referencing && not false
          then record { result = some ealready; message = none; topic = t }
          else record {
            result = none;
            message = some e;
            topic = record t {
              entries = mark 1 e.entry_id t.entries;
              subscribers = set_latest 1 e.entry_id t.subscribers;
            };
          }
    ]
take-oldest_example =
    take-oldest pool_start 100 none published env 1 subscriber false subscriber-published

publish-oldest_example :
    let t = reached pool_start 100 none published in
    let out = publish_msg pool_start 100 true env 0 20 t in
    (out.result ≡ none)
    × (out.released ≡ releasable 0 (own_num 0 t.entries + 1 - 1) max_release_num t.entries)
    × (out.topic
        ≡ with_new 0 20
            (length (released_ids 0 (own_num 0 t.entries + 1 - 1) max_release_num t.entries))
            (without
              (released_ids 0 (own_num 0 t.entries + 1 - 1) max_release_num t.entries)
              t.entries)
            t)
    × (out.signalled ≡ 7 ∷ [])
publish-oldest_example =
    publish-oldest pool_start 100 none published env 0 20 (publisher 1 1) (process 1 0)
      publisher-published process-found (omega arith) (omega arith) (omega arith)

none_free :
    length (select is_free (own 0 (reached pool_start 100 none (joined 0)).entries))
    < max_release_num
unfolding run select
none_free = omega arith

publish-depth_zero_example :
    let t = reached pool_start 100 none (joined 0) in
    let out = publish_msg pool_start 100 true env 0 10 t in
    (out.result ≡ some enodata)
    × (out.topic
        ≡ with_new 0 10
            (length (select is_free (own 0 t.entries)))
            (select (λ e. not (is_own 0 e && is_free e)) t.entries)
            t)
    × (out.signalled ≡ [])
publish-depth_zero_example =
    publish-depth_zero pool_start 100 none (joined 0) env 0 10 (publisher 0 0) (process 1 0)
      publisher-zero process-found (omega arith) (omega arith) refl none_free

-- The second of two messages makes the first one leave.
publish-test :
    (publish_msg pool_start 100 true env 0 20 (reached pool_start 100 none published)).released
    ≡ 10 ∷ []
unfolding publish_msg run
publish-test = refl

receive-test :
    (receive_msg env 1 (reached pool_start 100 none published)).messages
    ≡ record { entry_id = 1; publisher_id = 0; address = 10; referencing = [] } ∷ []
unfolding receive_msg run
receive-test = refl

take-test :
    (take_msg env 1 false (reached pool_start 100 none published)).message
    ≡ some (record { entry_id = 1; publisher_id = 0; address = 10; referencing = [] })
unfolding take_msg run
take-test = refl

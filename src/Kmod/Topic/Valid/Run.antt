-- ===== src/Kmod/Topic/Valid/Run.antt =====
-- Every topic that the calls lead to is well formed, and so the calls give what they should.
use agnocast.Prelude.{
  true, ℕ, ◌+◌, ◌-◌, ◌≤◌, ◌<◌, ◌≡◌, refl, Bool, not, Option, none, some, List, [], ◌∷◌, arith, ltb,
  if◌then◌else◌, length, ◌&&◌,
}
use agnocast.Kmod.State.{
  Topic, Env, Publisher, Subscriber, Process, enodata, ealready, max_receive_num, max_release_num,
}
use agnocast.Kmod.Lists.{all, take, select, head, contains}
use agnocast.Kmod.Topic.Delivery.{find_publisher, find_process, find_subscriber}
use agnocast.Kmod.Topic.Publish.{publish_msg}
use agnocast.Kmod.Topic.Receive.{
  oldest_wanted, receive_msg, take_msg, update_latest, mark, set_latest,
}
use agnocast.Kmod.Topic.Steps.{
  Op, add_subscriber, add_publisher, publish, receive, take as take_step, release, leave_subscriber,
  leave_publisher, exit, step, run, empty_topic,
}
use agnocast.Kmod.Topic.Depth.Stays.{released_ids, without}
use agnocast.Kmod.Topic.Depth.Outcome.{with_new, publish_checked-topic, publish_checked-left}
use agnocast.Kmod.Topic.Depth.{
  is_own, own, own_num, is_free, releasable, publish_msg-checked, publish_checked-releases,
  publish_checked-fails,
}
use agnocast.Kmod.Topic.Window.{ascending}
use agnocast.Kmod.Topic.Window.Receive.{window, mark_all, receive_msg_lem}
use agnocast.Kmod.Topic.Window.Take.{takeable, take_msg_lem}
use agnocast.Kmod.Topic.Valid.{IsValid, distinct, fresh_from}
use agnocast.Kmod.Topic.Valid.Given.{IsValid-has_publisher, IsValid-fits, all-find_subscriber}
use agnocast.Kmod.Topic.Valid.Receive.{receive-IsValid, take-IsValid}
use agnocast.Kmod.Topic.Valid.Publish.{publish-IsValid, find_publisher-id}
use agnocast.Kmod.Topic.Valid.Leave.{
  release-IsValid, remove_subscriber-IsValid, remove_publisher-IsValid, exit-IsValid,
}
use agnocast.Kmod.Topic.Valid.Join.{add_subscriber-IsValid, add_publisher-IsValid}

empty_topic-IsValid : (rule : Option ℕ) → IsValid (empty_topic rule)
unfolding all ascending distinct find_publisher own_num
empty_topic-IsValid rule = record {
  ordered = refl;
  ids_below = refl;
  counted = λ id. refl;
  separate = refl;
  publishers_below = refl;
  subscribers_below = refl;
  bits_below = refl;
  fresh = refl;
}

IsValid-counts :
    (id : ℕ) (t : Topic) (p : Publisher)
    → find_publisher id t.publishers ≡ some p
    → IsValid t
    → p.entries_num ≡ own_num p.id t.entries
IsValid-counts id t p e v =
    let same = find_publisher-id id t.publishers p e in
    let f : p.entries_num ≡ own_num id t.entries = ground (arith, e, v.counted id) in
    ground (arith, f, same)

module _ (pool_start : ℕ → ℕ) (pool_size : ℕ) where
  step-IsValid :
      (env : Env) (op : Op) (t : Topic) → IsValid t → IsValid (step pool_start pool_size env op t)
  unfolding step
  step-IsValid env (add_subscriber b f x) t v = add_subscriber-IsValid env b f x t v
  step-IsValid env (add_publisher b c x) t v = add_publisher-IsValid env b c x t v
  step-IsValid env (publish b p x) t v = publish-IsValid pool_start pool_size b env p x t v
  step-IsValid env (receive s) t v = receive-IsValid env s t v
  step-IsValid env (take_step s b) t v = take-IsValid env s b t v
  step-IsValid env (release s i) t v = release-IsValid s i t v
  step-IsValid env (leave_subscriber s) t v = remove_subscriber-IsValid env s t v
  step-IsValid env (leave_publisher p) t v = remove_publisher-IsValid p t v
  step-IsValid env (exit pid) t v = exit-IsValid env pid t v

  from-IsValid :
      (ops : List (Env × Op)) (t : Topic) → IsValid t → IsValid (run pool_start pool_size ops t)
  unfolding run
  from-IsValid [] t v = v
  from-IsValid ((env, op) ∷ r) t v =
      from-IsValid r (step pool_start pool_size env op t) (step-IsValid env op t v)

  abbrev pub reached : Option ℕ → List (Env × Op) → Topic
  reached rule ops = run pool_start pool_size ops (empty_topic rule)

  -- From an empty topic, every sequence of registrations, publications, receives, takes, releases, removals
  -- and process exits leads to a topic in which the entries are in the order of their ids and below the
  -- next one; every publisher counts exactly its entries in the topic, and an id that is not registered has
  -- none; publishers' ids are different; these and the subscribers' ids are below the next one, and the
  -- subscribers' fit the bitmap; every bit that is set is one of an id that was given out; and no entry after a subscriber's
  -- latest received one carries its bit.
  pub run-IsValid : (rule : Option ℕ) (ops : List (Env × Op)) → IsValid (reached rule ops)
  run-IsValid rule ops = from-IsValid ops (empty_topic rule) (empty_topic-IsValid rule)

  -- In every topic that the calls lead to, a receive by a registered subscriber gives the deliverable
  -- entries after the latest received one, the newest `qos_depth` of them, and of these the oldest ten, in
  -- the order of their ids; it asks to be called again exactly when there were more than ten; it sets the
  -- subscriber's bit in the entries given, makes the last of them its latest received one, and changes
  -- nothing else of the topic, apart from the mapping of memory, which is not modelled.
  pub receive-window :
      (rule : Option ℕ) (ops : List (Env × Op)) (env : Env) (sub : ℕ) (s : Subscriber)
      → find_subscriber sub (reached rule ops).subscribers ≡ some s
      → let t = reached rule ops in
        let l = take max_receive_num (window env t s) in
        receive_msg env sub t ≡ record {
          result = none;
          messages = l;
          call_again = ltb max_receive_num (length (window env t s));
          topic = update_latest s.id l (record t { entries = mark_all s.id l t.entries });
        }
  receive-window rule ops env sub s e =
      let t = reached rule ops in
      let v = run-IsValid rule ops in
      receive_msg_lem env t sub s e v.ordered (IsValid-has_publisher env t s v) (
        all-find_subscriber
          (λ (x : Subscriber). fresh_from (oldest_wanted x.latest_received) x.id t.entries) sub
          t.subscribers s e v.fresh)

  -- In every topic that the calls lead to, a take by a registered subscriber looks at the deliverable
  -- entries after the latest received one, from that one itself on if the same message may be given again,
  -- and at the newest `qos_depth` of them. If there is none it gives nothing and changes nothing.
  -- Otherwise it gives the oldest of these, sets the subscriber's bit in it and makes it the latest
  -- received one, unless the bit is set already and the same message may not be given again: then the call
  -- is refused and changes nothing. The mapping of memory is not modelled.
  pub take-oldest :
      (rule : Option ℕ) (ops : List (Env × Op)) (env : Env) (sub : ℕ) (s : Subscriber)
      (allow_same : Bool)
      → find_subscriber sub (reached rule ops).subscribers ≡ some s
      → let t = reached rule ops in
        take_msg env sub allow_same t ≡ elim (head (takeable env t s allow_same)) [
          | none ↦ record { result = none; message = none; topic = t }
          | some e ↦
              if contains s.id e.referencing && not allow_same
              then record { result = some ealready; message = none; topic = t }
              else record {
                result = none;
                message = some e;
                topic = record t {
                  entries = mark s.id e.entry_id t.entries;
                  subscribers = set_latest s.id e.entry_id t.subscribers;
                };
              }
        ]
  take-oldest rule ops env sub s b e =
      let t = reached rule ops in
      let v = run-IsValid rule ops in
      take_msg_lem env t sub s b e (IsValid-fits sub t s e v) v.ordered
        (IsValid-has_publisher env t s v)

  -- In every topic that the calls lead to, let a registered publisher of depth at least 1, whose process is
  -- registered, publish an address of the process's pool, and let the entry be allocated. The call succeeds.
  -- Of the oldest of the publisher's messages that exceed the depth once the new one is counted, it
  -- releases those that no subscriber references, the oldest three of them: it gives their addresses in
  -- the order of their ids; exactly they leave the topic, the new message stands after those that stay,
  -- the publisher counts one more and these fewer, and nothing else of the topic changes but the next id.
  -- The contexts of the publisher's list are signalled.
  pub publish-oldest :
      (rule : Option ℕ) (ops : List (Env × Op)) (env : Env) (id address : ℕ) (p : Publisher)
      (q : Process)
      → find_publisher id (reached rule ops).publishers ≡ some p
      → find_process p.pid env.processes ≡ some q
      → pool_start q.pool ≤ address
      → address < pool_start q.pool + pool_size
      → 0 < p.qos_depth
      → let t = reached rule ops in
        let out = publish_msg pool_start pool_size true env id address t in
        let k = own_num p.id t.entries + 1 - p.qos_depth in
        let ids = released_ids p.id k max_release_num t.entries in
        (out.result ≡ none)
        × (out.released ≡ releasable p.id k max_release_num t.entries)
        × (out.topic ≡ with_new p.id address (length ids) (without ids t.entries) t)
        × (out.signalled ≡ p.notify_ctxs)
  publish-oldest rule ops env id address p q e f l u d =
      let t = reached rule ops in
      let v = run-IsValid rule ops in
      let c = IsValid-counts id t p e v in
      let (result, released, signalled) =
        publish_checked-releases pool_start pool_size p address t v.ids_below c d in
      let topic =
        publish_checked-topic pool_start pool_size p address t v.ordered v.ids_below c d in
      rw (publish_msg-checked pool_start pool_size env id address t p q e f l u)
        (rw⁻¹ c (result, released, topic, signalled))

  -- In every topic that the calls lead to, let a registered publisher of depth 0 publish an address of
  -- its registered process's pool, let the entry be allocated, and let fewer than three of the
  -- publisher's messages be unreferenced. The call fails with -ENODATA, but the new message stands in
  -- the topic, after those that stay, which are all but the publisher's unreferenced ones; the
  -- publisher counts one more and those fewer, and nothing else of the topic changes but the next id.
  -- No context is signalled.
  pub publish-depth_zero :
      (rule : Option ℕ) (ops : List (Env × Op)) (env : Env) (id address : ℕ) (p : Publisher)
      (q : Process)
      → find_publisher id (reached rule ops).publishers ≡ some p
      → find_process p.pid env.processes ≡ some q
      → pool_start q.pool ≤ address
      → address < pool_start q.pool + pool_size
      → p.qos_depth ≡ 0
      → length (select is_free (own p.id (reached rule ops).entries)) < max_release_num
      → let t = reached rule ops in
        let out = publish_msg pool_start pool_size true env id address t in
        (out.result ≡ some enodata)
        × (out.topic
            ≡ with_new p.id address
                (length (select is_free (own p.id t.entries)))
                (select (λ e. not (is_own p.id e && is_free e)) t.entries)
                t)
        × (out.signalled ≡ [])
  publish-depth_zero rule ops env id address p q e f l u d n =
      let t = reached rule ops in
      let v = run-IsValid rule ops in
      let c = IsValid-counts id t p e v in
      let (result, signalled) =
        publish_checked-fails pool_start pool_size p address t v.ids_below c d n in
      let topic =
        publish_checked-left pool_start pool_size p address t v.ordered v.ids_below c d n in
      rw (publish_msg-checked pool_start pool_size env id address t p q e f l u)
        (result, topic, signalled)

-- ===== src/Kmod/Topic/Valid/Publish.antt =====
-- A publication keeps a topic well formed.
use agnocast.Prelude.{
  Bool, ℕ, ◌+◌, ◌-◌, ◌≡◌, refl, sym, true, false, ◌&&◌, ◌||◌, none, some, List, [], ◌∷◌, ◌++◌,
  arith, ltb, ◌==◌, length, Bool-cases, Option-cases, inl, inr,
}
use agnocast.Kmod.State.{
  Topic, Entry, Publisher, Subscriber, Env, max_topic_local_id, max_release_num,
}
use agnocast.Kmod.Lists.{all}
use agnocast.Kmod.Topic.Delivery.{find_publisher, find_process}
use agnocast.Kmod.Topic.Publish.{
  new_entry, set_entries_num, insert_message_entry, release_loop, release_msgs_to_meet_depth,
  publish_checked, publish_msg,
}
use agnocast.Kmod.Topic.Receive.{oldest_wanted}
use agnocast.Kmod.Topic.Depth.{own_num, own_num-release_loop, own_num-append}
use agnocast.Kmod.Topic.Window.{all-imply}
use agnocast.Kmod.Topic.Window.Receive.{is_unclaimed}
use agnocast.Kmod.Topic.Valid.{counts, fresh_from, refers_below, IsValid}
use agnocast.Kmod.Topic.Valid.Entries.{
  ascending-append, ascending-release_loop, all-release_loop, all-append,
}
use agnocast.Kmod.Topic.Valid.Refs.{fresh-append}
use agnocast.Kmod.Topic.Valid.Counts.{own_num-release_other}
use agnocast.Kmod.Topic.Valid.Publishers.{
  counts-set, counts-set_other, none-set, distinct-set, below-set,
}

pub find_publisher-id :
    (id : ℕ) (l : List Publisher) (p : Publisher) → find_publisher id l ≡ some p → p.id ≡ id
unfolding find_publisher
find_publisher-id id [] p e = ground arith
find_publisher-id id (x ∷ l) p e = elim (Bool-cases (x.id == id)) [
  | inl g ↦ let h : x ≡ p = ground arith in rw (sym h) (ground arith)
  | inr g ↦ ground (arith, find_publisher-id id l p)
]

pub below-next :
    (n : ℕ) (l : List Entry)
    → all (λ e. ltb e.entry_id n) l ≡ true
    → all (λ e. ltb e.entry_id (n + 1)) l ≡ true
unfolding all
below-next n [] h = refl
below-next n (e ∷ l) h = ground (arith, below-next n l)

-- The counts after a change of those of one publisher.
counts-changed :
    (q id : ℕ) (f : ℕ → ℕ) (l : List Publisher) (n m : ℕ)
    → counts (find_publisher id l) n ≡ true
    → ((id == q) ≡ false → m ≡ n)
    → ((id == q) ≡ true → m ≡ f n)
    → (find_publisher q l ≡ none → f 0 ≡ 0)
    → counts (find_publisher id (set_entries_num q f l)) m ≡ true
counts-changed q id f l n m c o w z = elim (Bool-cases (id == q)) [
  | inr g ↦ rw (o g) (counts-set_other id q f l n g c)
  | inl g ↦
      let same : id ≡ q = ground arith in
      elim (Option-cases (find_publisher q l)) [
        | inl e ↦
            let h : find_publisher id l ≡ none = rw same e in
            ground (arith, none-set id q f l h, w g, z e)
        | inr (p, e) ↦
            let h : find_publisher id l ≡ some p = rw same e in
            rw (w g, same) (let k : n ≡ p.entries_num = ground arith in rw k (counts-set q f l p e))
      ]
]

insert-IsValid :
    (id address : ℕ) (t : Topic) (p : Publisher)
    → find_publisher id t.publishers ≡ some p
    → IsValid t
    → IsValid (insert_message_entry id address t).1
unfolding insert_message_entry own_num all
insert-IsValid id address t p e v =
    let x = new_entry t.current_entry_id id address in
    rw (v.ids_below) record {
      ordered = ascending-append t.entries x v.ordered v.ids_below;
      ids_below =
          rw
            (all-append (λ (e : Entry). ltb e.entry_id (t.current_entry_id + 1)) t.entries (x ∷ []))
            (ground (arith, below-next t.current_entry_id t.entries v.ids_below));
      counted = λ i.
          counts-changed id i (λ n. n + 1) t.publishers (own_num i t.entries)
            (own_num i (t.entries ++ x ∷ [])) (v.counted i)
            (λ g. ground (arith, own_num-append i t.entries (x ∷ [])))
            (λ g. ground (arith, own_num-append i t.entries (x ∷ []))) (λ g. cc);
      separate = distinct-set id (λ n. n + 1) t.publishers v.separate;
      publishers_below =
          below-set t.current_pubsub_id id (λ n. n + 1) t.publishers v.publishers_below;
      subscribers_below = v.subscribers_below;
      bits_below =
          rw (all-append (refers_below t.current_pubsub_id) t.entries (x ∷ []))
            (ground (arith, v.bits_below));
      fresh =
          all-imply
            (λ (s : Subscriber). ltb s.id t.current_pubsub_id && ltb s.id max_topic_local_id)
            (λ (s : Subscriber). fresh_from (oldest_wanted s.latest_received) s.id t.entries)
            (λ (s : Subscriber).
              fresh_from (oldest_wanted s.latest_received) s.id (t.entries ++ x ∷ []))
            t.subscribers
            (λ s a b.
              fresh-append (oldest_wanted s.latest_received) s.id t.current_entry_id id address
                t.entries (ground arith) b)
            v.subscribers_below v.fresh;
    }

module _ (id search budget : ℕ) (t : Topic) (v : IsValid t) where
  released-IsValid :
      let loop = release_loop id search budget t.entries in
      IsValid (record t {
        entries = loop.2;
        publishers = set_entries_num id (λ n. n - length loop.1) t.publishers;
      })
  released-IsValid =
      let loop = release_loop id search budget t.entries in
      let less = λ (n : ℕ). n - length loop.1 in
      record {
        ordered = ascending-release_loop id search budget t.entries v.ordered;
        ids_below =
            all-release_loop (λ e. ltb e.entry_id t.current_entry_id) id search budget t.entries
              v.ids_below;
        counted = λ i.
            counts-changed id i less t.publishers (own_num i t.entries) (own_num i loop.2)
              (v.counted i) (own_num-release_other i id search budget t.entries)
              (λ g.
                let same : i ≡ id = ground arith in
                rw same (ground (arith, own_num-release_loop id search budget t.entries)))
              (λ g. ground arith);
        separate = distinct-set id less t.publishers v.separate;
        publishers_below = below-set t.current_pubsub_id id less t.publishers v.publishers_below;
        subscribers_below = v.subscribers_below;
        bits_below =
            all-release_loop (refers_below t.current_pubsub_id) id search budget t.entries
              v.bits_below;
        fresh =
            all-imply
              (λ (s : Subscriber). fresh_from (oldest_wanted s.latest_received) s.id t.entries)
              (λ (s : Subscriber). fresh_from (oldest_wanted s.latest_received) s.id t.entries)
              (λ (s : Subscriber). fresh_from (oldest_wanted s.latest_received) s.id loop.2)
              t.subscribers
              (λ s a b.
                all-release_loop
                  (λ (e : Entry).
                    ltb e.entry_id (oldest_wanted s.latest_received) || is_unclaimed s.id e)
                  id search budget t.entries b)
              v.fresh v.fresh;
      }

meet_depth-IsValid :
    (p : Publisher) (t : Topic) → IsValid t → IsValid (release_msgs_to_meet_depth p t).topic
unfolding release_msgs_to_meet_depth
meet_depth-IsValid p t v =
    ground (arith, v, released-IsValid p.id (p.entries_num - p.qos_depth) max_release_num t v)

module _ (pool_start : ℕ → ℕ) (pool_size : ℕ) where
  checked-IsValid :
      (id address : ℕ) (t : Topic) (p : Publisher)
      → find_publisher id t.publishers ≡ some p
      → IsValid t
      → IsValid (publish_checked pool_start pool_size p address t).topic
  unfolding publish_checked
  checked-IsValid id address t p e v =
      let same = find_publisher-id id t.publishers p e in
      let i : IsValid (insert_message_entry p.id address t).1 =
        rw same (insert-IsValid id address t p e v) in
      ground (
        arith,
        i,
        meet_depth-IsValid (record p { entries_num = p.entries_num + 1 })
            (insert_message_entry p.id address t).1 i,
      )

  pub publish-IsValid :
      (b : Bool) (env : Env) (id address : ℕ) (t : Topic)
      → IsValid t
      → IsValid (publish_msg pool_start pool_size b env id address t).topic
  unfolding publish_msg
  publish-IsValid b env id address t v = elim (Option-cases (find_publisher id t.publishers)) [
    | inl e ↦ rw (e, publish_msg) v
    | inr (x, e) ↦
        rw (e, publish_msg)
          (elim (Option-cases (find_process x.pid env.processes)) [
            | inl f ↦ rw f v
            | inr (q, f) ↦ rw f (ground (arith, v, checked-IsValid id address t x e v))
          ])
  ]

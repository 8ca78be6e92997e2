-- ===== src/Kmod/Topic/Valid/Given.antt =====
-- A topic stays well formed when a subscriber is given entries.
use agnocast.Prelude.{
  ℕ, ◌+◌, ◌≤◌, ◌≡◌, refl, sym, Bool, true, ◌&&◌, Option, none, some, List, [], ◌∷◌, arith, ltb, leb,
  ◌==◌, Bool-cases, Option-cases, inl, inr,
}
use agnocast.Kmod.State.{Topic, Entry, Subscriber, Env, max_topic_local_id}
use agnocast.Kmod.Lists.{all}
use agnocast.Kmod.Topic.Delivery.{find_subscriber, is_entry_deliverable}
use agnocast.Kmod.Topic.Receive.{mark, oldest_wanted, set_latest, last_id, update_latest}
use agnocast.Kmod.Topic.Depth.{own_num}
use agnocast.Kmod.Topic.Window.{ascending, has_publisher}
use agnocast.Kmod.Topic.Window.Receive.{mark_all}
use agnocast.Kmod.Topic.Valid.{is_counted, fresh_from, IsValid}
use agnocast.Kmod.Topic.Valid.Entries.{ascending-mark_all, ids-mark_all}
use agnocast.Kmod.Topic.Valid.Refs.{fresh-mark_all, fresh-weaken, refers-mark_all}
use agnocast.Kmod.Topic.Valid.Counts.{own_num-mark_all}

-- Every entry's publisher is registered.
counted-has_publisher :
    (env : Env) (t : Topic) (s : Subscriber) (all_entries l : List Entry)
    → ((id : ℕ) → is_counted t.publishers all_entries id ≡ true)
    → ((id : ℕ) → own_num id l ≤ own_num id all_entries)
    → all (has_publisher env t s) l ≡ true
unfolding all own_num is_entry_deliverable
counted-has_publisher env t s x [] c h = refl
counted-has_publisher env t s x (e ∷ l) c h = ground (
  arith,
  c e.publisher_id,
  h e.publisher_id,
  counted-has_publisher env t s x l c (λ id. ground (arith, h id)),
)

pub IsValid-has_publisher :
    (env : Env) (t : Topic) (s : Subscriber)
    → IsValid t
    → all (has_publisher env t s) t.entries ≡ true
IsValid-has_publisher env t s v =
    counted-has_publisher env t s t.entries t.entries v.counted (λ id. omega arith)

pub all-find_subscriber :
    (p : Subscriber → Bool) (sub : ℕ) (l : List Subscriber) (s : Subscriber)
    → find_subscriber sub l ≡ some s
    → all p l ≡ true
    → p s ≡ true
unfolding all find_subscriber
all-find_subscriber p sub [] s e a = ground arith
all-find_subscriber p sub (x ∷ l) s e a = elim (Bool-cases (x.id == sub)) [
  | inl g ↦ let h : x ≡ s = ground arith in rw (sym h) (ground arith)
  | inr g ↦ ground (arith, all-find_subscriber p sub l s)
]

pub IsValid-fits :
    (sub : ℕ) (t : Topic) (s : Subscriber)
    → find_subscriber sub t.subscribers ≡ some s
    → IsValid t
    → ltb s.id max_topic_local_id ≡ true
IsValid-fits sub t s e v =
    let bounds =
      all-find_subscriber
        (λ (x : Subscriber). ltb x.id t.current_pubsub_id && ltb x.id max_topic_local_id) sub
        t.subscribers s e v.subscribers_below in
    ground arith

-- The last id of a list in order.
last_id-ascending :
    (l : List Entry) (k : ℕ)
    → last_id l ≡ some k
    → ascending l ≡ true
    → all (λ e. ltb e.entry_id (k + 1)) l ≡ true
unfolding all ascending
last_id-ascending [] k e a = refl
last_id-ascending (x ∷ []) k e a = ground arith
last_id-ascending (x ∷ y ∷ r) k e a = ground (arith, last_id-ascending (y ∷ r) k)

last_id-all :
    (p : ℕ → Bool) (l : List Entry) (k : ℕ)
    → last_id l ≡ some k
    → all (λ e. p e.entry_id) l ≡ true
    → p k ≡ true
unfolding all
last_id-all p [] k e a = ground arith
last_id-all p (x ∷ []) k e a = ground arith
last_id-all p (x ∷ y ∷ r) k e a = last_id-all p (y ∷ r) k e (ground arith)

last_id-none : (l : List Entry) → last_id l ≡ none → l ≡ []
last_id-none [] e = refl
last_id-none (x ∷ []) e = ground arith
last_id-none (x ∷ y ∷ r) e = ground (arith, last_id-none (y ∷ r) e)

both : {a b : Bool} → a ≡ true → b ≡ true → a && b ≡ true
both p q = ground (arith, p, q)

-- The subscribers, once one has a new latest received entry.
all-set_latest :
    (sub k n : ℕ) (l : List Subscriber)
    → all (λ s. ltb s.id n && ltb s.id max_topic_local_id) l ≡ true
    → all (λ s. ltb s.id n && ltb s.id max_topic_local_id) (set_latest sub k l) ≡ true
unfolding all set_latest
all-set_latest sub k n [] h = refl
all-set_latest sub k n (s ∷ l) h = ground (arith, all-set_latest sub k n l)

set_latest-fresh :
    (sub k : ℕ) (given entries : List Entry) (l : List Subscriber)
    → all (λ e. ltb e.entry_id (k + 1)) given ≡ true
    → fresh_from (k + 1) sub entries ≡ true
    → all (λ s. fresh_from (oldest_wanted s.latest_received) s.id entries) l ≡ true
    → all
        (λ s. fresh_from (oldest_wanted s.latest_received) s.id (mark_all sub given entries))
        (set_latest sub k l)
      ≡ true
unfolding all set_latest
set_latest-fresh sub k given entries [] g f h = refl
set_latest-fresh sub k given entries (s ∷ l) g f h = elim (Bool-cases (s.id == sub)) [
  | inl e ↦
      let same : s.id ≡ sub = ground arith in
      rw e (
        both (fresh-mark_all (k + 1) s.id sub given entries (ground arith) (rw same f))
          (set_latest-fresh sub k given entries l g f (ground arith)))
  | inr e ↦ rw e (
      both
        (fresh-mark_all (oldest_wanted s.latest_received) s.id sub given entries (ground arith)
          (ground arith))
        (set_latest-fresh sub k given entries l g f (ground arith)))
]

-- What is given follows what was received, but may repeat the last of it.
abbrev pub follows : Option ℕ → ℕ → Bool
follows latest n = leb (oldest_wanted latest) (n + 1)

module _ (sub : ℕ) (s : Subscriber) (t : Topic) (e : find_subscriber sub t.subscribers ≡ some s)
    (v : IsValid t) where
  marked-IsValid :
      (l : List Entry) (k : ℕ)
      → last_id l ≡ some k
      → ascending l ≡ true
      → all (λ e. follows s.latest_received e.entry_id) l ≡ true
      → IsValid (record t {
        entries = mark_all s.id l t.entries;
        subscribers = set_latest s.id k t.subscribers;
      })
  marked-IsValid l k n a f =
      let bounds =
        all-find_subscriber (λ s. ltb s.id t.current_pubsub_id && ltb s.id max_topic_local_id) sub
          t.subscribers s e v.subscribers_below in
      let kept =
        all-find_subscriber (λ s. fresh_from (oldest_wanted s.latest_received) s.id t.entries) sub
          t.subscribers s e v.fresh in
      let later = last_id-all (follows s.latest_received) l k n f in
      record {
        ordered = ascending-mark_all s.id l t.entries v.ordered;
        ids_below = ids-mark_all (λ i. ltb i t.current_entry_id) s.id l t.entries v.ids_below;
        counted = λ id. rw (own_num-mark_all id s.id l t.entries) (v.counted id);
        separate = v.separate;
        publishers_below = v.publishers_below;
        subscribers_below =
            all-set_latest s.id k t.current_pubsub_id t.subscribers v.subscribers_below;
        bits_below =
            refers-mark_all t.current_pubsub_id s.id l t.entries (ground arith) v.bits_below;
        fresh =
            set_latest-fresh s.id k l t.entries t.subscribers (last_id-ascending l k n a)
              (fresh-weaken (oldest_wanted s.latest_received) (k + 1) s.id t.entries (ground arith)
                kept)
              v.fresh;
      }

  pub given-IsValid :
      (l : List Entry)
      → ascending l ≡ true
      → all (λ e. follows s.latest_received e.entry_id) l ≡ true
      → IsValid (update_latest s.id l (record t { entries = mark_all s.id l t.entries }))
  unfolding mark_all
  given-IsValid l a f = elim (Option-cases (last_id l)) [
    | inl n ↦ rw (last_id-none l n) v
    | inr (k, n) ↦ rw (n, update_latest) (marked-IsValid l k n a f)
  ]

  pub take_one-IsValid :
      (x : Entry)
      → follows s.latest_received x.entry_id ≡ true
      → IsValid (record t {
        entries = mark s.id x.entry_id t.entries;
        subscribers = set_latest s.id x.entry_id t.subscribers;
      })
  unfolding all mark_all ascending
  take_one-IsValid x f = marked-IsValid (x ∷ []) x.entry_id refl refl (ground arith)

-- ===== src/Kmod/Topic/Valid.antt =====
-- When a topic is well formed.
pub mod Entries
pub mod Refs
pub mod Counts
pub mod Publishers
pub mod Sweep
pub mod Given
pub mod Receive
pub mod Publish
pub mod Leave
pub mod Join
pub mod Run
use agnocast.Prelude.{
  ℕ, ◌≡◌, Bool, true, false, ◌&&◌, ◌||◌, not, Option, none, some, List, [], ◌∷◌, ltb, ◌==◌,
}
use agnocast.Kmod.State.{Topic, Entry, Publisher, Subscriber, max_topic_local_id}
use agnocast.Kmod.Lists.{all}
use agnocast.Kmod.Topic.Delivery.{find_publisher}
use agnocast.Kmod.Topic.Receive.{oldest_wanted}
use agnocast.Kmod.Topic.Depth.{own_num}
use agnocast.Kmod.Topic.Window.{ascending}
use agnocast.Kmod.Topic.Window.Receive.{is_unclaimed}

-- The number of a publisher's entries is what the publisher counts, 0 if it is not registered.
abbrev pub counts : Option Publisher → ℕ → Bool
counts none n = n == 0
counts (some p) n = p.entries_num == n

abbrev pub is_counted : List Publisher → List Entry → ℕ → Bool
is_counted pubs l id = counts (find_publisher id pubs) (own_num id l)

-- No two publishers have an id in common.
unfoldable pub distinct : List Publisher → Bool
unfolding find_publisher
distinct [] = true
distinct (p ∷ r) = elim (find_publisher p.id r) [ none ↦ distinct r | some q ↦ false ]

-- The entries from the id `wanted` on do not carry the subscriber's bit.
abbrev pub fresh_from : ℕ → ℕ → List Entry → Bool
fresh_from wanted sub l = all (λ e. ltb e.entry_id wanted || is_unclaimed sub e) l

-- The bits that are set belong to ids that were given out.
abbrev pub refers_below : ℕ → Entry → Bool
refers_below n e = all (λ i. ltb i n) e.referencing

pub record IsValid (t : Topic) : Type 0 where
  pub ordered : ascending t.entries ≡ true
  pub ids_below : all (λ e. ltb e.entry_id t.current_entry_id) t.entries ≡ true
  pub counted : (id : ℕ) → is_counted t.publishers t.entries id ≡ true
  pub separate : distinct t.publishers ≡ true
  pub publishers_below : all (λ p. ltb p.id t.current_pubsub_id) t.publishers ≡ true
  pub subscribers_below :
      all (λ s. ltb s.id t.current_pubsub_id && ltb s.id max_topic_local_id) t.subscribers ≡ true
  pub bits_below : all (refers_below t.current_pubsub_id) t.entries ≡ true
  pub fresh :
      all (λ s. fresh_from (oldest_wanted s.latest_received) s.id t.entries) t.subscribers ≡ true

-- ===== src/Kmod/Topic/Steps.antt =====
-- The calls on a topic as steps, and the history of a topic as a list of them, each with the processes
-- and rules at its time.
use agnocast.Prelude.{ℕ, Bool, false, ◌&&◌, Option, List, [], ◌∷◌, ◌==◌}
use agnocast.Kmod.State.{Topic, Env}
use agnocast.Kmod.Lists.{contains}
use agnocast.Kmod.Topic.Insert.{
  SubscriberArgs, PublisherArgs, insert_subscriber_info, insert_publisher_info,
}
use agnocast.Kmod.Topic.Publish.{publish_msg}
use agnocast.Kmod.Topic.Receive.{receive_msg, take_msg}
use agnocast.Kmod.Topic.Release.{release_reference}
use agnocast.Kmod.Topic.Remove.{remove_subscriber, remove_publisher, subscriber_ids, process_exit}

pub data Op : Type 0 where
  add_subscriber : Bool → (ℕ → Bool) → SubscriberArgs → Op
  add_publisher : Bool → Bool → PublisherArgs → Op
  publish : Bool → ℕ → ℕ → Op
  receive : ℕ → Op
  take : ℕ → Bool → Op
  release : ℕ → ℕ → Op
  leave_subscriber leave_publisher exit : ℕ → Op

abbrev pub empty_topic : Option ℕ → Topic
empty_topic rule = record {
  entries = [];
  publishers = [];
  subscribers = [];
  current_pubsub_id = 0;
  current_entry_id = 0;
  ros2_subscriber_num = 0;
  ros2_publisher_num = 0;
  wrapper_refcnt = 1;
  rule = rule;
}

module _ (pool_start : ℕ → ℕ) (pool_size : ℕ) where
  unfoldable pub step : Env → Op → Topic → Topic
  unfolding insert_subscriber_info insert_publisher_info publish_msg receive_msg take_msg
      release_reference remove_subscriber remove_publisher process_exit
  step env (add_subscriber allocates reserves a) t =
      (insert_subscriber_info env allocates reserves a t).1
  step env (add_publisher allocates reserves a) t =
      (insert_publisher_info env allocates reserves a t).1
  step env (publish allocates publisher address) t =
      (publish_msg pool_start pool_size allocates env publisher address t).topic
  step env (receive sub) t = (receive_msg env sub t).topic
  step env (take sub allow_same) t = (take_msg env sub allow_same t).topic
  step env (release sub id) t = (release_reference sub id t).1
  step env (leave_subscriber sub) t = (remove_subscriber env sub t).1
  step env (leave_publisher id) t = (remove_publisher id t).1
  step env (exit pid) t = process_exit env pid t

  unfoldable pub run : List (Env × Op) → Topic → Topic
  unfolding step
  run [] t = t
  run ((env, op) ∷ r) t = run r (step env op t)

-- Whether the step takes the subscriber's reference to the entry: it releases it, or the subscriber
-- leaves, or its process exits.
unfoldable pub drops : ℕ → ℕ → Op → Topic → Bool
drops sub id (release s i) t = (s == sub) && (i == id)
drops sub id (leave_subscriber s) t = s == sub
drops sub id (exit pid) t = contains sub (subscriber_ids pid t.subscribers)
drops sub id (add_subscriber allocates reserves a) t = false
drops sub id (add_publisher allocates reserves a) t = false
drops sub id (publish allocates p a) t = false
drops sub id (receive s) t = false
drops sub id (take s b) t = false
drops sub id (leave_publisher p) t = false

-- ===== src/Kmod/State.antt =====
-- agnocast_internal.h: the structs of the kernel module. A hash table or a tree is the list of what it
-- holds, the tree in the order of its keys; a pointer to a struct is the struct's id. The bitmap of an
-- entry is the list of the bits that are set. An entry id of -1 is `none`.
use Prim.Native.String.{String}
use agnocast.Prelude.{ℕ, Bool, Option, List}

pub data Role : Type 0 where
  application bridge_manager unlink_daemon : Role

pub record Process : Type 0 where
  pub exited : Bool
  pub role : Role
  pub pid : ℕ
  pub ipc_ns : ℕ
  pub domain_id : ℕ
  pub pool : ℕ

pub record DomainRule : Type 0 where
  pub topic_name_a : String
  pub topic_name_b : String
  pub ipc_ns : ℕ
  pub domain_a : ℕ
  pub domain_b : ℕ
  pub a_to_b : Bool
  pub b_to_a : Bool
  pub is_prefix : Bool

pub record Publisher : Type 0 where
  pub id : ℕ
  pub domain_id : ℕ
  pub pid : ℕ
  pub node_name : String
  pub qos_depth : ℕ
  pub is_transient_local : Bool
  pub entries_num : ℕ
  pub is_bridge : Bool
  pub notify_ctxs : List ℕ
  pub notify_capacity : ℕ

pub record Subscriber : Type 0 where
  pub id : ℕ
  pub domain_id : ℕ
  pub pid : ℕ
  pub qos_depth : ℕ
  pub is_transient_local : Bool
  pub is_reliable : Bool
  pub latest_received : Option ℕ
  pub node_name : String
  pub is_take_sub : Bool
  pub ignores_local : Bool
  pub need_mmap_update : Bool
  pub is_bridge : Bool
  pub notify_ctx : Option ℕ

pub record Entry : Type 0 where
  pub entry_id : ℕ
  pub publisher_id : ℕ
  pub address : ℕ
  pub referencing : List ℕ

-- `rule` is the position of the topic's rule in the table of rules.
pub record Topic : Type 0 where
  pub entries : List Entry
  pub publishers : List Publisher
  pub subscribers : List Subscriber
  pub current_pubsub_id : ℕ
  pub current_entry_id : ℕ
  pub ros2_subscriber_num : ℕ
  pub ros2_publisher_num : ℕ
  pub wrapper_refcnt : ℕ
  pub rule : Option ℕ

-- What a call on a topic reads besides it.
pub record Env : Type 0 where
  pub processes : List Process
  pub rules : List DomainRule

-- The negative results; `none` is 0.
pub data Errno : Type 0 where
  einval enobufs enospc enomem enodata ealready ecanceled eexist ebusy enoent eperm esrch : Errno

abbrev pub max_publisher_num : ℕ
max_publisher_num = 1024

abbrev pub max_topic_local_id : ℕ
max_topic_local_id = 4096

abbrev pub max_subscriber_num : ℕ
max_subscriber_num = 3072

abbrev pub max_receive_num : ℕ
max_receive_num = 10

abbrev pub max_release_num : ℕ
max_release_num = 3

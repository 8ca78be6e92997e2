-- ===== src/Kmod/Topic/Receive.antt =====
-- agnocast_ioctl.c: `receive_msg_core`, and the search of `agnocast_ioctl_take_msg`. The mapping of the
-- publishers' memory, which both calls do next, is not modelled.
use agnocast.Prelude.{
  ℕ, zero, suc, ◌+◌, Bool, true, false, ◌&&◌, ◌||◌, not, Option, none, some, List, [], ◌∷◌, ltb,
  leb, ◌==◌, if◌then◌else◌,
}
use agnocast.Kmod.State.{
  Subscriber, Entry, Topic, Env, Errno, einval, enodata, ealready, max_receive_num,
  max_topic_local_id,
}
use agnocast.Kmod.Lists.{contains, is_empty, reverse_onto, reverse}
use agnocast.Kmod.Topic.Delivery.{
  deliver, skip, no_publisher, find_subscriber, is_entry_deliverable,
}

-- `latest_received_entry_id + 1`
abbrev pub oldest_wanted : Option ℕ → ℕ
oldest_wanted none = 0
oldest_wanted (some id) = id + 1

-- `test_and_set_bit` on the entry of the id.
unfoldable pub mark : ℕ → ℕ → List Entry → List Entry
mark sub id [] = []
mark sub id (e ∷ r) =
    let rest = mark sub id r in
    (if e.entry_id == id
      then (if contains sub e.referencing
          then e
          else record e { referencing = sub ∷ e.referencing })
      else e)
    ∷ rest

-- The result of `add_subscriber_reference`.
unfoldable pub reference_error : ℕ → Entry → Option Errno
reference_error sub e =
    if leb max_topic_local_id sub
    then some einval
    else if contains sub e.referencing
    then some ealready
    else none

-- The walk back over the tree: the entries from `node` on, in order (none for NULL), and how many of them
-- are deliverable. `ahead` holds the entries passed so far.
pub data Found : Type 0 where
  found : List Entry → ℕ → Found
  missing : Found

module _ (env : Env) (t : Topic) (s : Subscriber) where
  unfoldable pub walk_back : ℕ → List Entry → List Entry → List Entry → ℕ → Found
  unfolding is_entry_deliverable
  walk_back wanted [] ahead node num = found node num
  walk_back wanted (e ∷ r) ahead node num =
      if ltb e.entry_id wanted then found node num else elim (is_entry_deliverable env t s e) [
        | no_publisher ↦ missing
        | skip ↦ walk_back wanted r (e ∷ ahead) node num
        | deliver ↦
            if leb s.qos_depth (num + 1)
            then found (e ∷ ahead) (num + 1)
            else walk_back wanted r (e ∷ ahead) (e ∷ ahead) (num + 1)
      ]

  -- The second loop: what is received, the entries with the new references, and the result.
  unfoldable pub fill : ℕ → List Entry → List Entry → Option Errno × List Entry × List Entry
  unfolding is_entry_deliverable mark reference_error
  fill zero node entries = (none, [], entries)
  fill (suc room) [] entries = (none, [], entries)
  fill (suc room) (e ∷ r) entries = elim (is_entry_deliverable env t s e) [
    | no_publisher ↦ (some enodata, [], entries)
    | skip ↦ fill (suc room) r entries
    | deliver ↦ elim (reference_error s.id e) [
      | some err ↦ (some err, [], entries)
      | none ↦ let rest = fill room r (mark s.id e.entry_id entries) in (rest.0, e ∷ rest.1, rest.2)
    ]
  ]

  -- Whether the second loop stops for lack of room, with entries left.
  unfoldable pub is_cut : ℕ → List Entry → Bool
  unfolding is_entry_deliverable
  is_cut zero [] = false
  is_cut zero (e ∷ r) = true
  is_cut (suc room) [] = false
  is_cut (suc room) (e ∷ r) = elim (is_entry_deliverable env t s e) [
    | no_publisher ↦ false
    | skip ↦ is_cut (suc room) r
    | deliver ↦ is_cut room r
  ]

-- The subscribers, with the latest received entry of one set.
unfoldable pub set_latest : ℕ → ℕ → List Subscriber → List Subscriber
set_latest sub id [] = []
set_latest sub id (s ∷ r) =
    let rest = set_latest sub id r in
    (if s.id == sub then record s { latest_received = some id } else s) ∷ rest

-- The last of what was received.
abbrev pub last_id : List Entry → Option ℕ
last_id [] = none
last_id (e ∷ []) = some e.entry_id
last_id (e ∷ x ∷ r) = last_id (x ∷ r)

pub record Received : Type 0 where
  pub result : Option Errno
  pub messages : List Entry
  pub call_again : Bool
  pub topic : Topic

abbrev pub nothing : Topic → Received
nothing t = record { result = none; messages = []; call_again = false; topic = t }

abbrev pub update_latest : ℕ → List Entry → Topic → Topic
update_latest sub l t = elim (last_id l) [
  | none ↦ t
  | some id ↦ record t { subscribers = set_latest sub id t.subscribers }
]

-- What `receive_msg_core` does after its second loop, with what the loop left; an error of the loop is
-- returned with the bits that it has set.
abbrev pub settled : Subscriber → Topic → Bool → Option Errno × List Entry × List Entry → Received
settled s t again (some err, l, entries) = record {
  result = some err;
  messages = l;
  call_again = false;
  topic = record t { entries = entries };
}
settled s t again (none, l, entries) = record {
  result = none;
  messages = l;
  call_again = again;
  topic = update_latest s.id l (record t { entries = entries });
}

-- The rest of `receive_msg_core`, once the walk back has ended.
unfoldable pub receive_found : Env → Subscriber → Topic → Found → Received
unfolding fill is_cut set_latest
receive_found env s t missing = record {
  result = some enodata;
  messages = [];
  call_again = false;
  topic = t;
}
receive_found env s t (found node num) =
    settled s t (is_cut env t s max_receive_num node && ltb max_receive_num num)
      (fill env t s max_receive_num node t.entries)

unfoldable pub receive_msg_core : Env → Subscriber → Topic → Received
unfolding walk_back receive_found reverse_onto
receive_msg_core env s t =
    if is_empty t.entries || (s.qos_depth == 0)
    then nothing t
    else receive_found env s t
        (walk_back env t s (oldest_wanted s.latest_received) (reverse t.entries) [] [] 0)

-- `agnocast_ioctl_receive_msg` up to the mapping of memory, once the topic is found.
unfoldable pub receive_msg : Env → ℕ → Topic → Received
unfolding find_subscriber receive_msg_core
receive_msg env sub t = elim (find_subscriber sub t.subscribers) [
  | none ↦ record { result = some einval; messages = []; call_again = false; topic = t }
  | some s ↦ receive_msg_core env s t
]

-- The search of `agnocast_ioctl_take_msg`, with how many more deliverable entries it looks at.
pub data Candidate : Type 0 where
  candidate : Option Entry → Candidate
  lost : Candidate

module _ (env : Env) (t : Topic) (s : Subscriber) (allow_same : Bool) where
  abbrev pub stops : Entry → Bool
  stops e = elim s.latest_received [
    | none ↦ false
    | some l ↦ if not allow_same && (e.entry_id == l) then true else ltb e.entry_id l
  ]

  unfoldable pub search_back : ℕ → List Entry → Option Entry → Candidate
  unfolding is_entry_deliverable
  search_back zero l best = candidate best
  search_back (suc room) [] best = candidate best
  search_back (suc room) (e ∷ r) best =
      if stops e then candidate best else elim (is_entry_deliverable env t s e) [
        | no_publisher ↦ lost
        | skip ↦ search_back (suc room) r best
        | deliver ↦ search_back room r (some e)
      ]

-- What taking gives: the entry, if there is one.
pub record Taken : Type 0 where
  pub result : Option Errno
  pub message : Option Entry
  pub topic : Topic

abbrev pub claim : Subscriber → Entry → Topic → Topic
claim s e t = record t {
  entries = mark s.id e.entry_id t.entries;
  subscribers = set_latest s.id e.entry_id t.subscribers;
}

-- The reference is claimed; one that is held already is reused if that is allowed.
unfoldable pub take_candidate : Subscriber → Bool → Entry → Topic → Taken
unfolding mark set_latest reference_error
take_candidate s allow_same e t = elim (reference_error s.id e) [
  | none ↦ record { result = none; message = some e; topic = claim s e t }
  | some ealready ↦
      if allow_same
      then record { result = none; message = some e; topic = claim s e t }
      else record { result = some ealready; message = none; topic = t }
  | some other ↦ record { result = some other; message = none; topic = t }
]

unfoldable pub take_found : Subscriber → Bool → Topic → Candidate → Taken
unfolding take_candidate
take_found s allow_same t lost = record { result = some enodata; message = none; topic = t }
take_found s allow_same t (candidate none) = record { result = none; message = none; topic = t }
take_found s allow_same t (candidate (some e)) = take_candidate s allow_same e t

unfoldable pub take_msg : Env → ℕ → Bool → Topic → Taken
unfolding find_subscriber search_back take_found reverse_onto
take_msg env sub allow_same t = elim (find_subscriber sub t.subscribers) [
  | none ↦ record { result = some einval; message = none; topic = t }
  | some s ↦
      take_found s allow_same t
        (search_back env t s allow_same s.qos_depth (reverse t.entries) none)
]

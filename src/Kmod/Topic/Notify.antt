-- ===== src/Kmod/Topic/Notify.antt =====
-- agnocast_ioctl.c: the lists of contexts that a publisher signals, kept as endpoints come and go.
use agnocast.Prelude.{
  ℕ, zero, suc, ◌+◌, ◌*◌, Bool, true, false, ◌&&◌, not, Option, none, some, List, [], ◌∷◌, ltb, leb,
  ◌==◌, if◌then◌else◌,
}
use agnocast.Kmod.State.{Publisher, Subscriber, Topic, Env, Errno, enomem, max_subscriber_num}
use agnocast.Kmod.Topic.Delivery.{domain_delivery_allowed}

unfoldable pub notifiable_subscriber_num : List Subscriber → ℕ
notifiable_subscriber_num [] = 0
notifiable_subscriber_num (s ∷ r) =
    let rest = notifiable_subscriber_num r in elim s.notify_ctx [ none ↦ rest | some c ↦ rest + 1 ]

abbrev pub notify_ctxs_min_capacity : ℕ
notify_ctxs_min_capacity = 8

abbrev pub max : ℕ → ℕ → ℕ
max a b = if ltb a b then b else a

abbrev pub min : ℕ → ℕ → ℕ
min a b = if ltb b a then b else a

-- The capacity that a publisher's list grows to.
unfoldable pub new_capacity : ℕ → ℕ → ℕ
new_capacity capacity needed =
    max (min (if capacity == 0 then notify_ctxs_min_capacity else capacity * 2) max_subscriber_num)
      needed

-- `reserve_notify_ctxs`; `allocates` says whether the allocation, if there is one, succeeds.
unfoldable pub reserve_notify_ctxs : Bool → ℕ → Publisher → Option Errno × Publisher
unfolding new_capacity
reserve_notify_ctxs allocates needed p =
    if leb needed p.notify_capacity
    then (none, p)
    else if allocates
    then (none, record p { notify_capacity = new_capacity p.notify_capacity needed })
    else (some enomem, p)

-- `reserve_all_notify_ctxs`, which stops at the first failure.
unfoldable pub reserve_all : (ℕ → Bool) → ℕ → List Publisher → Option Errno × List Publisher
unfolding reserve_notify_ctxs
reserve_all allocates needed [] = (none, [])
reserve_all allocates needed (p ∷ r) =
    let first = reserve_notify_ctxs (allocates p.id) needed p in
    let rest = reserve_all allocates needed r in
    elim (first.0) [ some err ↦ (some err, p ∷ r) | none ↦ (rest.0, first.1 ∷ rest.1) ]

-- Whether publishing at `p` wakes `s`, which has a context.
unfoldable pub is_notified : Env → Topic → Publisher → Subscriber → Bool
unfolding domain_delivery_allowed
is_notified env t p s =
    if not (domain_delivery_allowed env t p.domain_id p.is_bridge s.domain_id s.is_bridge)
    then false
    else not (s.ignores_local && (s.pid == p.pid))

-- The loop of `rebuild_notify_list`, with the room that is left.
unfoldable pub notify_list : Env → Topic → Publisher → ℕ → List Subscriber → List ℕ
unfolding is_notified
notify_list env t p room [] = []
notify_list env t p room (s ∷ r) = elim s.notify_ctx [
  | none ↦ notify_list env t p room r
  | some c ↦ elim (is_notified env t p s) [
    | false ↦ notify_list env t p room r
    | true ↦ elim room [ zero ↦ [] | suc k ↦ c ∷ notify_list env t p k r ]
  ]
]

-- `rebuild_all_notify_lists` over the publishers.
unfoldable pub rebuild_lists : Env → Topic → List Publisher → List Publisher
unfolding notify_list
rebuild_lists env t [] = []
rebuild_lists env t (p ∷ r) =
    record p { notify_ctxs = notify_list env t p p.notify_capacity t.subscribers }
    ∷ rebuild_lists env t r

abbrev pub rebuild_all_notify_lists : Env → Topic → Topic
rebuild_all_notify_lists env t = record t { publishers = rebuild_lists env t t.publishers }

-- ===== src/Kmod/Topic/Delivery.antt =====
-- agnocast_ioctl.c: to whom a message may be delivered.
use agnocast.Prelude.{
  ℕ, Bool, true, false, ◌&&◌, ◌||◌, not, Option, none, some, List, [], ◌∷◌, ◌==◌, if◌then◌else◌,
  get_elem?,
}
use agnocast.Kmod.State.{Process, DomainRule, Publisher, Subscriber, Entry, Topic, Env}

-- `agnocast_find_process_info`
unfoldable pub find_process : ℕ → List Process → Option Process
find_process pid [] = none
find_process pid (p ∷ r) = let rest = find_process pid r in if p.pid == pid then some p else rest

unfoldable pub find_publisher : ℕ → List Publisher → Option Publisher
find_publisher id [] = none
find_publisher id (p ∷ r) = let rest = find_publisher id r in if p.id == id then some p else rest

unfoldable pub find_subscriber : ℕ → List Subscriber → Option Subscriber
find_subscriber id [] = none
find_subscriber id (s ∷ r) = let rest = find_subscriber id r in if s.id == id then some s else rest

-- `find_message_entry`
unfoldable pub find_entry : ℕ → List Entry → Option Entry
find_entry id [] = none
find_entry id (e ∷ r) = let rest = find_entry id r in if e.entry_id == id then some e else rest

-- Whether a process is registered and has not exited.
unfoldable pub is_alive : Env → ℕ → Bool
unfolding find_process
is_alive env pid = elim (find_process pid env.processes) [ none ↦ false | some p ↦ not p.exited ]

-- The direction that a rule gives.
abbrev pub rule_allows : DomainRule → ℕ → ℕ → Bool
rule_allows r pub_domain sub_domain =
    if (pub_domain == r.domain_a) && (sub_domain == r.domain_b)
    then r.a_to_b
    else if (pub_domain == r.domain_b) && (sub_domain == r.domain_a)
    then r.b_to_a
    else false

abbrev pub rule_of : Env → Topic → Option DomainRule
rule_of env t = elim t.rule [ none ↦ none | some i ↦ get_elem? env.rules i ]

unfoldable pub domain_delivery_allowed : Env → Topic → ℕ → Bool → ℕ → Bool → Bool
domain_delivery_allowed env t pub_domain pub_is_bridge sub_domain sub_is_bridge =
    if pub_domain == sub_domain
    then true
    else if pub_is_bridge || sub_is_bridge
    then false
    else elim (rule_of env t) [ none ↦ false | some r ↦ rule_allows r pub_domain sub_domain ]

-- 1, 0 and -ENODATA of `is_entry_deliverable`.
pub data Delivery : Type 0 where
  deliver skip no_publisher : Delivery

-- Whether the publisher's messages may be handed to the subscriber.
unfoldable pub delivers : Env → Topic → Subscriber → Publisher → Bool
unfolding is_alive domain_delivery_allowed
delivers env t s p =
    if not (is_alive env p.pid)
    then false
    else if s.ignores_local && (s.pid == p.pid)
    then false
    else domain_delivery_allowed env t p.domain_id p.is_bridge s.domain_id s.is_bridge

unfoldable pub is_entry_deliverable : Env → Topic → Subscriber → Entry → Delivery
unfolding find_publisher delivers
is_entry_deliverable env t s e = elim (find_publisher e.publisher_id t.publishers) [
  | none ↦ no_publisher
  | some p ↦ if delivers env t s p then deliver else skip
]

-- `agnocast_is_referenced`
abbrev pub is_referenced : Entry → Bool
is_referenced e = elim e.referencing [ [] ↦ false | i ∷ r ↦ true ]

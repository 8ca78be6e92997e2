-- ===== src/Kmod/Topic/Window/Take.antt =====
-- What a take gives.
use agnocast.Prelude.{
  ℕ, zero, suc, ◌+◌, ◌≡◌, refl, Bool, true, ◌&&◌, not, Option, none, some, List, [], ◌∷◌, arith,
  ltb, if◌then◌else◌, Option-cases, inl, inr,
}
use agnocast.Kmod.State.{Topic, Entry, Env, Subscriber, ealready, max_topic_local_id}
use agnocast.Kmod.Lists.{contains, select, take, all, reverse_onto, reverse, newest, head}
use agnocast.Kmod.Topic.Delivery.{find_subscriber}
use agnocast.Kmod.Topic.Receive.{
  reference_error, mark, set_latest, candidate, stops, search_back, take_candidate, take_found,
  claim, take_msg,
}
use agnocast.Kmod.Topic.Window.{
  ascending, descending, select-reverse_onto, select-past, reverse-descending, all-reverse_onto,
  has_publisher, is_wanted,
}

-- The first id that a take looks at: the latest received one itself is given again only on request.
abbrev pub oldest_taken : Bool → Option ℕ → ℕ
oldest_taken allow_same none = 0
oldest_taken allow_same (some l) = if allow_same then l else l + 1

-- The last of a list, or what came before it.
abbrev pub last_or : Option Entry → List Entry → Option Entry
last_or best [] = best
last_or best (e ∷ r) = last_or (some e) r

head-reverse_onto : (l acc : List Entry) → head (reverse_onto l acc) ≡ last_or (head acc) l
unfolding reverse_onto
head-reverse_onto [] acc = refl
head-reverse_onto (e ∷ l) acc = head-reverse_onto l (e ∷ acc)

module _ (env : Env) (t : Topic) (s : Subscriber) (allow_same : Bool) where
  stops_lem :
      (e : Entry)
      → stops env t s allow_same e ≡ ltb e.entry_id (oldest_taken allow_same s.latest_received)
  stops_lem e = ground arith

  search_back-last :
      (room : ℕ) (l : List Entry) (best : Option Entry)
      → descending l ≡ true
      → all (has_publisher env t s) l ≡ true
      → search_back env t s allow_same room l best
        ≡ candidate (
            last_or best (
              take room (select (is_wanted env t s (oldest_taken allow_same s.latest_received)) l)))
  unfolding search_back select take all descending
  search_back-last zero l best d p = refl
  search_back-last (suc room) [] best d p = refl
  search_back-last (suc room) (e ∷ r) best d p = ground (
    arith,
    stops_lem e,
    select-past env t s (oldest_taken allow_same s.latest_received) e.entry_id r,
    search_back-last (suc room) r best,
    search_back-last room r (some e),
  )

-- The deliverable entries that a take may give, the newest of them up to the depth.
abbrev pub takeable : Env → Topic → Subscriber → Bool → List Entry
takeable env t s allow_same =
    newest s.qos_depth
      (select (is_wanted env t s (oldest_taken allow_same s.latest_received)) t.entries)

search_back-takeable :
    (env : Env) (t : Topic) (s : Subscriber) (allow_same : Bool)
    → ascending t.entries ≡ true
    → all (has_publisher env t s) t.entries ≡ true
    → search_back env t s allow_same s.qos_depth (reverse t.entries) none
      ≡ candidate (head (takeable env t s allow_same))
unfolding all select reverse_onto
search_back-takeable env t s b a p =
    let w = oldest_taken b s.latest_received in
    let f = select-reverse_onto (is_wanted env t s w) t.entries [] in
    rw
      (search_back-last env t s b s.qos_depth (reverse t.entries) none
        (reverse-descending t.entries a)
        (all-reverse_onto (has_publisher env t s) t.entries [] p refl))
      (ground (
        arith,
        f,
        head-reverse_onto (take s.qos_depth (select (is_wanted env t s w) (reverse t.entries))) [],
      ))

take_candidate_lem :
    (s : Subscriber) (allow_same : Bool) (e : Entry) (t : Topic)
    → ltb s.id max_topic_local_id ≡ true
    → take_candidate s allow_same e t ≡ (
        if contains s.id e.referencing && not allow_same
        then record { result = some ealready; message = none; topic = t }
        else record { result = none; message = some e; topic = claim s e t })
unfolding take_candidate reference_error
take_candidate_lem s b e t f = ground arith

pub take_msg_lem :
    (env : Env) (t : Topic) (sub : ℕ) (s : Subscriber) (allow_same : Bool)
    → find_subscriber sub t.subscribers ≡ some s
    → ltb s.id max_topic_local_id ≡ true
    → ascending t.entries ≡ true
    → all (has_publisher env t s) t.entries ≡ true
    → take_msg env sub allow_same t ≡ elim (head (takeable env t s allow_same)) [
      | none ↦ record { result = none; message = none; topic = t }
      | some e ↦
          if contains s.id e.referencing && not allow_same
          then record { result = some ealready; message = none; topic = t }
          else record {
            result = none;
            message = some e;
            topic = record t {
              entries = mark s.id e.entry_id t.entries;
              subscribers = set_latest s.id e.entry_id t.subscribers;
            };
          }
    ]
unfolding take_msg take_found
take_msg_lem env t sub s b e f a p =
    rw (e, take_msg)
      (rw (search_back-takeable env t s b a p) (elim (Option-cases (head (takeable env t s b))) [
        | inl g ↦ rw g refl
        | inr (x, g) ↦ rw g (take_candidate_lem s b x t f)
      ]))

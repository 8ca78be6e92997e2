-- ===== src/Kmod/Topic/Valid/Receive.antt =====
-- A receive and a take keep a topic well formed.
use agnocast.Prelude.{
  ℕ, zero, suc, ◌+◌, ◌≤◌, ◌≡◌, refl, sym, Bool, true, some, List, [], ◌∷◌, arith, ltb, Option-cases,
  inl, inr,
}
use agnocast.Kmod.State.{Topic, Entry, Subscriber, Env, max_receive_num}
use agnocast.Kmod.Lists.{all, select, take, newest, head, reverse}
use agnocast.Kmod.Topic.Delivery.{find_subscriber}
use agnocast.Kmod.Topic.Receive.{oldest_wanted, receive_msg, take_msg}
use agnocast.Kmod.Topic.Window.{
  ascending, descending, is_wanted, reverse-descending, reverse-ascending, all-take,
  all-reverse_onto,
}
use agnocast.Kmod.Topic.Window.Receive.{window, receive_msg_lem}
use agnocast.Kmod.Topic.Window.Take.{takeable, oldest_taken, take_msg_lem}
use agnocast.Kmod.Topic.Valid.{fresh_from, IsValid}
use agnocast.Kmod.Topic.Valid.Entries.{ascending-select}
use agnocast.Kmod.Topic.Valid.Given.{
  IsValid-has_publisher, IsValid-fits, all-find_subscriber, follows, given-IsValid,
  take_one-IsValid,
}

-- What is given is in order, and follows what was received.
descending-take : (n : ℕ) (l : List Entry) → descending l ≡ true → descending (take n l) ≡ true
unfolding descending take
descending-take zero l d = refl
descending-take (suc n) [] d = refl
descending-take (suc n) (e ∷ l) d =
    ground (arith, descending-take n l, all-take (λ x. ltb x.entry_id e.entry_id) n l)

ascending-take : (n : ℕ) (l : List Entry) → ascending l ≡ true → ascending (take n l) ≡ true
unfolding ascending take
ascending-take zero l d = refl
ascending-take (suc n) [] d = refl
ascending-take (suc n) (e ∷ l) d =
    ground (arith, ascending-take n l, all-take (λ x. ltb e.entry_id x.entry_id) n l)

ascending-newest : (n : ℕ) (l : List Entry) → ascending l ≡ true → ascending (newest n l) ≡ true
ascending-newest n l a =
    reverse-ascending (take n (reverse l)) (descending-take n (reverse l) (reverse-descending l a))

all-newest :
    (p : Entry → Bool) (n : ℕ) (l : List Entry) → all p l ≡ true → all p (newest n l) ≡ true
unfolding all
all-newest p n l a =
    all-reverse_onto p (take n (reverse l)) []
      (all-take p n (reverse l) (all-reverse_onto p l [] a refl)) refl

wanted-follows :
    (env : Env) (t : Topic) (s : Subscriber) (w : ℕ) (l : List Entry)
    → oldest_wanted s.latest_received ≤ w + 1
    → all (λ e. follows s.latest_received e.entry_id) (select (is_wanted env t s w) l) ≡ true
unfolding all select
wanted-follows env t s w [] b = refl
wanted-follows env t s w (e ∷ l) b = ground (arith, wanted-follows env t s w l b)

pub receive-IsValid :
    (env : Env) (sub : ℕ) (t : Topic) → IsValid t → IsValid (receive_msg env sub t).topic
unfolding receive_msg
receive-IsValid env sub t v = elim (Option-cases (find_subscriber sub t.subscribers)) [
  | inl e ↦ rw (e, receive_msg) v
  | inr (s, e) ↦
      let kept =
        all-find_subscriber (λ s. fresh_from (oldest_wanted s.latest_received) s.id t.entries) sub
          t.subscribers s e v.fresh in
      let w = oldest_wanted s.latest_received in
      let l = select (is_wanted env t s w) t.entries in
      rw (receive_msg_lem env t sub s e v.ordered (IsValid-has_publisher env t s v) kept) (
        given-IsValid sub s t e v (take max_receive_num (window env t s))
          (ascending-take max_receive_num (window env t s) (
            ascending-newest s.qos_depth l
              (ascending-select (is_wanted env t s w) t.entries v.ordered)))
          (all-take (λ (e : Entry). follows s.latest_received e.entry_id) max_receive_num
            (window env t s)
            (all-newest (λ (e : Entry). follows s.latest_received e.entry_id) s.qos_depth l
              (wanted-follows env t s w t.entries (omega arith)))))
]

all-head :
    (p : Entry → Bool) (l : List Entry) (x : Entry) → head l ≡ some x → all p l ≡ true → p x ≡ true
unfolding all
all-head p [] x e h = ground arith
all-head p (y ∷ l) x e h = let f : y ≡ x = ground arith in rw (sym f) (ground arith)

pub take-IsValid :
    (env : Env) (sub : ℕ) (allow_same : Bool) (t : Topic)
    → IsValid t
    → IsValid (take_msg env sub allow_same t).topic
unfolding take_msg
take-IsValid env sub b t v = elim (Option-cases (find_subscriber sub t.subscribers)) [
  | inl e ↦ rw (e, take_msg) v
  | inr (s, e) ↦
      let w = oldest_taken b s.latest_received in
      rw
        (take_msg_lem env t sub s b e (IsValid-fits sub t s e v) v.ordered
          (IsValid-has_publisher env t s v))
        (elim (Option-cases (head (takeable env t s b))) [
          | inl f ↦ rw f v
          | inr (x, f) ↦ rw f (
              ground (
                arith,
                take_one-IsValid sub s t e v x (
                    all-head (λ (e : Entry). follows s.latest_received e.entry_id)
                      (takeable env t s b) x f
                      (all-newest (λ (e : Entry). follows s.latest_received e.entry_id) s.qos_depth
                        (select (is_wanted env t s w) t.entries)
                        (wanted-follows env t s w t.entries (ground arith)))),
              ))
        ])
]

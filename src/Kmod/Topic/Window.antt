-- ===== src/Kmod/Topic/Window.antt =====
-- What a subscriber is given: the newest deliverable messages that it has not received.
pub mod Receive
pub mod Take
use agnocast.Prelude.{
  ℕ, zero, suc, ◌+◌, ◌-◌, ◌≤◌, ◌<◌, ◌≡◌, refl, sym, ap, ◌∙◌, Bool, true, false, ◌&&◌, ◌||◌, not,
  Option, none, some, List, [], ◌∷◌, ◌++◌, arith, ltb, leb, ◌==◌, if◌then◌else◌, length, map,
  Bool-cases, Option-cases, inl, inr,
}
use agnocast.Kmod.State.{Topic, Entry, Env, Subscriber, Errno}
use agnocast.Kmod.Lists.{is_empty, select, take, all, reverse_onto, reverse, newest, head}
use agnocast.Kmod.Topic.Delivery.{Delivery, deliver, skip, no_publisher, is_entry_deliverable}
use agnocast.Kmod.Topic.Receive.{
  Found, found, missing, walk_back, fill, reference_error, mark, search_back, Candidate, candidate,
  lost, stops,
}

-- The entries' ids go up, or down.
unfoldable pub ascending : List Entry → Bool
unfolding all
ascending [] = true
ascending (e ∷ r) = all (λ x. ltb e.entry_id x.entry_id) r && ascending r

unfoldable pub descending : List Entry → Bool
unfolding all
descending [] = true
descending (e ∷ r) = all (λ x. ltb x.entry_id e.entry_id) r && descending r

module _ {ℓ} {A : Type ℓ} where
  pub all-and :
      (p q : A → Bool) (l : List A)
      → all p l ≡ true
      → all q l ≡ true
      → all (λ x. p x && q x) l ≡ true
  unfolding all
  all-and p q [] a b = refl
  all-and p q (x ∷ l) a b = ground (arith, all-and p q l)

  pub all-imply :
      (p q r : A → Bool) (l : List A)
      → ((x : A) → p x ≡ true → q x ≡ true → r x ≡ true)
      → all p l ≡ true
      → all q l ≡ true
      → all r l ≡ true
  unfolding all
  all-imply p q r [] f a b = refl
  all-imply p q r (x ∷ l) f a b = ground (arith, f x, all-imply p q r l f)

  pub all-reverse_onto :
      (p : A → Bool) (l acc : List A)
      → all p l ≡ true
      → all p acc ≡ true
      → all p (reverse_onto l acc) ≡ true
  unfolding all reverse_onto
  all-reverse_onto p [] acc a b = b
  all-reverse_onto p (x ∷ l) acc a b = all-reverse_onto p l (x ∷ acc) (ground arith) (ground arith)

  pub all-or : (p q : A → Bool) (l : List A) → all q l ≡ true → all (λ x. p x || q x) l ≡ true
  unfolding all
  all-or p q [] a = refl
  all-or p q (x ∷ l) a = ground (arith, all-or p q l)

  all-true : (p : A → Bool) (l : List A) → ((x : A) → p x ≡ true) → all p l ≡ true
  unfolding all
  all-true p [] h = refl
  all-true p (x ∷ l) h = ground (arith, h x, all-true p l h)

  pub all-nil : (p : A → Bool) → all p [] ≡ true
  unfolding all
  all-nil p = refl

  pub all-take : (p : A → Bool) (n : ℕ) (l : List A) → all p l ≡ true → all p (take n l) ≡ true
  unfolding all take
  all-take p zero l a = refl
  all-take p (suc n) [] a = refl
  all-take p (suc n) (x ∷ l) a = ground (arith, all-take p n l)

  pub length-reverse_onto : (l acc : List A) → length (reverse_onto l acc) ≡ length l + length acc
  unfolding reverse_onto
  length-reverse_onto [] acc = ground arith
  length-reverse_onto (x ∷ l) acc = ground (arith, length-reverse_onto l (x ∷ acc))

  pub newest-nil :
      (p : A → Bool) (n : ℕ) (l : List A)
      → is_empty l || (n == 0) ≡ true
      → newest n (select p l) ≡ []
  unfolding select reverse_onto take
  newest-nil p zero l h = refl
  newest-nil p (suc n) [] h = refl
  newest-nil p (suc n) (x ∷ l) h = ground arith

  pub select-reverse_onto :
      (p : A → Bool) (l acc : List A)
      → select p (reverse_onto l acc) ≡ reverse_onto (select p l) (select p acc)
  unfolding select reverse_onto
  select-reverse_onto p [] acc = refl
  select-reverse_onto p (x ∷ l) acc = ground (arith, select-reverse_onto p l (x ∷ acc))

descending-reverse_onto :
    (l acc : List Entry)
    → ascending l ≡ true
    → descending acc ≡ true
    → all (λ e. all (λ x. ltb x.entry_id e.entry_id) acc) l ≡ true
    → descending (reverse_onto l acc) ≡ true
unfolding ascending descending reverse_onto all
descending-reverse_onto [] acc a d b = d
descending-reverse_onto (e ∷ l) acc a d b =
    descending-reverse_onto l (e ∷ acc) (ground arith) (ground arith) (
      all-and (λ x. ltb e.entry_id x.entry_id) (λ x. all (λ y. ltb y.entry_id x.entry_id) acc) l
        (ground arith) (ground arith))

pub reverse-descending : (l : List Entry) → ascending l ≡ true → descending (reverse l) ≡ true
unfolding descending
reverse-descending l a = descending-reverse_onto l [] a refl (
    all-true (λ (e : Entry). all (λ (x : Entry). ltb x.entry_id e.entry_id) []) l
      (λ e. all-nil (λ (x : Entry). ltb x.entry_id e.entry_id)))

ascending-reverse_onto :
    (l acc : List Entry)
    → descending l ≡ true
    → ascending acc ≡ true
    → all (λ e. all (λ x. ltb e.entry_id x.entry_id) acc) l ≡ true
    → ascending (reverse_onto l acc) ≡ true
unfolding ascending descending reverse_onto all
ascending-reverse_onto [] acc a d b = d
ascending-reverse_onto (e ∷ l) acc a d b =
    ascending-reverse_onto l (e ∷ acc) (ground arith) (ground arith) (
      all-and (λ x. ltb x.entry_id e.entry_id) (λ x. all (λ y. ltb x.entry_id y.entry_id) acc) l
        (ground arith) (ground arith))

pub reverse-ascending : (l : List Entry) → descending l ≡ true → ascending (reverse l) ≡ true
unfolding ascending
reverse-ascending l a = ascending-reverse_onto l [] a refl (
    all-true (λ (e : Entry). all (λ (x : Entry). ltb e.entry_id x.entry_id) []) l
      (λ e. all-nil (λ (x : Entry). ltb e.entry_id x.entry_id)))

module _ (env : Env) (t : Topic) (s : Subscriber) where
  abbrev pub is_delivered : Entry → Bool
  is_delivered e = elim (is_entry_deliverable env t s e) [
    | deliver ↦ true
    | skip ↦ false
    | no_publisher ↦ false
  ]

  abbrev pub has_publisher : Entry → Bool
  has_publisher e = elim (is_entry_deliverable env t s e) [
    | deliver ↦ true
    | skip ↦ true
    | no_publisher ↦ false
  ]

  -- The deliverable entries from the id `wanted` on.
  abbrev pub is_wanted : ℕ → Entry → Bool
  is_wanted wanted e = leb wanted e.entry_id && is_delivered e

  pub select-past :
      (wanted k : ℕ) (l : List Entry)
      → all (λ x. ltb x.entry_id k) l ≡ true
      → k ≤ wanted
      → select (is_wanted wanted) l ≡ []
  unfolding select all
  select-past w k [] a h = refl
  select-past w k (e ∷ l) a h = ground (arith, select-past w k l)

  -- What the walk found: the deliverable entries, and their number.
  abbrev pub selected : Found → Option (List Entry × ℕ)
  selected missing = none
  selected (found node num) = some (select is_delivered node, num)

  pub walk_back-selected :
      (wanted : ℕ) (l ahead node : List Entry) (num room : ℕ)
      → descending l ≡ true
      → all has_publisher l ≡ true
      → select is_delivered ahead ≡ select is_delivered node
      → num + suc room ≡ s.qos_depth
      → selected (walk_back env t s wanted l ahead node num)
        ≡ some (
          reverse_onto (take (suc room) (select (is_wanted wanted) l)) (select is_delivered node),
          num + length (take (suc room) (select (is_wanted wanted) l)),
        )
  unfolding walk_back select take reverse_onto all descending
  walk_back-selected w [] ahead node num room d p a h = ground arith
  walk_back-selected w (e ∷ r) ahead node num zero d p a h =
      ground (arith, select-past w e.entry_id r, walk_back-selected w r (e ∷ ahead) node num zero)
  walk_back-selected w (e ∷ r) ahead node num (suc room) d p a h = ground (
    arith,
    select-past w e.entry_id r,
    walk_back-selected w r (e ∷ ahead) node num (suc room),
    walk_back-selected w r (e ∷ ahead) (e ∷ ahead) (num + 1) room,
  )

  -- What holds of the entries from `wanted` on holds of those that the walk found.
  abbrev pub finds_all : (Entry → Bool) → Found → Bool
  finds_all p missing = true
  finds_all p (found node num) = all p node

  pub walk_back-finds_all :
      (p : Entry → Bool) (wanted : ℕ) (l ahead node : List Entry) (num : ℕ)
      → all (λ e. ltb e.entry_id wanted || p e) l ≡ true
      → all p ahead ≡ true
      → all p node ≡ true
      → finds_all p (walk_back env t s wanted l ahead node num) ≡ true
  unfolding walk_back all
  walk_back-finds_all p w [] ahead node num b a n = n
  walk_back-finds_all p w (e ∷ r) ahead node num b a n = ground (
    arith,
    walk_back-finds_all p w r (e ∷ ahead) node num,
    walk_back-finds_all p w r (e ∷ ahead) (e ∷ ahead) (num + 1),
  )

  -- The whole walk: it finds the newest of the wanted entries, as many as the depth, in order.
  pub walk_back-newest :
      (wanted : ℕ)
      → ascending t.entries ≡ true
      → all has_publisher t.entries ≡ true
      → 0 < s.qos_depth
      → let l = newest s.qos_depth (select (is_wanted wanted) t.entries) in
        selected (walk_back env t s wanted (reverse t.entries) [] [] 0) ≡ some (l, length l)
  unfolding select all
  walk_back-newest w a p d =
      let q =
        walk_back-selected w (reverse t.entries) [] [] 0 (s.qos_depth - 1)
          (reverse-descending t.entries a) (all-reverse_onto has_publisher t.entries [] p refl) refl
          (omega arith) in
      let e : suc (s.qos_depth - 1) ≡ s.qos_depth = omega arith in
      let f = select-reverse_onto (is_wanted w) t.entries [] in
      ground (
        arith,
        length-reverse_onto (take s.qos_depth (select (is_wanted w) (reverse t.entries))) [],
      )

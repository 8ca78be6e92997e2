-- ===== src/MessageFilters/ExactTime/Add.antt =====
-- `add` of ExactTime: what is signalled, what is dropped, what stays.
use agnocast.Prelude.{
  ℕ, zero, ◌⊎◌, suc, ◌≤◌, ◌≡◌, refl, sym, ap, ◌∙◌, inl, inr, true, false, none, some, List, [], ◌∷◌,
  ◌++◌, arith, ltb, length, set, length-set, Bool-cases,
}
use mathlib.Core.List.{append_assoc, map-append, append-nil}
use agnocast.MessageFilters.Message.{Message, Tuple}
use agnocast.MessageFilters.ExactTime.Defs.{
  ExactTime, Entry, full, full_from, insert, find, erase, clear_old_tuples, drop_excess, tuples_of,
  first_stamp, signal_tuple, limit_queue, check_tuple, add,
}
use agnocast.MessageFilters.ExactTime.Store.{
  Stamped, Chain, Stamped-set, Chain-mono, find-insert, erase-insert, find-Stamped, Chain-erase,
  Chain-insert, clear-append, clear-Chain, excess-append, excess-length, excess-Chain,
}
use agnocast.MessageFilters.ExactTime.Kept.{
  later_than, limited, later-erase, clear-later, excess-drop,
}

-- The map is in order, its tuples have one stamp each, and none of them is full.
abbrev pub IsValid : ExactTime → Type 0
IsValid s = Chain s.real_type_count 0 s.tuples

-- The tuple that the message completes or extends: the stored one of its stamp, the slot written.
abbrev pub joined : ℕ → Message → ExactTime → Tuple
joined i m s = set (find m.stamp s.tuples) i (some m)

-- Of the entries `l` those in front were dropped, in order, and `u` holds the others.
pub record Keeps (l : List Entry) (s u : ExactTime) : Type 0 where
  pub dropped : List Entry
  pub split : dropped ++ u.tuples ≡ l
  pub reported : u.drops ≡ s.drops ++ tuples_of dropped

pub first_stamp-Stamped :
    (n k : ℕ) (t : Tuple) → length t ≡ 9 → Stamped k t → full n t ≡ true → first_stamp t ≡ k
unfolding full_from
first_stamp-Stamped n k [] h st f = absurd (omega arith)
first_stamp-Stamped n k (none ∷ t) h st f = cc
first_stamp-Stamped n k (some m ∷ t) h st f = st.0

limit-Keeps : (l : List Entry) (s u : ExactTime) → Keeps l s u → Keeps l s (limit_queue u)
unfolding limit_queue
limit-Keeps l s u k = elim (Bool-cases (ltb 0 u.queue_size)) [
  | inl e ↦ rw e (record {
    dropped = k.dropped ++ (drop_excess u.queue_size u.tuples).0;
    split =
        append_assoc k.dropped _ _
        ∙ ap (◌++◌ k.dropped) (excess-append u.queue_size u.tuples)
        ∙ k.split;
    reported = simp (k.reported, map-append, append_assoc);
  })
  | inr e ↦ rw e k
]

limit-limited : (s : ExactTime) → (limit_queue s).tuples ≡ limited s.queue_size s.tuples
unfolding limit_queue
limit-limited s = by_size s.queue_size refl
  where
    by_size : (q : ℕ) → s.queue_size ≡ q → (limit_queue s).tuples ≡ limited s.queue_size s.tuples
    by_size zero e = ground (arith, e)
    by_size (suc q) e = ground (arith, e, excess-drop s.queue_size s.tuples)

-- A queue of size 0 is unbounded.
abbrev pub Bounded : ℕ → List Entry → Type 0
Bounded q l = (q ≡ 0) ⊎ (length l ≤ q)

-- What `limit_queue` leaves alone, and the bound that it enforces.
limit-rest :
    (lo : ℕ) (s : ExactTime)
    → Chain s.real_type_count lo s.tuples
    → ((limit_queue s).signals ≡ s.signals)
      × ((limit_queue s).last_signal_time ≡ s.last_signal_time)
      × ((limit_queue s).real_type_count ≡ s.real_type_count)
      × ((limit_queue s).queue_size ≡ s.queue_size)
      × Chain s.real_type_count lo (limit_queue s).tuples
      × Bounded s.queue_size (limit_queue s).tuples
unfolding limit_queue
limit-rest lo s c = elim (Bool-cases (ltb 0 s.queue_size)) [
  | inl e ↦ rw e (
    refl,
    refl,
    refl,
    refl,
    excess-Chain s.real_type_count lo s.queue_size s.tuples c,
    inr (excess-length s.queue_size s.tuples),
  )
  | inr e ↦ rw e (refl, refl, refl, refl, c, inl (ground arith))
]

check-full :
    (t : Tuple) (s : ExactTime)
    → full s.real_type_count t ≡ true
    → check_tuple t s ≡ limit_queue (signal_tuple t s)
unfolding check_tuple
check-full t s f = rw f

check-waiting :
    (t : Tuple) (s : ExactTime) → full s.real_type_count t ≡ false → check_tuple t s ≡ limit_queue s
unfolding check_tuple
check-waiting t s f = rw f

module _ (i : ℕ) (m : Message) (s : ExactTime) (v : IsValid s) where
  abbrev stored : ExactTime
  stored = record s { tuples = insert i m s.tuples }

  abbrev signalled : ExactTime
  signalled = signal_tuple (joined i m s) stored

  add-joined : add i m s ≡ check_tuple (joined i m s) stored
  unfolding add
  add-joined = ap (λ t. check_tuple t stored) (find-insert s.real_type_count 0 i m s.tuples v)

  pub joined-Stamped : Stamped m.stamp (joined i m s)
  joined-Stamped =
      Stamped-set m.stamp (find m.stamp s.tuples) i m
        (find-Stamped s.real_type_count 0 m.stamp s.tuples v).0 refl

  module _ (f : full s.real_type_count (joined i m s) ≡ true) where
    pub first : first_stamp (joined i m s) ≡ m.stamp
    first =
        first_stamp-Stamped s.real_type_count m.stamp (joined i m s)
          (length-set (find m.stamp s.tuples) i (some m)
            ∙ (find-Stamped s.real_type_count 0 m.stamp s.tuples v).1)
          joined-Stamped f

    erased : erase (first_stamp (joined i m s)) (insert i m s.tuples) ≡ erase m.stamp s.tuples
    erased = rw first (erase-insert s.real_type_count 0 i m s.tuples v)

    signalled-Keeps : Keeps (erase m.stamp s.tuples) s signalled
    unfolding signal_tuple
    signalled-Keeps = record {
      dropped =
          (clear_old_tuples (first_stamp (joined i m s))
            (erase (first_stamp (joined i m s)) (insert i m s.tuples))).0;
      split = clear-append _ _ ∙ erased;
      reported = refl;
    }

    signalled-Chain : Chain s.real_type_count (suc m.stamp) signalled.tuples
    unfolding signal_tuple
    signalled-Chain =
        rw (erased, first)
          (clear-Chain s.real_type_count 0 m.stamp (erase m.stamp s.tuples)
            (Chain-erase s.real_type_count 0 m.stamp s.tuples v))

    signalled-later : signalled.tuples ≡ later_than m.stamp s.tuples
    unfolding signal_tuple
    signalled-later =
        rw (erased, first)
          (clear-later s.real_type_count 0 m.stamp (erase m.stamp s.tuples)
              (Chain-erase s.real_type_count 0 m.stamp s.tuples v)
            ∙ later-erase s.real_type_count 0 m.stamp s.tuples v)

    -- A message that completes the tuple of its stamp makes one signal, with that tuple, and sets
    -- the time of the last signal to the stamp. The tuples that stay are exactly those later than the
    -- stamp, or the last `queue_size` of them if they are more and that size is not 0. The others but
    -- the signalled one are dropped and reported, in order.
    pub add-full :
        ((add i m s).signals ≡ s.signals ++ joined i m s ∷ [])
        × ((add i m s).last_signal_time ≡ m.stamp)
        × ((add i m s).tuples ≡ limited s.queue_size (later_than m.stamp s.tuples))
        × Keeps (erase m.stamp s.tuples) s (add i m s)
        × Chain s.real_type_count (suc m.stamp) (add i m s).tuples
        × Bounded s.queue_size (add i m s).tuples
    unfolding signal_tuple
    add-full =
        let e : add i m s ≡ limit_queue signalled =
          add-joined ∙ check-full (joined i m s) stored f in
        let rest = limit-rest (suc m.stamp) signalled signalled-Chain in
        rw e (
          rest.0,
          rest.1 ∙ first,
          limit-limited signalled ∙ ap (limited s.queue_size) signalled-later,
          limit-Keeps (erase m.stamp s.tuples) s signalled signalled-Keeps,
          rest.4,
          rest.5,
        )

  module _ (f : full s.real_type_count (joined i m s) ≡ false) where
    stored-Chain : Chain s.real_type_count 0 (insert i m s.tuples)
    stored-Chain = Chain-insert s.real_type_count 0 i m s.tuples v (omega arith) f

    -- A message that does not complete the tuple of its stamp makes no signal. It is stored; if there
    -- are then more tuples than the queue's size and that is not 0, exactly the excess is dropped, the
    -- oldest first, and reported in order; else every tuple stays.
    pub add-waiting :
        ((add i m s).signals ≡ s.signals)
        × ((add i m s).last_signal_time ≡ s.last_signal_time)
        × ((add i m s).tuples ≡ limited s.queue_size (insert i m s.tuples))
        × Keeps (insert i m s.tuples) s (add i m s)
        × Bounded s.queue_size (add i m s).tuples
    add-waiting =
        let e : add i m s ≡ limit_queue stored =
          add-joined ∙ check-waiting (joined i m s) stored f in
        let rest = limit-rest 0 stored stored-Chain in
        rw e (
          rest.0,
          rest.1,
          limit-limited stored,
          limit-Keeps (insert i m s.tuples) s stored
              (record { dropped = []; split = refl; reported = sym (append-nil s.drops) }),
          rest.5,
        )

    waiting-IsValid : IsValid (add i m s)
    waiting-IsValid =
        let e : add i m s ≡ limit_queue stored =
          add-joined ∙ check-waiting (joined i m s) stored f in
        let rest = limit-rest 0 stored stored-Chain in rw (e, rest.2) rest.4

  full-IsValid : full s.real_type_count (joined i m s) ≡ true → IsValid (add i m s)
  unfolding signal_tuple
  full-IsValid f =
      let e : add i m s ≡ limit_queue signalled = add-joined ∙ check-full (joined i m s) stored f in
      let rest = limit-rest (suc m.stamp) signalled (signalled-Chain f) in
      rw (e, rest.2) (Chain-mono s.real_type_count (suc m.stamp) 0 _ (omega arith) rest.4)

  -- `add` keeps the map in order, its tuples of one stamp each, and free of full tuples.
  pub add-IsValid : IsValid (add i m s)
  add-IsValid = elim (Bool-cases (full s.real_type_count (joined i m s))) [
    | inl f ↦ full-IsValid f
    | inr f ↦ waiting-IsValid f
  ]

  pub add-count :
      ((add i m s).real_type_count ≡ s.real_type_count) × ((add i m s).queue_size ≡ s.queue_size)
  unfolding add
  add-count = ground arith

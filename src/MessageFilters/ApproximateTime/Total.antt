-- ===== src/MessageFilters/ApproximateTime/Total.antt =====
-- `process` ends: enough fuel always gives a result, and no deque is read when it is empty.
use mathlib.Core.Path.{subst}
use agnocast.Prelude.{
  ℕ, zero, suc, ◌+◌, ◌*◌, ◌≤◌, ◌<◌, ◌≡◌, ◌≢◌, refl, sym, ap, ◌∙◌, ◌⊎◌, inl, inr, true, false, some,
  List, [], ◌∷◌, ◌++◌, ℤ, pos, sub_ℕ, ltb_ℤ, leb_ℤ, arith, ◌==◌, length, get_elem?, Bool-cases,
  ==_iff, All,
}
use mathlib.Core.List.{append_assoc, append-nil}
use agnocast.MessageFilters.Message.{Message, Tuple}
use agnocast.MessageFilters.ApproximateTime.Defs.{Input, Approx, no_pivot, fronts, delete_front}
use agnocast.MessageFilters.ApproximateTime.Process.{
  boundary, stamps, clear_dropped, messages, penalized, begin_search, continue_search,
  process_round, process,
}
use agnocast.MessageFilters.ApproximateTime.Streams.{
  streams, filled, total, Heads, PastEmpty, AllFilled, filled-AllFilled, messages-le-total,
}
use agnocast.MessageFilters.ApproximateTime.Moves.{
  AllFilled-get, clear_dropped-streams, clear_dropped-filled, clear_dropped-messages,
  clear_dropped-length, clear_dropped-PastEmpty, fronts-Heads,
}
use agnocast.MessageFilters.ApproximateTime.Suffix.{
  Suffixes, Suffixes-refl, Suffixes-trans, Complete,
}
use agnocast.MessageFilters.ApproximateTime.Round.{Inv, Round, Less}
use agnocast.MessageFilters.ApproximateTime.Rounds.{
  boundary-lt, length-stamps, candidate-Round, move-Round, delete-Round,
}

module _ (scale : ℤ → ℤ) (n : ℕ) (s : Approx) (positive : 0 < n) (size : length s.inputs ≡ n)
    (counted : s.num_non_empty ≡ filled s.inputs) (all : AllFilled s.inputs) where
  begin-Round :
      (end start : ℕ × ℕ)
      → end.0 < n
      → start.0 < n
      → s.pivot ≡ no_pivot
      → PastEmpty s.inputs
      → (u : Approx) × (begin_search scale end start s ≡ some u) × Round n s u
  unfolding begin_search
  begin-Round end start el sl p past =
      let (q, m, d, qe, qd) = AllFilled-get s.inputs end.0 all (omega (arith, size)) in tests q qe
    where
      dropped : (u : Approx) × (delete_front start.0 s ≡ some u) × Round n s u
      dropped = delete-Round scale n s positive size counted all start.0 sl p past

      tests :
          (q : Input)
          → get_elem? s.inputs end.0 ≡ some q
          → (u : Approx) × (begin_search scale end start s ≡ some u) × Round n s u
      tests q qe = elim (Bool-cases (ltb_ℤ (pos s.max_interval_duration) (sub_ℕ end.1 start.1))) [
        | inl e ↦ rw (e, begin_search) dropped
        | inr e ↦ elim (Bool-cases q.has_dropped) [
          | inl f ↦ rw (e, qe, f, begin_search) dropped
          | inr f ↦
              rw (e, qe, f, begin_search)
                (candidate-Round scale n s positive size counted all start.0 start.1 end.1 end.0
                  end.1 sl el)
        ]
      ]

  continue-Round :
      (end start : ℕ × ℕ)
      → start.0 < n
      → s.pivot < n
      → Heads s.candidate (streams s.inputs)
      → (u : Approx) × (continue_search scale end start s ≡ some u) × Round n s u
  unfolding continue_search
  continue-Round end start sl p heads =
      elim (Bool-cases (leb_ℤ (sub_ℕ start.1 s.candidate_start) (penalized scale s end.1))) [
        | inl e ↦
            rw (e, continue_search)
              (move-Round scale n s positive size counted all start.0 end.1 sl p heads)
        | inr e ↦
            rw (e, continue_search)
              (candidate-Round scale n s positive size counted all start.0 start.1 end.1 s.pivot
                s.pivot_time sl p)
      ]

-- The flags of dropped messages play no part in the invariant.
uncleared :
    (n i : ℕ) (s u : Approx)
    → Round n (record s { inputs = clear_dropped 0 i s.inputs }) u
    → Round n s u
uncleared n i s u r =
    let e = clear_dropped-streams 0 i s.inputs in
    record {
      inv = r.inv;
      less = elim r.less [
        | inl l ↦ inl (omega (arith, l, ap total e))
        | inr (l, m) ↦
            inr
              (omega (arith, l, ap total e), omega (arith, m, clear_dropped-messages 0 i s.inputs))
      ];
      kept = subst (Suffixes (streams u.inputs)) e r.kept;
      signalled = r.signalled;
      queue = r.queue;
    }

module _ (scale : ℤ → ℤ) (n : ℕ) (positive : 0 < n) (nine : n ≤ 9) where
  -- A round of `process`, while no deque is empty.
  pub process_round-Round :
      (s : Approx)
      → Inv n s
      → s.num_non_empty ≡ length s.inputs
      → (u : Approx) × (process_round scale s ≡ some u) × Round n s u
  unfolding process_round
  process_round-Round s v k =
      let all : AllFilled s.inputs = filled-AllFilled s.inputs (sym v.counted ∙ k) in
      let (ms, fe, fl, _) = fronts-Heads s.inputs all in
      let many : 0 < length (stamps ms) = omega (arith, fl, v.size, length-stamps ms) in
      let (end, ee, el) = boundary-lt true (stamps ms) many in
      let (start, se, sl) = boundary-lt false (stamps ms) many in
      found ms fe (omega (arith, fl, v.size, length-stamps ms)) end ee el start se sl
    where
      found :
          (ms : List Message)
          → fronts s.inputs ≡ some ms
          → length (stamps ms) ≡ n
          → (end : ℕ × ℕ) → boundary true (stamps ms) ≡ some end
          → end.0 < length (stamps ms)
          → (start : ℕ × ℕ) → boundary false (stamps ms) ≡ some start
          → start.0 < length (stamps ms)
          → (u : Approx) × (process_round scale s ≡ some u) × Round n s u
      found ms fe fl end ee el start se sl =
          let xs = clear_dropped 0 end.0 s.inputs in
          let c : Approx = record s { inputs = xs } in
          let size : length xs ≡ n = clear_dropped-length 0 end.0 s.inputs ∙ v.size in
          let counted : s.num_non_empty ≡ filled xs =
            v.counted ∙ sym (clear_dropped-filled 0 end.0 s.inputs) in
          let all : AllFilled xs = filled-AllFilled xs (omega (arith, counted, k, size, v.size)) in
          elim v.search [
            | inl (p, past) ↦
                let (u, e, r) =
                  begin-Round scale n c positive size counted all end start (omega (arith, fl))
                    (omega (arith, fl)) p (clear_dropped-PastEmpty 0 end.0 s.inputs past) in
                let t : (s.pivot == no_pivot) ≡ true = (==_iff s.pivot no_pivot).1 p in
                (u, rw (fe, ee, se, t, process_round) e, uncleared n end.0 s u r)
            | inr (p, heads) ↦
                let (u, e, r) =
                  continue-Round scale n c positive size counted all end start (omega (arith, fl)) p
                    (subst (Heads s.candidate) (sym (clear_dropped-streams 0 end.0 s.inputs))
                      heads) in
                let t : (s.pivot == no_pivot) ≡ false = ground arith in
                (u, rw (fe, ee, se, t, process_round) e, uncleared n end.0 s u r)
          ]

-- The rounds that a state can take: every round makes the pair of its messages and of those in deques
-- smaller.
unfoldable pub weight : ℕ → ℕ → ℕ
weight t d = t * t + t + d

pub weight_mono : (t d t' d' : ℕ) → t' < t → d' ≤ t' → weight t' d' < weight t d
unfolding weight
weight_mono t d t' d' h k = grind arith

abbrev pub rounds : Approx → ℕ
rounds s = weight (total (streams s.inputs)) (messages s.inputs)

weight-less :
    (t d t' d' : ℕ) → ((t' < t) ⊎ ((t' ≤ t) × (d' < d))) → d' ≤ t' → weight t' d' < weight t d
unfolding weight
weight-less t d t' d' (inl h) k = weight_mono t d t' d' h k
weight-less t d t' d' (inr (h, l)) k = grind arith

pub Less-rounds : (s u : Approx) → Less u s → rounds u < rounds s
Less-rounds s u l =
    weight-less (total (streams s.inputs)) (messages s.inputs) (total (streams u.inputs))
      (messages u.inputs) l (messages-le-total u.inputs)

-- What `process` promises of the state that it leaves.
pub record Processed (n : ℕ) (s u : Approx) : Type 0 where
  pub inv : Inv n u
  pub idle : u.num_non_empty ≢ n
  pub kept : Suffixes (streams u.inputs) (streams s.inputs)
  pub sent : List Tuple
  pub signals : u.signals ≡ s.signals ++ sent
  pub complete : All (Complete n) sent
  pub queue : u.queue_size ≡ s.queue_size

module _ (scale : ℤ → ℤ) (n : ℕ) (positive : 0 < n) (nine : n ≤ 9) where
  after-Round : (s t u : Approx) → Round n s t → Processed n t u → Processed n s u
  after-Round s t u r p = elim r.signalled [
    | inl e ↦ record {
      inv = p.inv;
      idle = p.idle;
      kept = Suffixes-trans _ _ _ p.kept r.kept;
      sent = p.sent;
      signals = p.signals ∙ ap (λ z. z ++ p.sent) e;
      complete = p.complete;
      queue = p.queue ∙ r.queue;
    }
    | inr (c, e, k) ↦ record {
      inv = p.inv;
      idle = p.idle;
      kept = Suffixes-trans _ _ _ p.kept r.kept;
      sent = c ∷ p.sent;
      signals = p.signals ∙ ap (λ z. z ++ p.sent) e ∙ append_assoc s.signals (c ∷ []) p.sent;
      complete = (k, p.complete);
      queue = p.queue ∙ r.queue;
    }
  ]

  process-go :
      (fuel : ℕ) (s t : Approx)
      → (s.num_non_empty == length s.inputs) ≡ true
      → process_round scale s ≡ some t
      → process scale (suc fuel) s ≡ process scale fuel t
  unfolding process
  process-go fuel s t e r = rw (e, r, process)

  process-stop :
      (fuel : ℕ) (s : Approx)
      → (s.num_non_empty == length s.inputs) ≡ false
      → process scale (suc fuel) s ≡ some s
  unfolding process
  process-stop fuel s e = rw (e, process)

  -- From a state that keeps the invariant `process` returns as soon as its fuel exceeds the number of
  -- rounds, with no read of an empty deque. It leaves some deque empty; every input has lost messages
  -- at its front only; and what it signalled is tuples with a message for each input.
  pub process-Processed :
      (fuel : ℕ) (s : Approx)
      → Inv n s
      → rounds s < fuel
      → (u : Approx) × (process scale fuel s ≡ some u) × Processed n s u
  process-Processed zero s v f = absurd (omega arith)
  process-Processed (suc fuel) s v f = elim (Bool-cases (s.num_non_empty == length s.inputs)) [
    | inl e ↦
        let (t, te, r) =
          process_round-Round scale n positive nine s v
            ((==_iff s.num_non_empty (length s.inputs)).0 e) in
        let (u, ue, p) = process-Processed fuel t r.inv (omega (arith, Less-rounds s t r.less)) in
        (u, process-go fuel s t e te ∙ ue, after-Round s t u r p)
    | inr e ↦ (
      s,
      process-stop fuel s e,
      record {
        inv = v;
        idle = ground (arith, v.size);
        kept = Suffixes-refl (streams s.inputs);
        sent = [];
        signals = sym (append-nil s.signals);
        complete = tt;
        queue = refl;
      },
    )
  ]

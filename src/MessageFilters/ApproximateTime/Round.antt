-- ===== src/MessageFilters/ApproximateTime/Round.antt =====
-- One round of `process`.
use mathlib.Core.Path.{subst}
use agnocast.Prelude.{
  ℕ, suc, ◌≤◌, ◌<◌, ◌≡◌, refl, ap, ◌∙◌, ◌⊎◌, inl, inr, some, [], ◌∷◌, ◌++◌, ℤ, sub_ℕ, leb_ℤ, arith,
  ltb, ◌==◌, length, Bool-cases,
}
use agnocast.MessageFilters.Message.{Tuple}
use agnocast.MessageFilters.ApproximateTime.Defs.{Approx, no_pivot, publish_candidate}
use agnocast.MessageFilters.ApproximateTime.Process.{
  messages, no_moves, penalized, virtual_search, conclude,
}
use agnocast.MessageFilters.ApproximateTime.Streams.{streams, filled, total, Heads, PastEmpty}
use agnocast.MessageFilters.ApproximateTime.Moves.{Moved-refl}
use agnocast.MessageFilters.ApproximateTime.Search.{
  Delivered, publish-Delivered, Concluded, virtual_search-Concluded, unchanged,
}
use agnocast.MessageFilters.ApproximateTime.Suffix.{
  Suffixes, Suffixes-trans, Suffixes-total, Delivers-Suffixes, Complete, Heads-Complete,
}

-- The state between rounds: the count of non-empty deques is right, and either there is no pivot and
-- nothing is past, or the candidate stands in front of the streams.
pub record Inv (n : ℕ) (s : Approx) : Type 0 where
  pub size : length s.inputs ≡ n
  pub counted : s.num_non_empty ≡ filled s.inputs
  pub search :
      ((s.pivot ≡ no_pivot) × PastEmpty s.inputs)
      ⊎ ((s.pivot < n) × Heads s.candidate (streams s.inputs))

-- Nothing was signalled, or one tuple with a message for each input.
abbrev pub Signalled : ℕ → Approx → Approx → Type 0
Signalled n s u =
    (u.signals ≡ s.signals) ⊎ ((c : Tuple) × (u.signals ≡ s.signals ++ c ∷ []) × Complete n c)

-- The round made progress: a message left a stream, or moved from a deque to the past.
abbrev pub Less : Approx → Approx → Type 0
Less u s =
    (total (streams u.inputs) < total (streams s.inputs))
    ⊎ ((total (streams u.inputs) ≤ total (streams s.inputs))
        × (messages u.inputs < messages s.inputs))

pub record Round (n : ℕ) (s u : Approx) : Type 0 where
  pub inv : Inv n u
  pub less : Less u s
  pub kept : Suffixes (streams u.inputs) (streams s.inputs)
  pub signalled : Signalled n s u
  pub queue : u.queue_size ≡ s.queue_size

module _ (scale : ℤ → ℤ) where
  pub conclude-Concluded :
      (start_index end_time : ℕ) (s : Approx)
      → Heads s.candidate (streams s.inputs)
      → 0 < length s.inputs
      → s.num_non_empty ≡ filled s.inputs
      → Concluded s (conclude scale start_index end_time s)
  unfolding conclude
  conclude-Concluded start_index end_time s h l k = elim (Bool-cases (start_index == s.pivot)) [
    | inl e ↦ rw (e, conclude) (inr published)
    | inr e ↦
        elim (Bool-cases
          (leb_ℤ (sub_ℕ s.pivot_time s.candidate_start) (penalized scale s end_time))) [
            | inl f ↦ rw (e, f, conclude) (inr published)
            | inr f ↦ elim (Bool-cases (ltb s.num_non_empty (length s.inputs))) [
              | inl g ↦ rw (e, f, g, conclude) searched
              | inr g ↦ rw (e, f, g, conclude) (inl refl)
            ]
          ]
  ]
    where
      published : (u : Approx) × (publish_candidate s ≡ some u) × Delivered s u
      published = publish-Delivered s h

      searched : Concluded s (virtual_search scale (suc (messages s.inputs)) (no_moves s.inputs) s)
      searched =
          subst
            (λ t.
              Concluded s (virtual_search scale (suc (messages s.inputs)) (no_moves s.inputs) t))
            (unchanged scale s h l k)
            (virtual_search-Concluded scale s h l k (suc (messages s.inputs)) (no_moves s.inputs)
              s.inputs (omega arith) refl (Moved-refl s.inputs))

  -- From the state after the move of the earliest front to the end of the round.
  pub finish :
      (n start_index end_time : ℕ) (s t : Approx)
      → 0 < n
      → length t.inputs ≡ n
      → t.num_non_empty ≡ filled t.inputs
      → t.pivot < n
      → Heads t.candidate (streams t.inputs)
      → Suffixes (streams t.inputs) (streams s.inputs)
      → messages t.inputs < messages s.inputs
      → t.signals ≡ s.signals
      → t.queue_size ≡ s.queue_size
      → (u : Approx) × (conclude scale start_index end_time t ≡ some u) × Round n s u
  finish n si et s t w l k p h x m g q = elim (conclude-Concluded si et t h (omega arith) k) [
    | inl e ↦ (
      t,
      e,
      record {
        inv = record { size = l; counted = k; search = inr (p, h) };
        less = inr (Suffixes-total _ _ x, m);
        kept = x;
        signalled = inl g;
        queue = q;
      },
    )
    | inr (u, e, d) ↦ (
      u,
      e,
      record {
        inv = record { size = d.size ∙ l; counted = d.counted; search = inl (d.idle, d.past) };
        less = inl (omega (arith, d.less, Suffixes-total (streams t.inputs) (streams s.inputs) x));
        kept =
            Suffixes-trans (streams u.inputs) (streams t.inputs) (streams s.inputs)
              (Delivers-Suffixes t.candidate (streams t.inputs) (streams u.inputs) d.delivers) x;
        signalled = inr (
          t.candidate,
          d.signals ∙ ap (λ z. z ++ t.candidate ∷ []) g,
          subst (λ z. Complete z t.candidate) l (Heads-Complete t.candidate t.inputs h),
        );
        queue = d.queue ∙ q;
      },
    )
  ]

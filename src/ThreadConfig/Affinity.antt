-- ===== src/ThreadConfig/Affinity.antt =====
-- thread_config.cpp: the sorting and the removal of duplicates in `parse_affinity`, and what the result is.
use mathlib.Core.Path.{subst}
use agnocast.Prelude.{
  ℕ, suc, ◌≤◌, ◌≡◌, refl, ◌∙◌, Bool, false, ◌||◌, List, [], ◌∷◌, arith, leb, ◌==◌, if◌then◌else◌,
  Bool-cases, inl, inr,
}

-- `std::sort`
unfoldable pub insert : ℕ → List ℕ → List ℕ
insert a [] = a ∷ []
insert a (b ∷ r) = if leb a b then a ∷ b ∷ r else b ∷ insert a r

unfoldable pub sort : List ℕ → List ℕ
unfolding insert
sort [] = []
sort (a ∷ r) = insert a (sort r)

-- `std::unique`: an element that equals the one kept before it goes.
unfoldable pub unique_after : ℕ → List ℕ → List ℕ
unique_after a [] = []
unique_after a (b ∷ r) = if a == b then unique_after a r else b ∷ unique_after b r

unfoldable pub unique : List ℕ → List ℕ
unfolding unique_after
unique [] = []
unique (a ∷ r) = a ∷ unique_after a r

unfoldable pub contains : ℕ → List ℕ → Bool
contains a [] = false
contains a (b ∷ r) = (a == b) || contains a r

-- In order, from `lo` on; and strictly in order.
unfoldable pub Sorted : ℕ → List ℕ → Type 0
Sorted lo [] = Unit
Sorted lo (a ∷ r) = (lo ≤ a) × Sorted a r

unfoldable pub Increasing : ℕ → List ℕ → Type 0
Increasing lo [] = Unit
Increasing lo (a ∷ r) = (lo ≤ a) × Increasing (suc a) r

insert-Sorted : (lo a : ℕ) (l : List ℕ) → lo ≤ a → Sorted lo l → Sorted lo (insert a l)
unfolding insert Sorted
insert-Sorted lo a [] h s = (h, tt)
insert-Sorted lo a (b ∷ r) h s = elim (Bool-cases (leb a b)) [
  | inl e ↦ rw e (h, (ground arith, s.1))
  | inr e ↦ rw e (s.0, insert-Sorted b a r (ground arith) s.1)
]

sort-Sorted : (l : List ℕ) → Sorted 0 (sort l)
unfolding sort Sorted
sort-Sorted [] = tt
sort-Sorted (a ∷ r) = insert-Sorted 0 a (sort r) (omega arith) (sort-Sorted r)

unique_after-Increasing : (a : ℕ) (l : List ℕ) → Sorted a l → Increasing (suc a) (unique_after a l)
unfolding unique_after Sorted Increasing
unique_after-Increasing a [] s = tt
unique_after-Increasing a (b ∷ r) s = elim (Bool-cases (a == b)) [
  | inl e ↦ rw e (unique_after-Increasing a r (subst (λ k. Sorted k r) (ground arith) s.1))
  | inr e ↦ rw e (ground (arith, s.0), unique_after-Increasing b r s.1)
]

unique-Increasing : (l : List ℕ) → Sorted 0 l → Increasing 0 (unique l)
unfolding unique Sorted Increasing
unique-Increasing [] s = tt
unique-Increasing (a ∷ r) s = (omega arith, unique_after-Increasing a r s.1)

contains-insert : (c a : ℕ) (l : List ℕ) → contains c (insert a l) ≡ ((c == a) || contains c l)
unfolding contains insert
contains-insert c a [] = refl
contains-insert c a (b ∷ r) = ground (arith, contains-insert c a r)

contains-sort : (c : ℕ) (l : List ℕ) → contains c (sort l) ≡ contains c l
unfolding contains sort
contains-sort c [] = refl
contains-sort c (a ∷ r) = ground (arith, contains-insert c a (sort r), contains-sort c r)

contains-unique_after :
    (c a : ℕ) (l : List ℕ)
    → ((c == a) || contains c (unique_after a l)) ≡ ((c == a) || contains c l)
unfolding contains unique_after
contains-unique_after c a [] = refl
contains-unique_after c a (b ∷ r) =
    ground (arith, contains-unique_after c a r, contains-unique_after c b r)

contains-unique : (c : ℕ) (l : List ℕ) → contains c (unique l) ≡ contains c l
unfolding contains unique
contains-unique c [] = refl
contains-unique c (a ∷ r) = contains-unique_after c a r

-- The canonical form of a list: strictly increasing, with the same elements.
pub canonical_Increasing : (l : List ℕ) → Increasing 0 (unique (sort l))
canonical_Increasing l = unique-Increasing (sort l) (sort-Sorted l)

pub canonical_contains : (c : ℕ) (l : List ℕ) → contains c (unique (sort l)) ≡ contains c l
canonical_contains c l = contains-unique c (sort l) ∙ contains-sort c l

-- ===== src/MessageFilters/ExactTime/Kept.antt =====
-- exact_time.hpp: what `clearOldTuples` and the limit of the queue leave, described without their loops.
use agnocast.Prelude.{
  ℕ, zero, suc, ◌<◌, ◌-◌, ◌≡◌, refl, List, [], ◌∷◌, arith, ltb, length, if◌then◌else◌, Bool-cases,
  inl, inr,
}
use agnocast.MessageFilters.ExactTime.Defs.{Entry, erase, clear_old_tuples, drop_excess}
use agnocast.MessageFilters.ExactTime.Store.{Chain}

-- The entries whose stamp is after `k`.
unfoldable pub later_than : ℕ → List Entry → List Entry
later_than k [] = []
later_than k (e ∷ r) = let rest = later_than k r in if ltb k e.0 then e ∷ rest else rest

-- `drop n l` is `l` without its first `n` elements.
unfoldable pub drop : ℕ → List Entry → List Entry
drop zero l = l
drop (suc n) [] = []
drop (suc n) (e ∷ r) = drop n r

-- The last `q` entries, and all of them if `q` is 0.
abbrev pub limited : ℕ → List Entry → List Entry
limited zero l = l
limited (suc q) l = drop (length l - suc q) l

module _ (n : ℕ) where
  later_below : (lo k : ℕ) (l : List Entry) → k < lo → Chain n lo l → later_than k l ≡ l
  unfolding later_than
  later_below lo k [] h c = refl
  later_below lo k ((j, t) ∷ r) h c = ground (arith, later_below (suc j) k r (omega arith) c.4)

  pub later-erase :
      (lo k : ℕ) (l : List Entry) → Chain n lo l → later_than k (erase k l) ≡ later_than k l
  unfolding later_than erase
  later-erase lo k [] c = refl
  later-erase lo k ((j, t) ∷ r) c = ground (arith, later-erase (suc j) k r c.4)

  pub clear-later :
      (lo k : ℕ) (l : List Entry) → Chain n lo l → (clear_old_tuples k l).1 ≡ later_than k l
  unfolding later_than clear_old_tuples
  clear-later lo k [] c = refl
  clear-later lo k ((j, t) ∷ r) c =
      ground (arith, clear-later (suc j) k r c.4, later_below (suc j) k r)

pub excess-drop : (q : ℕ) (l : List Entry) → (drop_excess q l).1 ≡ drop (length l - q) l
unfolding drop_excess drop
excess-drop q [] = ground arith
excess-drop q ((k, t) ∷ r) = elim (Bool-cases (ltb q (length ((k, t) ∷ r)))) [
  | inl e ↦
      let more : length ((k, t) ∷ r) - q ≡ suc (length r - q) = ground arith in
      rw (e, more) (excess-drop q r)
  | inr e ↦ let none_more : length ((k, t) ∷ r) - q ≡ 0 = ground arith in rw (e, none_more) refl
]

-- ===== src/MessageFilters/ExactTime/Store.antt =====
-- The map of ExactTime: its order, and what each operation on it does.
use agnocast.Prelude.{
  ℕ, zero, suc, ◌≤◌, ◌<◌, ◌≡◌, refl, false, none, some, List, [], ◌∷◌, ◌++◌, arith, ltb, leb, ◌==◌,
  length, set, length-set, Bool-cases, inl, inr, ==_iff, ltb→lt, ◌∙◌,
}
use mathlib.Core.Path.{subst}
use agnocast.MessageFilters.Message.{Message, Tuple, empty_tuple}
use agnocast.MessageFilters.ExactTime.Defs.{
  Entry, full, insert, find, erase, clear_old_tuples, drop_excess,
}

-- Every message of the tuple has the stamp `k`.
abbrev pub Stamped : ℕ → Tuple → Type 0
Stamped k [] = Unit {0}
Stamped k (none ∷ t) = Stamped k t
Stamped k (some m ∷ t) = (m.stamp ≡ k) × Stamped k t

-- Keys that rise from `lo` on, each with nine slots of its own stamp that are not full.
abbrev pub Chain : ℕ → ℕ → List Entry → Type 0
Chain n lo [] = Unit {0}
Chain n lo ((k, t) ∷ r) =
    (lo ≤ k) × (length t ≡ 9) × Stamped k t × (full n t ≡ false) × Chain n (suc k) r

pub Stamped-set :
    (k : ℕ) (t : Tuple) (i : ℕ) (m : Message)
    → Stamped k t
    → m.stamp ≡ k
    → Stamped k (set t i (some m))
Stamped-set k [] i m h e = tt
Stamped-set k (none ∷ t) zero m h e = (e, h)
Stamped-set k (none ∷ t) (suc i) m h e = Stamped-set k t i m h e
Stamped-set k (some x ∷ t) zero m h e = (e, h.1)
Stamped-set k (some x ∷ t) (suc i) m h e = (h.0, Stamped-set k t i m h.1 e)

module _ (n : ℕ) where
  pub Chain-mono : (lo lo' : ℕ) (l : List Entry) → lo' ≤ lo → Chain n lo l → Chain n lo' l
  Chain-mono lo lo' [] h c = tt
  Chain-mono lo lo' ((k, t) ∷ r) h c = (omega arith, c.1, c.2, c.3, c.4)

  find_below : (lo k : ℕ) (l : List Entry) → k < lo → Chain n lo l → find k l ≡ empty_tuple
  unfolding find
  find_below lo k [] h c = refl
  find_below lo k ((j, t) ∷ r) h c = ground (arith, find_below (suc j) k r (omega arith) c.4)

  erase_below : (lo k : ℕ) (l : List Entry) → k < lo → Chain n lo l → erase k l ≡ l
  unfolding erase
  erase_below lo k [] h c = refl
  erase_below lo k ((j, t) ∷ r) h c = ground (arith, erase_below (suc j) k r (omega arith) c.4)

  -- The tuple that `add` completes: the stored one with its slot written.
  pub find-insert :
      (lo i : ℕ) (m : Message) (l : List Entry)
      → Chain n lo l
      → find m.stamp (insert i m l) ≡ set (find m.stamp l) i (some m)
  unfolding find insert
  find-insert lo i m [] c = ground arith
  find-insert lo i m ((j, t) ∷ r) c =
      ground (arith, find-insert (suc j) i m r c.4, find_below (suc j) m.stamp r)

  pub erase-insert :
      (lo i : ℕ) (m : Message) (l : List Entry)
      → Chain n lo l
      → erase m.stamp (insert i m l) ≡ erase m.stamp l
  unfolding erase insert
  erase-insert lo i m [] c = ground arith
  erase-insert lo i m ((j, t) ∷ r) c =
      ground (arith, erase-insert (suc j) i m r c.4, erase_below (suc j) m.stamp r)

  pub find-Stamped :
      (lo k : ℕ) (l : List Entry) → Chain n lo l → Stamped k (find k l) × (length (find k l) ≡ 9)
  unfolding find
  find-Stamped lo k [] c = (tt, refl)
  find-Stamped lo k ((j, t) ∷ r) c = elim (Bool-cases (j == k)) [
    | inl e ↦ rw e (
        let same : j ≡ k = (==_iff j k).0 e in
        let stamped : Stamped j t = c.2 in ((rw same at stamped), c.1))
    | inr e ↦ rw e (find-Stamped (suc j) k r c.4)
  ]

  pub Chain-erase : (lo k : ℕ) (l : List Entry) → Chain n lo l → Chain n lo (erase k l)
  unfolding erase
  Chain-erase lo k [] c = tt
  Chain-erase lo k ((j, t) ∷ r) c = elim (Bool-cases (j == k)) [
    | inl e ↦ rw e (Chain-mono (suc j) lo r (omega arith) c.4)
    | inr e ↦ rw e (c.0, c.1, c.2, c.3, Chain-erase (suc j) k r c.4)
  ]

  unchanged :
      (i : ℕ) (m : Message) (x : Tuple)
      → x ≡ empty_tuple
      → full n (set x i (some m)) ≡ false
      → full n (set empty_tuple i (some m)) ≡ false
  unchanged i m x e f = subst (λ y. full n (set y i (some m)) ≡ false) e f

  pub Chain-insert :
      (lo i : ℕ) (m : Message) (l : List Entry)
      → Chain n lo l
      → lo ≤ m.stamp
      → full n (set (find m.stamp l) i (some m)) ≡ false
      → Chain n lo (insert i m l)
  unfolding find insert
  Chain-insert lo i m [] c h f =
      (h, length-set empty_tuple i (some m), Stamped-set m.stamp empty_tuple i m tt refl, f, tt)
  Chain-insert lo i m ((j, t) ∷ r) c h f = elim (Bool-cases (m.stamp == j)) [
    | inl e ↦ rw e (
      c.0,
      length-set t i (some m) ∙ c.1,
      Stamped-set j t i m c.2 ((==_iff m.stamp j).0 e),
      ground arith,
      c.4,
    )
    | inr e ↦ elim (Bool-cases (ltb m.stamp j)) [
      | inl b ↦
          rw (e, b)
            (
              h,
              length-set empty_tuple i (some m),
              Stamped-set m.stamp empty_tuple i m tt refl,
              unchanged i m (find m.stamp ((j, t) ∷ r))
                  (find_below j m.stamp ((j, t) ∷ r) (ltb→lt m.stamp j b)
                    (omega arith, c.1, c.2, c.3, c.4))
                  f,
              (ltb→lt m.stamp j b, c.1, c.2, c.3, c.4),
            )
      | inr b ↦
          rw (e, b)
            (c.0, c.1, c.2, c.3, Chain-insert (suc j) i m r c.4 (ground arith) (ground arith))
    ]
  ]

-- What is cleared stood in front, and what stays is later than `last`.
pub clear-append :
    (last : ℕ) (l : List Entry) → (clear_old_tuples last l).0 ++ (clear_old_tuples last l).1 ≡ l
unfolding clear_old_tuples
clear-append last [] = refl
clear-append last ((k, t) ∷ r) = ground (arith, clear-append last r)

pub clear-Chain :
    (n lo last : ℕ) (l : List Entry) → Chain n lo l → Chain n (suc last) (clear_old_tuples last l).1
unfolding clear_old_tuples
clear-Chain n lo last [] c = tt
clear-Chain n lo last ((k, t) ∷ r) c = elim (Bool-cases (leb k last)) [
  | inl e ↦ rw e (clear-Chain n (suc k) last r c.4)
  | inr e ↦ rw e (ground arith, c.1, c.2, c.3, c.4)
]

pub excess-append : (q : ℕ) (l : List Entry) → (drop_excess q l).0 ++ (drop_excess q l).1 ≡ l
unfolding drop_excess
excess-append q [] = refl
excess-append q ((k, t) ∷ r) = ground (arith, excess-append q r)

pub excess-length : (q : ℕ) (l : List Entry) → length (drop_excess q l).1 ≤ q
unfolding drop_excess
excess-length q [] = omega arith
excess-length q ((k, t) ∷ r) = ground (arith, excess-length q r)

pub excess-Chain : (n lo q : ℕ) (l : List Entry) → Chain n lo l → Chain n lo (drop_excess q l).1
unfolding drop_excess
excess-Chain n lo q [] c = tt
excess-Chain n lo q ((k, t) ∷ r) c = elim (Bool-cases (ltb q (length ((k, t) ∷ r)))) [
  | inl e ↦ rw e (excess-Chain n lo q r (Chain-mono n (suc k) lo r (omega arith) c.4))
  | inr e ↦ rw e c
]

-- ===== src/Kmod/Lists.antt =====
-- Lists, with what the kernel module's walks are compared with.
use agnocast.Prelude.{
  ℕ, zero, suc, ◌≡◌, Bool, true, false, ◌&&◌, ◌||◌, Option, none, some, List, [], ◌∷◌, arith, ◌==◌,
  if◌then◌else◌,
}

module _ {ℓ} {A : Type ℓ} where
  -- `select` keeps what passes a Boolean test.
  unfoldable pub select : (A → Bool) → List A → List A
  select p [] = []
  select p (x ∷ xs) = let rest = select p xs in if p x then x ∷ rest else rest

  unfoldable pub take : ℕ → List A → List A
  take zero xs = []
  take (suc n) [] = []
  take (suc n) (x ∷ xs) = x ∷ take n xs

  -- `reverse_onto xs acc` is the reverse of `xs`, before `acc`.
  unfoldable pub reverse_onto : List A → List A → List A
  reverse_onto [] acc = acc
  reverse_onto (x ∷ xs) acc = reverse_onto xs (x ∷ acc)

  abbrev pub reverse : List A → List A
  reverse xs = reverse_onto xs []

  -- The last `n` elements, in order.
  abbrev pub newest : ℕ → List A → List A
  newest n xs = reverse (take n (reverse xs))

  abbrev pub head : List A → Option A
  head [] = none
  head (x ∷ xs) = some x

  abbrev pub is_empty : List A → Bool
  is_empty [] = true
  is_empty (x ∷ xs) = false

  unfoldable pub all : (A → Bool) → List A → Bool
  all p [] = true
  all p (x ∷ xs) = p x && all p xs

abbrev pub contains : ℕ → List ℕ → Bool
contains a [] = false
contains a (b ∷ r) = (a == b) || contains a r

-- Without the number `a`.
unfoldable pub remove : ℕ → List ℕ → List ℕ
remove a [] = []
remove a (b ∷ r) = let rest = remove a r in if a == b then rest else b ∷ rest

pub contains-remove :
    (a b : ℕ) (l : List ℕ) → contains a (remove b l) ≡ (if b == a then false else contains a l)
unfolding remove
contains-remove a b [] = ground arith
contains-remove a b (c ∷ r) = ground (arith, contains-remove a b r)

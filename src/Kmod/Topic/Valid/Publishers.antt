-- ===== src/Kmod/Topic/Valid/Publishers.antt =====
-- What an operation on the publishers leaves of each of them.
use agnocast.Prelude.{
  ℕ, ◌-◌, ◌≡◌, refl, sym, true, false, none, some, List, [], ◌∷◌, arith, ltb, ◌==◌, if◌then◌else◌,
  Bool-cases, inl, inr,
}
use agnocast.Kmod.State.{Publisher}
use agnocast.Kmod.Lists.{all}
use agnocast.Kmod.Topic.Delivery.{find_publisher}
use agnocast.Kmod.Topic.Publish.{set_entries_num}
use agnocast.Kmod.Topic.Remove.{count_down, settle_publisher}
use agnocast.Kmod.Topic.Valid.{counts, distinct}

-- The publisher of an id, after the counts of `q` changed.
pub counts-set_other :
    (id q : ℕ) (f : ℕ → ℕ) (l : List Publisher) (n : ℕ)
    → (id == q) ≡ false
    → counts (find_publisher id l) n ≡ true
    → counts (find_publisher id (set_entries_num q f l)) n ≡ true
unfolding find_publisher set_entries_num
counts-set_other id q f [] n d c = c
counts-set_other id q f (p ∷ l) n d c = ground (arith, counts-set_other id q f l n d)

pub counts-set :
    (q : ℕ) (f : ℕ → ℕ) (l : List Publisher) (p : Publisher)
    → find_publisher q l ≡ some p
    → counts (find_publisher q (set_entries_num q f l)) (f p.entries_num) ≡ true
unfolding find_publisher set_entries_num
counts-set q f [] p e = ground arith
counts-set q f (x ∷ l) p e = elim (Bool-cases (x.id == q)) [
  | inl g ↦ let h : x ≡ p = ground arith in rw (sym h) (ground arith)
  | inr g ↦ ground (arith, counts-set q f l p)
]

pub none-set :
    (id q : ℕ) (f : ℕ → ℕ) (l : List Publisher)
    → find_publisher id l ≡ none
    → find_publisher id (set_entries_num q f l) ≡ none
unfolding find_publisher set_entries_num
none-set id q f [] e = refl
none-set id q f (p ∷ l) e = ground (arith, none-set id q f l)

pub distinct-set :
    (q : ℕ) (f : ℕ → ℕ) (l : List Publisher)
    → distinct l ≡ true
    → distinct (set_entries_num q f l) ≡ true
unfolding distinct set_entries_num
distinct-set q f [] d = refl
distinct-set q f (p ∷ l) d = ground (arith, none-set p.id q f l, distinct-set q f l)

pub below-set :
    (n q : ℕ) (f : ℕ → ℕ) (l : List Publisher)
    → all (λ p. ltb p.id n) l ≡ true
    → all (λ p. ltb p.id n) (set_entries_num q f l) ≡ true
unfolding all set_entries_num
below-set n q f [] h = refl
below-set n q f (p ∷ l) h = ground (arith, below-set n q f l)

-- One entry less.
none-count_down :
    (id q : ℕ) (l : List Publisher)
    → find_publisher id l ≡ none
    → find_publisher id (count_down q l) ≡ none
unfolding find_publisher count_down
none-count_down id q [] e = refl
none-count_down id q (p ∷ l) e = ground (arith, none-count_down id q l)

pub distinct-count_down :
    (q : ℕ) (l : List Publisher) → distinct l ≡ true → distinct (count_down q l) ≡ true
unfolding distinct count_down
distinct-count_down q [] d = refl
distinct-count_down q (p ∷ l) d = ground (arith, none-count_down p.id q l, distinct-count_down q l)

pub below-count_down :
    (n q : ℕ) (l : List Publisher)
    → all (λ p. ltb p.id n) l ≡ true
    → all (λ p. ltb p.id n) (count_down q l) ≡ true
unfolding all count_down
below-count_down n q [] h = refl
below-count_down n q (p ∷ l) h = ground (arith, below-count_down n q l)

pub counts-count_down :
    (id q : ℕ) (l : List Publisher) (n : ℕ)
    → distinct l ≡ true
    → counts (find_publisher id l) n ≡ true
    → counts (find_publisher id (count_down q l)) (if id == q then n - 1 else n) ≡ true
unfolding distinct find_publisher count_down
counts-count_down id q [] n d c = ground arith
counts-count_down id q (p ∷ l) n d c =
    ground (arith, none-count_down p.id q l, counts-count_down id q l n)

-- `k` entries less.
none-settle :
    (id q k : ℕ) (l : List Publisher)
    → find_publisher id l ≡ none
    → find_publisher id (settle_publisher q k l) ≡ none
unfolding find_publisher settle_publisher
none-settle id q k [] e = refl
none-settle id q k (p ∷ l) e = ground (arith, none-settle id q k l)

pub distinct-settle :
    (q k : ℕ) (l : List Publisher) → distinct l ≡ true → distinct (settle_publisher q k l) ≡ true
unfolding distinct settle_publisher
distinct-settle q k [] d = refl
distinct-settle q k (p ∷ l) d = ground (arith, none-settle p.id q k l, distinct-settle q k l)

pub below-settle :
    (n q k : ℕ) (l : List Publisher)
    → all (λ p. ltb p.id n) l ≡ true
    → all (λ p. ltb p.id n) (settle_publisher q k l) ≡ true
unfolding all settle_publisher
below-settle n q k [] h = refl
below-settle n q k (p ∷ l) h = ground (arith, below-settle n q k l)

pub counts-settle :
    (id q k : ℕ) (l : List Publisher) (n : ℕ)
    → distinct l ≡ true
    → counts (find_publisher id l) n ≡ true
    → counts (find_publisher id (settle_publisher q k l)) (if id == q then n - k else n) ≡ true
unfolding distinct find_publisher settle_publisher
counts-settle id q k [] n d c = ground arith
counts-settle id q k (p ∷ l) n d c =
    ground (arith, none-settle p.id q k l, counts-settle id q k l n)

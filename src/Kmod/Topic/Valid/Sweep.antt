-- ===== src/Kmod/Topic/Valid/Sweep.antt =====
-- The walk over the entries when a subscriber leaves, and the lists of contexts, keep the counts.
use agnocast.Prelude.{
  ℕ, ◌+◌, ◌≡◌, refl, Bool, true, ◌&&◌, not, none, List, [], ◌∷◌, arith, ltb, if◌then◌else◌,
  Bool-cases, inl, inr,
}
use agnocast.Kmod.State.{Topic, Entry, Publisher, Env}
use agnocast.Kmod.Lists.{all}
use agnocast.Kmod.Topic.Delivery.{find_publisher, is_referenced}
use agnocast.Kmod.Topic.Release.{clear}
use agnocast.Kmod.Topic.Remove.{sweep, count_down, publisher_exited}
use agnocast.Kmod.Topic.Depth.{own_num, is_own}
use agnocast.Kmod.Topic.Valid.{counts, distinct}
use agnocast.Kmod.Topic.Valid.Publishers.{distinct-count_down, below-count_down, counts-count_down}
use agnocast.Kmod.Topic.Notify.{rebuild_lists, reserve_all, reserve_notify_ctxs}

-- `before` counts the entries that the walk has passed.
pub sweep-counts :
    (env : Env) (s id : ℕ) (l : List Entry) (pubs : List Publisher) (before : ℕ → ℕ)
    → distinct pubs ≡ true
    → ((i : ℕ) → counts (find_publisher i pubs) (before i + own_num i l) ≡ true)
    → counts
        (find_publisher id (sweep env s l pubs).1)
        (before id + own_num id (sweep env s l pubs).0)
      ≡ true
unfolding sweep own_num
sweep-counts env s id [] pubs before d h = h id
sweep-counts env s id (e ∷ l) pubs before d h =
    elim (Bool-cases
      (not (is_referenced (clear s e)) && publisher_exited env e.publisher_id pubs)) [
        | inl g ↦ rw g (
            sweep-counts env s id l (count_down e.publisher_id pubs) before
              (distinct-count_down e.publisher_id pubs d)
              (λ i. ground (
                arith,
                h i,
                counts-count_down i e.publisher_id pubs (before i + own_num i (e ∷ l)) d,
              )))
        | inr g ↦ rw g (
            let ih =
              sweep-counts env s id l pubs (λ i. before i + (if is_own i e then 1 else 0)) d
                (λ i. ground (arith, h i)) in
            ground (arith, ih))
      ]

pub distinct-sweep :
    (env : Env) (s : ℕ) (l : List Entry) (pubs : List Publisher)
    → distinct pubs ≡ true
    → distinct (sweep env s l pubs).1 ≡ true
unfolding sweep
distinct-sweep env s [] pubs d = d
distinct-sweep env s (e ∷ l) pubs d =
    let gone = not (is_referenced (clear s e)) && publisher_exited env e.publisher_id pubs in
    ground (
      arith,
      distinct-count_down e.publisher_id pubs d,
      distinct-sweep env s l (if gone then count_down e.publisher_id pubs else pubs),
    )

pub below-sweep :
    (n : ℕ) (env : Env) (s : ℕ) (l : List Entry) (pubs : List Publisher)
    → all (λ p. ltb p.id n) pubs ≡ true
    → all (λ p. ltb p.id n) (sweep env s l pubs).1 ≡ true
unfolding sweep
below-sweep n env s [] pubs d = d
below-sweep n env s (e ∷ l) pubs d =
    let gone = not (is_referenced (clear s e)) && publisher_exited env e.publisher_id pubs in
    ground (
      arith,
      below-count_down n e.publisher_id pubs d,
      below-sweep n env s l (if gone then count_down e.publisher_id pubs else pubs),
    )

-- The lists of contexts do not matter.
pub counts-rebuild :
    (env : Env) (t : Topic) (id : ℕ) (l : List Publisher) (n : ℕ)
    → counts (find_publisher id (rebuild_lists env t l)) n ≡ counts (find_publisher id l) n
unfolding find_publisher rebuild_lists
counts-rebuild env t id [] n = refl
counts-rebuild env t id (p ∷ l) n = ground (arith, counts-rebuild env t id l n)

none-rebuild :
    (env : Env) (t : Topic) (id : ℕ) (l : List Publisher)
    → find_publisher id l ≡ none
    → find_publisher id (rebuild_lists env t l) ≡ none
unfolding find_publisher rebuild_lists
none-rebuild env t id [] e = refl
none-rebuild env t id (p ∷ l) e = ground (arith, none-rebuild env t id l)

pub distinct-rebuild :
    (env : Env) (t : Topic) (l : List Publisher)
    → distinct l ≡ true
    → distinct (rebuild_lists env t l) ≡ true
unfolding distinct rebuild_lists
distinct-rebuild env t [] d = refl
distinct-rebuild env t (p ∷ l) d =
    ground (arith, none-rebuild env t p.id l, distinct-rebuild env t l)

pub below-rebuild :
    (n : ℕ) (env : Env) (t : Topic) (l : List Publisher)
    → all (λ p. ltb p.id n) l ≡ true
    → all (λ p. ltb p.id n) (rebuild_lists env t l) ≡ true
unfolding all rebuild_lists
below-rebuild n env t [] h = refl
below-rebuild n env t (p ∷ l) h = ground (arith, below-rebuild n env t l)

-- Nor does their capacity.
pub counts-reserve :
    (f : ℕ → Bool) (k id : ℕ) (l : List Publisher) (n : ℕ)
    → counts (find_publisher id (reserve_all f k l).1) n ≡ counts (find_publisher id l) n
unfolding find_publisher reserve_all reserve_notify_ctxs
counts-reserve f k id [] n = refl
counts-reserve f k id (p ∷ l) n = ground (arith, counts-reserve f k id l n)

none-reserve :
    (f : ℕ → Bool) (k id : ℕ) (l : List Publisher)
    → find_publisher id l ≡ none
    → find_publisher id (reserve_all f k l).1 ≡ none
unfolding find_publisher reserve_all reserve_notify_ctxs
none-reserve f k id [] e = refl
none-reserve f k id (p ∷ l) e = ground (arith, none-reserve f k id l)

pub distinct-reserve :
    (f : ℕ → Bool) (k : ℕ) (l : List Publisher)
    → distinct l ≡ true
    → distinct (reserve_all f k l).1 ≡ true
unfolding distinct reserve_all reserve_notify_ctxs
distinct-reserve f k [] d = refl
distinct-reserve f k (p ∷ l) d = ground (arith, none-reserve f k p.id l, distinct-reserve f k l)

pub below-reserve :
    (n : ℕ) (f : ℕ → Bool) (k : ℕ) (l : List Publisher)
    → all (λ p. ltb p.id n) l ≡ true
    → all (λ p. ltb p.id n) (reserve_all f k l).1 ≡ true
unfolding all reserve_all reserve_notify_ctxs
below-reserve n f k [] h = refl
below-reserve n f k (p ∷ l) h = ground (arith, below-reserve n f k l)

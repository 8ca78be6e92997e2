-- ===== src/Kmod/Topic/Valid/Entries.antt =====
-- The entries stay in the order of their ids.
use agnocast.Prelude.{
  ℕ, zero, suc, ◌≡◌, refl, Bool, true, ◌&&◌, not, List, [], ◌∷◌, ◌++◌, arith, ltb, ◌==◌,
  if◌then◌else◌,
}
use agnocast.Kmod.State.{Entry, Publisher, Env}
use agnocast.Kmod.Lists.{all, select}
use agnocast.Kmod.Topic.Delivery.{is_referenced}
use agnocast.Kmod.Topic.Publish.{release_loop}
use agnocast.Kmod.Topic.Receive.{mark}
use agnocast.Kmod.Topic.Release.{unmark, clear}
use agnocast.Kmod.Topic.Remove.{sweep, count_down, publisher_exited}
use agnocast.Kmod.Topic.Window.{ascending}
use agnocast.Kmod.Topic.Window.Receive.{mark_all}

-- What holds of every element holds of what an operation keeps.
pub all-release_loop :
    (p : Entry → Bool) (id search budget : ℕ) (l : List Entry)
    → all p l ≡ true
    → all p (release_loop id search budget l).2 ≡ true
unfolding all release_loop
all-release_loop p id zero b l h = h
all-release_loop p id (suc k) zero l h = h
all-release_loop p id (suc k) (suc b) [] h = h
all-release_loop p id (suc k) (suc b) (e ∷ []) h = h
all-release_loop p id (suc k) (suc b) (e ∷ x ∷ r) h =
    let mine = e.publisher_id == id in
    let free = mine && not (is_referenced e) in
    ground
      (arith, all-release_loop p id (if mine then k else suc k) (if free then b else suc b) (x ∷ r))

pub all-select {ℓ} :
    {A : Type ℓ} → (p q : A → Bool) (l : List A) → all p l ≡ true → all p (select q l) ≡ true
unfolding all select
all-select p q [] h = refl
all-select p q (x ∷ l) h = ground (arith, all-select p q l)

pub all-append {ℓ} :
    {A : Type ℓ} → (p : A → Bool) (l r : List A) → all p (l ++ r) ≡ (all p l && all p r)
unfolding all
all-append p [] r = refl
all-append p (x ∷ l) r = ground (arith, all-append p l r)

-- The same for a predicate on ids, where an operation changes the bits.
module _ (p : ℕ → Bool) where
  abbrev ids : List Entry → Bool
  ids l = all (λ e. p e.entry_id) l

  pub ids-mark : (s i : ℕ) (l : List Entry) → ids l ≡ true → ids (mark s i l) ≡ true
  unfolding all mark
  ids-mark s i [] h = refl
  ids-mark s i (e ∷ l) h = ground (arith, ids-mark s i l)

  pub ids-unmark : (s i : ℕ) (l : List Entry) → ids l ≡ true → ids (unmark s i l) ≡ true
  unfolding all unmark
  ids-unmark s i [] h = refl
  ids-unmark s i (e ∷ l) h = ground (arith, ids-unmark s i l)

  pub ids-sweep :
      (env : Env) (s : ℕ) (l : List Entry) (pubs : List Publisher)
      → ids l ≡ true
      → ids (sweep env s l pubs).0 ≡ true
  unfolding all sweep
  ids-sweep env s [] pubs h = refl
  ids-sweep env s (e ∷ l) pubs h =
      let gone = not (is_referenced (clear s e)) && publisher_exited env e.publisher_id pubs in
      ground (arith, ids-sweep env s l (if gone then count_down e.publisher_id pubs else pubs))

pub ascending-mark : (s i : ℕ) (l : List Entry) → ascending l ≡ true → ascending (mark s i l) ≡ true
unfolding ascending mark
ascending-mark s i [] h = refl
ascending-mark s i (e ∷ l) h =
    ground (arith, ids-mark (λ n. ltb e.entry_id n) s i l, ascending-mark s i l)

pub ascending-unmark :
    (s i : ℕ) (l : List Entry) → ascending l ≡ true → ascending (unmark s i l) ≡ true
unfolding ascending unmark
ascending-unmark s i [] h = refl
ascending-unmark s i (e ∷ l) h =
    ground (arith, ids-unmark (λ n. ltb e.entry_id n) s i l, ascending-unmark s i l)

pub ascending-sweep :
    (env : Env) (s : ℕ) (l : List Entry) (pubs : List Publisher)
    → ascending l ≡ true
    → ascending (sweep env s l pubs).0 ≡ true
unfolding ascending sweep
ascending-sweep env s [] pubs h = refl
ascending-sweep env s (e ∷ l) pubs h =
    let gone = not (is_referenced (clear s e)) && publisher_exited env e.publisher_id pubs in
    let after = if gone then count_down e.publisher_id pubs else pubs in
    ground (arith, ascending-sweep env s l after, ids-sweep (λ n. ltb e.entry_id n) env s l after)

pub ascending-select :
    (q : Entry → Bool) (l : List Entry) → ascending l ≡ true → ascending (select q l) ≡ true
unfolding ascending select
ascending-select q [] h = refl
ascending-select q (e ∷ l) h =
    ground (arith, ascending-select q l, all-select (λ x. ltb e.entry_id x.entry_id) q l)

pub ascending-release_loop :
    (id search budget : ℕ) (l : List Entry)
    → ascending l ≡ true
    → ascending (release_loop id search budget l).2 ≡ true
unfolding ascending release_loop
ascending-release_loop id zero b l h = h
ascending-release_loop id (suc k) zero l h = h
ascending-release_loop id (suc k) (suc b) [] h = h
ascending-release_loop id (suc k) (suc b) (e ∷ []) h = h
ascending-release_loop id (suc k) (suc b) (e ∷ x ∷ r) h =
    let mine = e.publisher_id == id in
    let free = mine && not (is_referenced e) in
    let k2 = if mine then k else suc k in
    let b2 = if free then b else suc b in
    ground (
      arith,
      ascending-release_loop id k2 b2 (x ∷ r),
      all-release_loop (λ y. ltb e.entry_id y.entry_id) id k2 b2 (x ∷ r),
    )

pub ascending-append :
    (l : List Entry) (e : Entry)
    → ascending l ≡ true
    → all (λ x. ltb x.entry_id e.entry_id) l ≡ true
    → ascending (l ++ e ∷ []) ≡ true
unfolding ascending all
ascending-append [] e h b = refl
ascending-append (x ∷ l) e h b =
    ground (arith, ascending-append l e, all-append (λ y. ltb x.entry_id y.entry_id) l (e ∷ []))

pub ascending-mark_all :
    (s : ℕ) (r l : List Entry) → ascending l ≡ true → ascending (mark_all s r l) ≡ true
unfolding mark_all
ascending-mark_all s [] l h = h
ascending-mark_all s (e ∷ r) l h =
    ascending-mark_all s r (mark s e.entry_id l) (ascending-mark s e.entry_id l h)

pub ids-mark_all :
    (p : ℕ → Bool) (s : ℕ) (r l : List Entry)
    → all (λ e. p e.entry_id) l ≡ true
    → all (λ e. p e.entry_id) (mark_all s r l) ≡ true
unfolding mark_all
ids-mark_all p s [] l h = h
ids-mark_all p s (e ∷ r) l h =
    ids-mark_all p s r (mark s e.entry_id l) (ids-mark p s e.entry_id l h)

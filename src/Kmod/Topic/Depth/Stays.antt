-- ===== src/Kmod/Topic/Depth/Stays.antt =====
-- The messages that stay when a publication releases others.
use agnocast.Prelude.{
  ℕ, zero, suc, ◌≤◌, ◌<◌, ◌≡◌, refl, sym, ap, ◌∙◌, true, false, ◌&&◌, not, List, [], ◌∷◌, ◌++◌,
  arith, ltb, if◌then◌else◌, length, map,
}
use agnocast.Kmod.State.{Entry, Publisher}
use agnocast.Kmod.Lists.{select, take, all, contains}
use agnocast.Kmod.Topic.Publish.{release_loop, set_entries_num}
use agnocast.Kmod.Topic.Window.{ascending}
use agnocast.Kmod.Topic.Depth.{is_own, is_free, own, own_num, own_num-append, take-own-append}

-- The ids of at most `budget` unreferenced ones among the oldest `search` of a publisher's messages.
abbrev pub released_ids : ℕ → ℕ → ℕ → List Entry → List ℕ
released_ids id search budget l =
    map (λ e. e.entry_id) (take budget (select is_free (take search (own id l))))

-- The messages without those of the ids.
abbrev pub without : List ℕ → List Entry → List Entry
without ids l = select (λ e. not (contains e.entry_id ids)) l

released_ids-above :
    (k id search budget : ℕ) (l : List Entry)
    → all (λ e. ltb k e.entry_id) l ≡ true
    → all (λ i. ltb k i) (released_ids id search budget l) ≡ true
unfolding all take select
released_ids-above k id zero zero l h = refl
released_ids-above k id zero (suc b) l h = refl
released_ids-above k id (suc s) zero l h = refl
released_ids-above k id (suc s) (suc b) [] h = refl
released_ids-above k id (suc s) (suc b) (e ∷ r) h =
    let mine = is_own id e in
    ground (
      arith,
      released_ids-above k id (if mine then s else suc s) (if mine && is_free e then b else suc b)
          r,
    )

released_ids-below :
    (n id search budget : ℕ) (l : List Entry)
    → all (λ e. ltb e.entry_id n) l ≡ true
    → all (λ i. ltb i n) (released_ids id search budget l) ≡ true
unfolding all take select
released_ids-below k id zero zero l h = refl
released_ids-below k id zero (suc b) l h = refl
released_ids-below k id (suc s) zero l h = refl
released_ids-below k id (suc s) (suc b) [] h = refl
released_ids-below k id (suc s) (suc b) (e ∷ r) h =
    let mine = is_own id e in
    ground (
      arith,
      released_ids-below k id (if mine then s else suc s) (if mine && is_free e then b else suc b)
          r,
    )

contains-above : (a : ℕ) (ids : List ℕ) → all (λ i. ltb a i) ids ≡ true → contains a ids ≡ false
unfolding all
contains-above a [] h = refl
contains-above a (i ∷ ids) h = ground (arith, contains-above a ids)

contains-below : (a : ℕ) (ids : List ℕ) → all (λ i. ltb i a) ids ≡ true → contains a ids ≡ false
unfolding all
contains-below a [] h = refl
contains-below a (i ∷ ids) h = ground (arith, contains-below a ids)

without-above :
    (a : ℕ) (ids : List ℕ) (l : List Entry)
    → all (λ e. ltb a e.entry_id) l ≡ true
    → without (a ∷ ids) l ≡ without ids l
unfolding all select
without-above a ids [] h = refl
without-above a ids (e ∷ l) h = ground (arith, without-above a ids l)

pub without-append :
    (ids : List ℕ) (l r : List Entry) → without ids (l ++ r) ≡ without ids l ++ without ids r
unfolding select
without-append ids [] r = refl
without-append ids (e ∷ l) r = ground (arith, without-append ids l r)

pub without-none : (l : List Entry) → without [] l ≡ l
unfolding select
without-none [] = refl
without-none (e ∷ l) = ground (arith, without-none l)

pub release_loop-without :
    (id search budget : ℕ) (l : List Entry)
    → ascending l ≡ true
    → search < own_num id l
    → (release_loop id search budget l).2 ≡ without (released_ids id search budget l) l
unfolding release_loop own_num select take ascending
release_loop-without id zero zero l o h = sym (without-none l)
release_loop-without id zero (suc b) l o h = sym (without-none l)
release_loop-without id (suc k) zero l o h = sym (without-none l)
release_loop-without id (suc k) (suc b) [] o h = ground arith
release_loop-without id (suc k) (suc b) (e ∷ []) o h = ground arith
release_loop-without id (suc k) (suc b) (e ∷ x ∷ r) o h =
    let mine = is_own id e in
    let k' = if mine then k else suc k in
    let b' = if mine && is_free e then b else suc b in
    let ids = released_ids id k' b' (x ∷ r) in
    let above = released_ids-above e.entry_id id k' b' (x ∷ r) in
    let rest = release_loop-without id k' b' (x ∷ r) in
    ground (arith, above, rest, contains-above e.entry_id ids, without-above e.entry_id ids (x ∷ r))

-- The same on a list to which a message was added.
pub release_loop-append :
    (id search budget : ℕ) (l : List Entry) (e : Entry)
    → ascending (l ++ e ∷ []) ≡ true
    → all (λ x. ltb x.entry_id e.entry_id) l ≡ true
    → is_own id e ≡ true
    → search ≤ own_num id l
    → (release_loop id search budget (l ++ e ∷ [])).2
      ≡ without (released_ids id search budget l) l ++ e ∷ []
unfolding own_num select
release_loop-append id search budget l e o below m h =
    let ids = released_ids id search budget l in
    let same : take search (own id (l ++ e ∷ [])) ≡ take search (own id l) =
      take-own-append id search l (e ∷ []) h in
    let fits : search < own_num id (l ++ e ∷ []) = ground (arith, own_num-append id l (e ∷ [])) in
    let kept : without ids (e ∷ []) ≡ e ∷ [] = ground (
      arith,
      contains-below e.entry_id ids (released_ids-below e.entry_id id search budget l below),
    ) in
    release_loop-without id search budget (l ++ e ∷ []) o fits
    ∙ ap (λ o'. without (map (λ x. x.entry_id) (take budget (select is_free o'))) (l ++ e ∷ []))
        same
    ∙ without-append ids l (e ∷ [])
    ∙ ap (λ r. without ids l ++ r) kept

pub set_entries_num-twice :
    (id : ℕ) (f g : ℕ → ℕ) (l : List Publisher)
    → set_entries_num id g (set_entries_num id f l) ≡ set_entries_num id (λ n. g (f n)) l
unfolding set_entries_num
set_entries_num-twice id f g [] = refl
set_entries_num-twice id f g (p ∷ l) = ground (arith, set_entries_num-twice id f g l)

-- With as many messages to look at as the publisher has, and fewer unreferenced ones than the loop may
-- release before the last: only that one and what is referenced or another's stay.
pub release_loop-fails_without :
    (id search budget : ℕ) (l : List Entry) (e : Entry)
    → is_own id e ≡ true
    → own_num id l < search
    → length (select is_free (own id l)) < budget
    → ((release_loop id search budget (l ++ e ∷ [])).2
        ≡ select (λ x. not (is_own id x && is_free x)) l ++ e ∷ [])
      × ((release_loop id search budget (l ++ e ∷ [])).1
          ≡ map (λ x. x.address) (select is_free (own id l)))
unfolding release_loop own_num select
release_loop-fails_without id zero b l e m h g = ground arith
release_loop-fails_without id (suc k) zero l e m h g = ground arith
release_loop-fails_without id (suc k) (suc b) [] e m h g = (refl, refl)
release_loop-fails_without id (suc k) (suc b) (x ∷ []) e m h g =
    let mine = is_own id x in
    ground (
      arith,
      release_loop-fails_without id (if mine then k else suc k)
          (if mine && is_free x then b else suc b) [] e m,
    )
release_loop-fails_without id (suc k) (suc b) (x ∷ y ∷ r) e m h g =
    let mine = is_own id x in
    ground (
      arith,
      release_loop-fails_without id (if mine then k else suc k)
          (if mine && is_free x then b else suc b) (y ∷ r) e m,
    )

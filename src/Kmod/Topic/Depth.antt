-- ===== src/Kmod/Topic/Depth.antt =====
-- What a publication releases: the loop against the oldest messages of the publisher.
pub mod Stays
pub mod Outcome
use agnocast.Prelude.{
  ℕ, zero, suc, ◌+◌, ◌-◌, ◌≤◌, ◌<◌, ◌≡◌, refl, Bool, true, false, ◌&&◌, not, none, some, List, [],
  ◌∷◌, ◌++◌, arith, ltb, ◌==◌, if◌then◌else◌, length, map,
}
use agnocast.Kmod.State.{Topic, Entry, Env, Process, Publisher, enodata, max_release_num}
use agnocast.Kmod.Lists.{select, take, all}
use agnocast.Kmod.Topic.Delivery.{is_referenced, find_publisher, find_process}
use agnocast.Kmod.Topic.Publish.{
  new_entry, insert_message_entry, release_loop, release_msgs_to_meet_depth, publish_checked,
  publish_msg,
}

abbrev pub is_own : ℕ → Entry → Bool
is_own id e = e.publisher_id == id

abbrev pub is_free : Entry → Bool
is_free e = not (is_referenced e)

-- The messages of a publisher, the oldest first, and their number.
abbrev pub own : ℕ → List Entry → List Entry
own id l = select (is_own id) l

unfoldable pub own_num : ℕ → List Entry → ℕ
own_num id [] = 0
own_num id (e ∷ r) = let rest = own_num id r in if is_own id e then rest + 1 else rest

-- The addresses of at most `budget` unreferenced ones among the oldest `search`.
abbrev pub releasable : ℕ → ℕ → ℕ → List Entry → List ℕ
releasable id search budget l =
    map (λ e. e.address) (take budget (select is_free (take search (own id l))))

pub release_loop-ends :
    (id search budget : ℕ) (l : List Entry)
    → search < own_num id l
    → (release_loop id search budget l).0 ≡ true
unfolding release_loop own_num
release_loop-ends id zero b l h = refl
release_loop-ends id (suc k) zero l h = refl
release_loop-ends id (suc k) (suc b) [] h = ground arith
release_loop-ends id (suc k) (suc b) (e ∷ []) h = ground arith
release_loop-ends id (suc k) (suc b) (e ∷ x ∷ r) h =
    let mine = is_own id e in
    ground (
      arith,
      release_loop-ends id (if mine then k else suc k) (if mine && is_free e then b else suc b)
          (x ∷ r),
    )

pub release_loop-releasable :
    (id search budget : ℕ) (l : List Entry)
    → search < own_num id l
    → (release_loop id search budget l).1 ≡ releasable id search budget l
unfolding release_loop own_num select take
release_loop-releasable id zero zero l h = refl
release_loop-releasable id zero (suc b) l h = refl
release_loop-releasable id (suc k) zero l h = refl
release_loop-releasable id (suc k) (suc b) [] h = ground arith
release_loop-releasable id (suc k) (suc b) (e ∷ []) h = ground arith
release_loop-releasable id (suc k) (suc b) (e ∷ x ∷ r) h =
    let mine = is_own id e in
    ground (
      arith,
      release_loop-releasable id (if mine then k else suc k)
          (if mine && is_free e then b else suc b) (x ∷ r),
    )

pub own_num-release_loop :
    (id search budget : ℕ) (l : List Entry)
    → own_num id (release_loop id search budget l).2 + length (release_loop id search budget l).1
      ≡ own_num id l
unfolding release_loop own_num
own_num-release_loop id zero b l = ground arith
own_num-release_loop id (suc k) zero l = ground arith
own_num-release_loop id (suc k) (suc b) [] = ground arith
own_num-release_loop id (suc k) (suc b) (e ∷ []) = ground arith
own_num-release_loop id (suc k) (suc b) (e ∷ x ∷ r) =
    let mine = is_own id e in
    ground (
      arith,
      own_num-release_loop id (if mine then k else suc k) (if mine && is_free e then b else suc b)
          (x ∷ r),
    )

pub own_num-append : (id : ℕ) (l r : List Entry) → own_num id (l ++ r) ≡ own_num id l + own_num id r
unfolding own_num
own_num-append id [] r = ground arith
own_num-append id (e ∷ l) r = ground (arith, own_num-append id l r)

pub take-own-append :
    (id n : ℕ) (l r : List Entry) → n ≤ own_num id l → take n (own id (l ++ r)) ≡ take n (own id l)
unfolding own_num take select
take-own-append id zero l r h = refl
take-own-append id (suc n) [] r h = ground arith
take-own-append id (suc n) (e ∷ l) r h =
    ground (arith, take-own-append id (suc n) l r, take-own-append id n l r)

-- With as many messages to look at as the publisher has, and fewer unreferenced ones before the last than
-- the loop may release, the loop reaches the last message.
release_loop-fails :
    (id search budget : ℕ) (l : List Entry) (e : Entry)
    → is_own id e ≡ true
    → own_num id l < search
    → length (select is_free (own id l)) < budget
    → (release_loop id search budget (l ++ e ∷ [])).0 ≡ false
unfolding release_loop own_num select
release_loop-fails id zero b l e m h g = ground arith
release_loop-fails id (suc k) zero l e m h g = ground arith
release_loop-fails id (suc k) (suc b) [] e m h g = refl
release_loop-fails id (suc k) (suc b) (x ∷ []) e m h g =
    let mine = is_own id x in
    ground (
      arith,
      release_loop-fails id (if mine then k else suc k) (if mine && is_free x then b else suc b) []
          e m,
    )
release_loop-fails id (suc k) (suc b) (x ∷ y ∷ r) e m h g =
    let mine = is_own id x in
    ground (
      arith,
      release_loop-fails id (if mine then k else suc k) (if mine && is_free x then b else suc b)
          (y ∷ r) e m,
    )

-- The call is checked, up to its body: the publisher is registered, its process too, and the message lies
-- in the pool of the process.
module _ (pool_start : ℕ → ℕ) (pool_size : ℕ) where
  pub publish_msg-checked :
      (env : Env) (id address : ℕ) (t : Topic) (p : Publisher) (q : Process)
      → find_publisher id t.publishers ≡ some p
      → find_process p.pid env.processes ≡ some q
      → pool_start q.pool ≤ address
      → address < pool_start q.pool + pool_size
      → publish_msg pool_start pool_size true env id address t
        ≡ publish_checked pool_start pool_size p address t
  unfolding publish_msg
  publish_msg-checked env id address t p q e f l u = rw (e, publish_msg) (rw f (ground arith))

  pub publish_checked-releases :
      (p : Publisher) (address : ℕ) (t : Topic)
      → all (λ e. ltb e.entry_id t.current_entry_id) t.entries ≡ true
      → p.entries_num ≡ own_num p.id t.entries
      → 0 < p.qos_depth
      → ((publish_checked pool_start pool_size p address t).result ≡ none)
        × ((publish_checked pool_start pool_size p address t).released
            ≡ releasable p.id (p.entries_num + 1 - p.qos_depth) max_release_num t.entries)
        × ((publish_checked pool_start pool_size p address t).signalled ≡ p.notify_ctxs)
  unfolding publish_checked insert_message_entry release_msgs_to_meet_depth own_num take
  publish_checked-releases p address t i c d =
      let k = p.entries_num + 1 - p.qos_depth in
      let l = t.entries ++ new_entry t.current_entry_id p.id address ∷ [] in
      ground (
        arith,
        own_num-append p.id t.entries (new_entry t.current_entry_id p.id address ∷ []),
        take-own-append p.id k t.entries (new_entry t.current_entry_id p.id address ∷ []),
        release_loop-ends p.id k max_release_num l,
        release_loop-releasable p.id k max_release_num l,
      )

  pub publish_checked-fails :
      (p : Publisher) (address : ℕ) (t : Topic)
      → all (λ e. ltb e.entry_id t.current_entry_id) t.entries ≡ true
      → p.entries_num ≡ own_num p.id t.entries
      → p.qos_depth ≡ 0
      → length (select is_free (own p.id t.entries)) < max_release_num
      → ((publish_checked pool_start pool_size p address t).result ≡ some enodata)
        × ((publish_checked pool_start pool_size p address t).signalled ≡ [])
  unfolding publish_checked insert_message_entry release_msgs_to_meet_depth
  publish_checked-fails p address t i c d f =
      let e = new_entry t.current_entry_id p.id address in
      ground (
        arith,
        release_loop-fails p.id (p.entries_num + 1 - p.qos_depth) max_release_num t.entries e,
      )

-- ===== src/Kmod/Topic/Valid/Refs.antt =====
-- The bits of the entries stay those of what was received.
use agnocast.Prelude.{
  ℕ, ◌+◌, ◌≤◌, ◌≡◌, refl, true, false, ◌&&◌, ◌||◌, not, List, [], ◌∷◌, ◌++◌, arith, ltb, ◌==◌,
  if◌then◌else◌,
}
use agnocast.Kmod.State.{Entry, Publisher, Env, max_topic_local_id}
use agnocast.Kmod.Lists.{all, contains, remove, contains-remove}
use agnocast.Kmod.Topic.Delivery.{is_referenced}
use agnocast.Kmod.Topic.Publish.{new_entry}
use agnocast.Kmod.Topic.Receive.{mark, reference_error}
use agnocast.Kmod.Topic.Release.{unmark, clear}
use agnocast.Kmod.Topic.Remove.{sweep, count_down, publisher_exited}
use agnocast.Kmod.Topic.Window.Receive.{mark_all, is_unclaimed}
use agnocast.Kmod.Topic.Valid.{fresh_from, refers_below}
use agnocast.Kmod.Topic.Valid.Entries.{all-append}

pub fresh-append :
    (w s n p a : ℕ) (l : List Entry)
    → ltb s max_topic_local_id ≡ true
    → fresh_from w s l ≡ true
    → fresh_from w s (l ++ new_entry n p a ∷ []) ≡ true
unfolding all reference_error
fresh-append w s n p a l b h =
    rw (all-append (λ (e : Entry). ltb e.entry_id w || is_unclaimed s e) l (new_entry n p a ∷ []))
      (ground arith)

pub fresh-weaken :
    (w v s : ℕ) (l : List Entry) → w ≤ v → fresh_from w s l ≡ true → fresh_from v s l ≡ true
unfolding all
fresh-weaken w v s [] b h = refl
fresh-weaken w v s (e ∷ l) b h = ground (arith, fresh-weaken w v s l)

pub fresh-mark :
    (w s sub i : ℕ) (l : List Entry)
    → ltb i w || not (sub == s) ≡ true
    → fresh_from w s l ≡ true
    → fresh_from w s (mark sub i l) ≡ true
unfolding all mark reference_error
fresh-mark w s sub i [] b h = refl
fresh-mark w s sub i (e ∷ l) b h = ground (arith, fresh-mark w s sub i l)

pub fresh-mark_all :
    (w s sub : ℕ) (r l : List Entry)
    → all (λ e. ltb e.entry_id w) r || not (sub == s) ≡ true
    → fresh_from w s l ≡ true
    → fresh_from w s (mark_all sub r l) ≡ true
unfolding all mark_all
fresh-mark_all w s sub [] l b h = h
fresh-mark_all w s sub (e ∷ r) l b h =
    fresh-mark_all w s sub r (mark sub e.entry_id l) (ground arith)
      (fresh-mark w s sub e.entry_id l (ground arith) h)

pub fresh-unmark :
    (w s sub i : ℕ) (l : List Entry)
    → fresh_from w s l ≡ true
    → fresh_from w s (unmark sub i l) ≡ true
unfolding all unmark reference_error
fresh-unmark w s sub i [] h = refl
fresh-unmark w s sub i (e ∷ l) h =
    ground (arith, contains-remove s sub e.referencing, fresh-unmark w s sub i l)

pub fresh-sweep :
    (env : Env) (w s sub : ℕ) (l : List Entry) (pubs : List Publisher)
    → fresh_from w s l ≡ true
    → fresh_from w s (sweep env sub l pubs).0 ≡ true
unfolding all sweep reference_error
fresh-sweep env w s sub [] pubs h = refl
fresh-sweep env w s sub (e ∷ l) pubs h =
    let gone = not (is_referenced (clear sub e)) && publisher_exited env e.publisher_id pubs in
    ground (
      arith,
      contains-remove s sub e.referencing,
      fresh-sweep env w s sub l (if gone then count_down e.publisher_id pubs else pubs),
    )

-- Bits below a number.
below-contains : (n : ℕ) (l : List ℕ) → all (λ i. ltb i n) l ≡ true → contains n l ≡ false
unfolding all
below-contains n [] h = refl
below-contains n (i ∷ l) h = ground (arith, below-contains n l)

below-remove :
    (n s : ℕ) (l : List ℕ) → all (λ i. ltb i n) l ≡ true → all (λ i. ltb i n) (remove s l) ≡ true
unfolding all remove
below-remove n s [] h = refl
below-remove n s (i ∷ l) h = ground (arith, below-remove n s l)

below-suc : (n : ℕ) (l : List ℕ) → all (λ i. ltb i n) l ≡ true → all (λ i. ltb i (n + 1)) l ≡ true
unfolding all
below-suc n [] h = refl
below-suc n (i ∷ l) h = ground (arith, below-suc n l)

pub refers-suc :
    (n : ℕ) (l : List Entry) → all (refers_below n) l ≡ true → all (refers_below (n + 1)) l ≡ true
unfolding all
refers-suc n [] h = refl
refers-suc n (e ∷ l) h = ground (arith, below-suc n e.referencing, refers-suc n l)

pub fresh-new :
    (w n : ℕ) (l : List Entry)
    → ltb n max_topic_local_id ≡ true
    → all (refers_below n) l ≡ true
    → fresh_from w n l ≡ true
unfolding all reference_error
fresh-new w n [] b h = refl
fresh-new w n (e ∷ l) b h = ground (arith, below-contains n e.referencing, fresh-new w n l)

pub refers-mark :
    (n s i : ℕ) (l : List Entry)
    → ltb s n ≡ true
    → all (refers_below n) l ≡ true
    → all (refers_below n) (mark s i l) ≡ true
unfolding all mark
refers-mark n s i [] b h = refl
refers-mark n s i (e ∷ l) b h = ground (arith, refers-mark n s i l)

pub refers-mark_all :
    (n s : ℕ) (r l : List Entry)
    → ltb s n ≡ true
    → all (refers_below n) l ≡ true
    → all (refers_below n) (mark_all s r l) ≡ true
unfolding mark_all
refers-mark_all n s [] l b h = h
refers-mark_all n s (e ∷ r) l b h =
    refers-mark_all n s r (mark s e.entry_id l) b (refers-mark n s e.entry_id l b h)

pub refers-unmark :
    (n s i : ℕ) (l : List Entry)
    → all (refers_below n) l ≡ true
    → all (refers_below n) (unmark s i l) ≡ true
unfolding all unmark
refers-unmark n s i [] h = refl
refers-unmark n s i (e ∷ l) h =
    ground (arith, below-remove n s e.referencing, refers-unmark n s i l)

pub refers-sweep :
    (env : Env) (n s : ℕ) (l : List Entry) (pubs : List Publisher)
    → all (refers_below n) l ≡ true
    → all (refers_below n) (sweep env s l pubs).0 ≡ true
unfolding all sweep
refers-sweep env n s [] pubs h = refl
refers-sweep env n s (e ∷ l) pubs h =
    let gone = not (is_referenced (clear s e)) && publisher_exited env e.publisher_id pubs in
    ground (
      arith,
      below-remove n s e.referencing,
      refers-sweep env n s l (if gone then count_down e.publisher_id pubs else pubs),
    )

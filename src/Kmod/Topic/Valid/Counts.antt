-- ===== src/Kmod/Topic/Valid/Counts.antt =====
-- A publisher's count is the number of its entries.
use agnocast.Prelude.{
  ℕ, zero, suc, ◌+◌, ◌≡◌, refl, ◌∙◌, false, ◌&&◌, not, List, [], ◌∷◌, arith, ◌==◌, if◌then◌else◌,
}
use agnocast.Kmod.State.{Entry}
use agnocast.Kmod.Lists.{select}
use agnocast.Kmod.Topic.Delivery.{is_referenced}
use agnocast.Kmod.Topic.Publish.{release_loop}
use agnocast.Kmod.Topic.Receive.{mark}
use agnocast.Kmod.Topic.Release.{unmark}
use agnocast.Kmod.Topic.Remove.{stays, leaving_num}
use agnocast.Kmod.Topic.Depth.{own_num}
use agnocast.Kmod.Topic.Window.Receive.{mark_all}

pub own_num-mark : (id s i : ℕ) (l : List Entry) → own_num id (mark s i l) ≡ own_num id l
unfolding own_num mark
own_num-mark id s i [] = refl
own_num-mark id s i (e ∷ l) = ground (arith, own_num-mark id s i l)

pub own_num-mark_all : (id s : ℕ) (r l : List Entry) → own_num id (mark_all s r l) ≡ own_num id l
unfolding mark_all
own_num-mark_all id s [] l = refl
own_num-mark_all id s (e ∷ r) l =
    own_num-mark_all id s r (mark s e.entry_id l) ∙ own_num-mark id s e.entry_id l

pub own_num-unmark : (id s i : ℕ) (l : List Entry) → own_num id (unmark s i l) ≡ own_num id l
unfolding own_num unmark
own_num-unmark id s i [] = refl
own_num-unmark id s i (e ∷ l) = ground (arith, own_num-unmark id s i l)

-- The entries of the other publishers stay.
pub own_num-release_other :
    (id p search budget : ℕ) (l : List Entry)
    → (id == p) ≡ false
    → own_num id (release_loop p search budget l).2 ≡ own_num id l
unfolding own_num release_loop
own_num-release_other id p zero b l d = refl
own_num-release_other id p (suc k) zero l d = refl
own_num-release_other id p (suc k) (suc b) [] d = refl
own_num-release_other id p (suc k) (suc b) (e ∷ []) d = refl
own_num-release_other id p (suc k) (suc b) (e ∷ x ∷ r) d =
    let mine = e.publisher_id == p in
    let free = mine && not (is_referenced e) in
    ground (
      arith,
      own_num-release_other id p (if mine then k else suc k) (if free then b else suc b) (x ∷ r) d,
    )

pub own_num-stays :
    (id p : ℕ) (l : List Entry)
    → own_num id (select (stays p) l) + (if id == p then leaving_num p l else 0) ≡ own_num id l
unfolding own_num select leaving_num
own_num-stays id p [] = ground arith
own_num-stays id p (e ∷ l) = ground (arith, own_num-stays id p l)

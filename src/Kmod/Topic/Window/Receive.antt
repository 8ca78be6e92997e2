-- ===== src/Kmod/Topic/Window/Receive.antt =====
-- What a receive gives, and what it leaves behind.
use agnocast.Prelude.{
  ◌<◌, ◌&&◌, ◌∙◌, ℕ, zero, suc, ◌≡◌, refl, sym, ap, Bool, true, false, ◌||◌, none, some, List, [],
  ◌∷◌, arith, ltb, ◌==◌, length, Bool-cases, inl, inr,
}
use agnocast.Kmod.State.{Topic, Entry, Env, Subscriber, max_receive_num}
use agnocast.Kmod.Lists.{is_empty, select, take, all, reverse, newest}
use agnocast.Kmod.Topic.Delivery.{find_subscriber}
use agnocast.Kmod.Topic.Receive.{
  is_cut, Found, found, missing, walk_back, fill, reference_error, mark, receive_found,
  receive_msg_core, receive_msg, update_latest, oldest_wanted, settled,
}
use agnocast.Kmod.Topic.Window.{
  newest-nil, ascending, walk_back-newest, all-reverse_onto, all-or, is_delivered, has_publisher,
  is_wanted, selected, finds_all, walk_back-finds_all,
}

abbrev pub is_unclaimed : ℕ → Entry → Bool
is_unclaimed sub e = elim (reference_error sub e) [ none ↦ true | some err ↦ false ]

-- The entries, with the subscriber's bit set in those that it was given.
unfoldable pub mark_all : ℕ → List Entry → List Entry → List Entry
unfolding mark
mark_all sub [] l = l
mark_all sub (e ∷ r) l = mark_all sub r (mark sub e.entry_id l)

-- The deliverable entries after the latest received one, the newest of them up to the depth.
abbrev pub window : Env → Topic → Subscriber → List Entry
window env t s =
    newest s.qos_depth (select (is_wanted env t s (oldest_wanted s.latest_received)) t.entries)

-- No entry after the latest received one carries the subscriber's bit, and its id fits the bitmap.
abbrev pub is_fresh : Topic → Subscriber → Bool
is_fresh t s =
    all (λ e. ltb e.entry_id (oldest_wanted s.latest_received) || is_unclaimed s.id e) t.entries

module _ (env : Env) (t : Topic) (s : Subscriber) where
  fill_lem :
      (room : ℕ) (node l : List Entry)
      → all (has_publisher env t s) node ≡ true
      → all (is_unclaimed s.id) node ≡ true
      → fill env t s room node l ≡ (
        none,
        take room (select (is_delivered env t s) node),
        mark_all s.id (take room (select (is_delivered env t s) node)) l,
      )
  unfolding fill select take all mark_all
  fill_lem zero node l p u = refl
  fill_lem (suc room) [] l p u = refl
  fill_lem (suc room) (e ∷ r) l p u =
      ground (arith, fill_lem (suc room) r l, fill_lem room r (mark s.id e.entry_id l))

  -- The loop stops early where more is deliverable than there is room for.
  is_cut-full :
      (room : ℕ) (node : List Entry)
      → all (has_publisher env t s) node ≡ true
      → room < length (select (is_delivered env t s) node)
      → is_cut env t s room node ≡ true
  unfolding is_cut select all
  is_cut-full zero [] p h = ground arith
  is_cut-full zero (e ∷ r) p h = refl
  is_cut-full (suc room) [] p h = ground arith
  is_cut-full (suc room) (e ∷ r) p h = ground (arith, is_cut-full (suc room) r, is_cut-full room r)

  receive_found_lem :
      (f : Found) (l : List Entry)
      → selected env t s f ≡ some (l, length l)
      → finds_all env t s (has_publisher env t s) f ≡ true
      → finds_all env t s (is_unclaimed s.id) f ≡ true
      → receive_found env s t f
        ≡ settled s t
            (ltb max_receive_num (length l))
            (none, take max_receive_num l, mark_all s.id (take max_receive_num l) t.entries)
  unfolding receive_found
  receive_found_lem missing l e p u = ground arith
  receive_found_lem (found node num) l e p u =
      let a : l ≡ select (is_delivered env t s) node = cc in
      let b : num ≡ length l = cc in
      let c : (is_cut env t s max_receive_num node && ltb max_receive_num num)
          ≡ ltb max_receive_num (length l) =
        ground (arith, a, b, is_cut-full max_receive_num node p) in
      let d : fill env t s max_receive_num node t.entries
          ≡ (none, take max_receive_num l, mark_all s.id (take max_receive_num l) t.entries) =
        rw a (fill_lem max_receive_num node t.entries p u) in
      ap (λ b. settled s t b (fill env t s max_receive_num node t.entries)) c
      ∙ ap (settled s t (ltb max_receive_num (length l))) d

window-nil :
    (env : Env) (t : Topic) (s : Subscriber)
    → is_empty t.entries || (s.qos_depth == 0) ≡ true
    → window env t s ≡ []
window-nil env t s h =
    newest-nil (is_wanted env t s (oldest_wanted s.latest_received)) s.qos_depth t.entries h

pub receive_msg_lem :
    (env : Env) (t : Topic) (sub : ℕ) (s : Subscriber)
    → find_subscriber sub t.subscribers ≡ some s
    → ascending t.entries ≡ true
    → all (has_publisher env t s) t.entries ≡ true
    → is_fresh t s ≡ true
    → let l = take max_receive_num (window env t s) in
      receive_msg env sub t ≡ record {
        result = none;
        messages = l;
        call_again = ltb max_receive_num (length (window env t s));
        topic = update_latest s.id l (record t { entries = mark_all s.id l t.entries });
      }
unfolding receive_msg receive_msg_core all take mark_all
receive_msg_lem env t sub s e a p f =
    let w = oldest_wanted s.latest_received in
    let walk = walk_back env t s w (reverse t.entries) [] [] 0 in
    rw (e, receive_msg)
      (elim (Bool-cases (is_empty t.entries || (s.qos_depth == 0))) [
        | inl g ↦ rw g (
            ap
              (λ (x : List Entry).
                settled s t (ltb max_receive_num (length x))
                  (none, take max_receive_num x, mark_all s.id (take max_receive_num x) t.entries))
              (sym (window-nil env t s g)))
        | inr g ↦ rw g (
            receive_found_lem env t s walk (window env t s)
              (walk_back-newest env t s w a p (ground arith))
              (walk_back-finds_all env t s (has_publisher env t s) w (reverse t.entries) [] [] 0
                (all-reverse_onto (λ (e : Entry). ltb e.entry_id w || has_publisher env t s e)
                  t.entries []
                  (all-or (λ (e : Entry). ltb e.entry_id w) (has_publisher env t s) t.entries p)
                  refl)
                refl refl)
              (walk_back-finds_all env t s (is_unclaimed s.id) w (reverse t.entries) [] [] 0
                (all-reverse_onto (λ (e : Entry). ltb e.entry_id w || is_unclaimed s.id e) t.entries
                  [] f refl)
                refl refl))
      ])

-- ===== src/Timer/Epoll.antt =====
-- agnocast_timer_info.cpp: `prepare_epoll` of the two handlers, one after the other as the executor
-- runs them, and what the handlers queue.
use agnocast.Prelude.{
  ℕ, ◌≡◌, ◌≢◌, refl, ap, ◌∙◌, ◌⊎◌, inl, inr, Bool, ◌&&◌, if◌then◌else◌, true, false, Option, none,
  some, List, [], ◌∷◌, ◌++◌, ℤ, ◌≤ℤ◌, ltb_ℤ, arith, Bool-cases, Option-cases, All,
}
use mathlib.Core.List.{append-nil}
use agnocast.Timer.Defs.{
  TimerInfo, Action, EpollEventType, timer_event, clock_event, epoll_add, queue_callable,
}
use agnocast.Timer.Registry.{
  Timers, Result, returned, threw, exited, find, is_open, is_due, prepare_timer, prepare_clock,
  prepare_all, prepare_epoll, has_fired, handle_timer, handle_clock,
}

-- A descriptor that waits to be added to epoll is open.
abbrev pub Consistent : ℕ × TimerInfo → Type 0
Consistent (id, t) =
    ((t.timer_fd_need_update ≡ false) ⊎ (is_open t.timer_fd ≡ true))
    × ((t.clock_eventfd_need_update ≡ false) ⊎ (is_open t.clock_eventfd ≡ true))

-- The timer handler's pass over the registry, then the clock handler's.
abbrev pub prepare_both : (ℕ → Bool) → Timers → Timers
prepare_both valid w = prepare_epoll (prepare_clock valid) (prepare_epoll (prepare_timer valid) w)

abbrev pub Settled : (ℕ → Bool) → ℕ × TimerInfo → Type 0
Settled valid (id, t) = is_due valid t ≡ false

both_settle :
    (valid : ℕ → Bool) (id : ℕ) (t : TimerInfo)
    → Consistent (id, t)
    → is_due valid (prepare_clock valid (id, (prepare_timer valid (id, t)).0)).0 ≡ false
unfolding prepare_timer prepare_clock
both_settle valid id t c = ground arith

prepare_all-Settled :
    (valid : ℕ → Bool) (l : List (ℕ × TimerInfo))
    → All Consistent l
    → All
        (Settled valid)
        (prepare_all (prepare_clock valid) (prepare_all (prepare_timer valid) l).0).0
unfolding prepare_all
prepare_all-Settled valid [] c = tt
prepare_all-Settled valid ((id, t) ∷ r) c =
    (both_settle valid id t c.0, prepare_all-Settled valid r c.1)

timer_skips :
    (valid : ℕ → Bool) (l : List (ℕ × TimerInfo))
    → All (Settled valid) l
    → prepare_all (prepare_timer valid) l ≡ (l, [])
unfolding prepare_all prepare_timer
timer_skips valid [] c = refl
timer_skips valid ((id, t) ∷ r) c = rw (c.0, timer_skips valid r c.1) refl

clock_skips :
    (valid : ℕ → Bool) (l : List (ℕ × TimerInfo))
    → All (Settled valid) l
    → prepare_all (prepare_clock valid) l ≡ (l, [])
unfolding prepare_all prepare_clock
clock_skips valid [] c = refl
clock_skips valid ((id, t) ∷ r) c = rw (c.0, clock_skips valid r c.1) refl

none_due :
    (f : ℕ × TimerInfo → TimerInfo × List Action) (w : Timers)
    → prepare_all f w.infos ≡ (w.infos, [])
    → prepare_epoll f w ≡ w
unfolding prepare_epoll
none_due f w e = rw e (ap (λ a. record w { actions = a }) (append-nil w.actions))

both_skip : (valid : ℕ → Bool) (w : Timers) → All (Settled valid) w.infos → prepare_both valid w ≡ w
both_skip valid w c =
    ap (prepare_epoll (prepare_clock valid)) (none_due _ w (timer_skips valid w.infos c))
    ∙ none_due _ w (clock_skips valid w.infos c)

-- Whether a pass sees to the timer: it waits for an update, lives, and its callback group is valid.
abbrev pub awaits : (ℕ → Bool) → TimerInfo → Bool
awaits valid t = elim t.timer [
  | none ↦ false
  | some c ↦ t.need_epoll_update && valid t.callback_group
]

-- The descriptor is added to epoll if its timer is seen to and it still has to be added.
abbrev pub added : Bool → Option ℕ → EpollEventType → ℕ → List Action
added wanted none kind id = []
added wanted (some fd) kind id = if wanted then epoll_add fd kind id ∷ [] else []

-- The additions to epoll that the registry asks for: those of the timers' own descriptors, and those of
-- the clocks' descriptors.
unfoldable pub timer_additions : (ℕ → Bool) → List (ℕ × TimerInfo) → List Action
timer_additions valid [] = []
timer_additions valid ((id, t) ∷ r) =
    added (awaits valid t && t.timer_fd_need_update) t.timer_fd timer_event id
    ++ timer_additions valid r

unfoldable pub clock_additions : (ℕ → Bool) → List (ℕ × TimerInfo) → List Action
clock_additions valid [] = []
clock_additions valid ((id, t) ∷ r) =
    added (awaits valid t && t.clock_eventfd_need_update) t.clock_eventfd clock_event id
    ++ clock_additions valid r

-- The registry with nothing left to add for the timers that were seen to.
unfoldable pub seen_to : (ℕ → Bool) → List (ℕ × TimerInfo) → List (ℕ × TimerInfo)
seen_to valid [] = []
seen_to valid ((id, t) ∷ r) =
    (
      id,
      if awaits valid t
          then record t {
            timer_fd_need_update = false;
            clock_eventfd_need_update = false;
            need_epoll_update = false;
          }
          else t,
    )
    ∷ seen_to valid r

prepare_timer-adds :
    (valid : ℕ → Bool) (l : List (ℕ × TimerInfo))
    → (prepare_all (prepare_timer valid) l).1 ≡ timer_additions valid l
unfolding prepare_all prepare_timer timer_additions
prepare_timer-adds valid [] = refl
prepare_timer-adds valid ((id, t) ∷ r) =
    let rest = prepare_timer-adds valid r in ground (arith, rest)

prepare_clock-adds :
    (valid : ℕ → Bool) (l : List (ℕ × TimerInfo))
    → (prepare_all (prepare_clock valid) (prepare_all (prepare_timer valid) l).0).1
      ≡ clock_additions valid l
unfolding prepare_all prepare_timer prepare_clock clock_additions
prepare_clock-adds valid [] = refl
prepare_clock-adds valid ((id, t) ∷ r) =
    let rest = prepare_clock-adds valid r in ground (arith, rest)

prepare_both-seen_to :
    (valid : ℕ → Bool) (l : List (ℕ × TimerInfo))
    → All Consistent l
    → (prepare_all (prepare_clock valid) (prepare_all (prepare_timer valid) l).0).0
      ≡ seen_to valid l
unfolding prepare_all prepare_timer prepare_clock seen_to
prepare_both-seen_to valid [] c = refl
prepare_both-seen_to valid ((id, t) ∷ r) c =
    let rest = prepare_both-seen_to valid r c.1 in let here = c.0 in ground (arith, rest, here)

-- If every descriptor that waits to be added to epoll is open, then a pass of both handlers adds to
-- epoll, of the timers that wait for an update, live and are of a valid callback group, exactly the
-- descriptors that still have to be added: first the timers' own, then the clocks', each as of its kind
-- and for its timer's id. These timers have nothing left to add, nothing else of the registry changes,
-- and a second pass with the same groups changes nothing: no descriptor is added twice.
pub prepare_both-Settled :
    (valid : ℕ → Bool) (w : Timers)
    → All Consistent w.infos
    → ((prepare_both valid w).actions
        ≡ (w.actions ++ timer_additions valid w.infos) ++ clock_additions valid w.infos)
      × ((prepare_both valid w).infos ≡ seen_to valid w.infos)
      × All (Settled valid) (prepare_both valid w).infos
      × (prepare_both valid (prepare_both valid w) ≡ prepare_both valid w)
unfolding prepare_epoll
prepare_both-Settled valid w c = (
  rw (prepare_timer-adds valid w.infos, prepare_clock-adds valid w.infos) refl,
  prepare_both-seen_to valid w.infos c,
  done,
  both_skip valid (prepare_both valid w) done,
)
  where
    done : All (Settled valid) (prepare_both valid w).infos
    done = prepare_all-Settled valid w.infos c

-- What a handler may do: end the process if the id is unknown; leave all as it is; or queue one
-- callable for the timer of that id, which lives and is `P`, with the timer's callback group.
abbrev pub Handled : (TimerInfo → Type 0) → ℕ → Timers → Result → Type 0
Handled P id w (exited u) = (find id w.infos ≡ none) × (u ≡ w)
Handled P id w (threw u) = false ≡ true
Handled P id w (returned u) =
    (u ≡ w)
    ⊎ ((t : TimerInfo) × (find id w.infos ≡ some t)
        × (t.timer ≢ none)
        × P t
        × (u ≡ record w { actions = w.actions ++ queue_callable id t.callback_group ∷ [] }))

-- The timer handler ends the process only for an unknown id, and queues a callable only for a live
-- timer whose descriptor is open; else it changes nothing.
pub handle_timer-Handled :
    (id : ℕ) (expirations : Option ℕ) (w : Timers)
    → Handled (λ t. is_open t.timer_fd ≡ true) id w (handle_timer id expirations w)
unfolding handle_timer
handle_timer-Handled id expirations w = from (find id w.infos) refl
  where
    from :
        (o : Option TimerInfo)
        → find id w.infos ≡ o
        → Handled (λ t. is_open t.timer_fd ≡ true) id w (handle_timer id expirations w)
    from none e = rw (e, handle_timer) (e, refl)
    from (some t) e = elim (Option-cases t.timer) [
      | inl f ↦ rw (e, handle_timer, f) (inl refl)
      | inr (c, f) ↦ elim (Option-cases t.timer_fd) [
        | inl g ↦ rw (e, handle_timer, f, g) (inl refl)
        | inr (fd, g) ↦ elim (Bool-cases (has_fired expirations)) [
          | inl h ↦ rw (e, handle_timer, f, g, h) (inr (t, e, ground arith, ground arith, refl))
          | inr h ↦ rw (e, handle_timer, f, g, h) (inl refl)
        ]
      ]
    ]

-- The clock handler ends the process only for an unknown id, and queues a callable only for a live
-- timer that is due; else it changes nothing.
pub handle_clock-Handled :
    (id : ℕ) (val : Option ℕ) (now : ℤ) (w : Timers)
    → Handled (λ t. t.next_call_time ≤ℤ now) id w (handle_clock id val now w)
unfolding handle_clock
handle_clock-Handled id val now w = from (find id w.infos) refl
  where
    from :
        (o : Option TimerInfo)
        → find id w.infos ≡ o
        → Handled (λ t. t.next_call_time ≤ℤ now) id w (handle_clock id val now w)
    from none e = rw (e, handle_clock) (e, refl)
    from (some t) e = elim (Option-cases t.timer) [
      | inl f ↦ rw (e, handle_clock, f) (inl refl)
      | inr (c, f) ↦ elim (Bool-cases (has_fired val)) [
        | inl h ↦ elim (Bool-cases (ltb_ℤ now t.next_call_time)) [
          | inl g ↦ rw (e, handle_clock, f, h, g) (inl refl)
          | inr g ↦ rw (e, handle_clock, f, h, g) (inr (t, e, ground arith, ground arith, refl))
        ]
        | inr h ↦ rw (e, handle_clock, f, h) (inl refl)
      ]
    ]

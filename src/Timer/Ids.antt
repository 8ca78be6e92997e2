-- ===== src/Timer/Ids.antt =====
-- agnocast_timer_info.cpp: the ids of timers, and the entries of the registry.
use agnocast.Prelude.{
  ℕ, zero, suc, ◌+◌, ◌%◌, ◌^◌, ◌<◌, ◌≡◌, refl, ap, Bool, true, false, not, ◌&&◌, ◌⊎◌, inl, inr,
  Option, none, some, List, [], ◌∷◌, ◌++◌, pos, ◌+ℤ◌, arith, ◌==◌, if◌then◌else◌,
}
use agnocast.Timer.Defs.{
  TimerInfo, Timespec, Action, settime, close_if_open, ns_to_armed_timespec, arm_timer_fd,
}
use agnocast.Timer.Schedule.{Armed, ns_to_armed_timespec-Armed}
use agnocast.Timer.Registry.{
  max_timer_id, Timers, Result, returned, threw, exited, allocate_timer_id, Clock, System,
  create_timer_fd, Opened, opened, failed, open_timer_fd, open_fds, find, erase, is_open, new_timer,
  register_timer_info, unregister_timer_info,
}

-- The counter after `k` calls of `allocate_timer_id`.
unfoldable pub counter_after : ℕ → ℕ → ℕ
unfolding allocate_timer_id
counter_after zero c = c
counter_after (suc k) c = counter_after k (allocate_timer_id c).1

counter_after_lem : (k c : ℕ) → c < 2 ^ 32 → counter_after k c ≡ (c + k) % 2 ^ 32
unfolding counter_after allocate_timer_id
counter_after_lem zero c h = omega arith
counter_after_lem (suc k) c h = omega (arith, counter_after_lem k ((c + 1) % 2 ^ 32) (omega arith))

-- Of the first 2^32 calls of a process, two that return give different ids, the later one the larger,
-- and both are below the bound.
pub allocate-distinct :
    (i j a b : ℕ)
    → i < j
    → j < 2 ^ 32
    → (allocate_timer_id (counter_after i 0)).0 ≡ some a
    → (allocate_timer_id (counter_after j 0)).0 ≡ some b
    → (a < b) × (b < max_timer_id)
unfolding allocate_timer_id
allocate-distinct i j a b h k e f =
    ground (arith, counter_after_lem i 0 (omega arith), counter_after_lem j 0 (omega arith))

-- 2^32 calls later `allocate_timer_id` answers as before, with the same id if it gave one: calls that
-- throw move the counter too, and it wraps.
pub allocate-repeats :
    (k : ℕ)
    → allocate_timer_id (counter_after (k + 2 ^ 32) 0) ≡ allocate_timer_id (counter_after k 0)
allocate-repeats k = ap allocate_timer_id (
    omega
      (arith, counter_after_lem k 0 (omega arith), counter_after_lem (k + 2 ^ 32) 0 (omega arith)))

find-erase :
    (id j : ℕ) (l : List (ℕ × TimerInfo))
    → find j (erase id l) ≡ (if id == j then none else find j l)
unfolding find erase
find-erase id j [] = ground arith
find-erase id j ((k, t) ∷ r) = ground (arith, find-erase id j r)

-- After `unregister_timer_info` the id is not found; every other id is found as before.
unregister-find :
    (id j : ℕ) (w : Timers)
    → find j (unregister_timer_info id w).infos ≡ (if id == j then none else find j w.infos)
unfolding unregister_timer_info
unregister-find id j w = find-erase id j w.infos

-- Whether a timer has a descriptor of its own: not while the simulated time of a ROS clock is active.
abbrev pub runs_on_timerfd : Clock → Bool
runs_on_timerfd clock = not (clock.is_ros_time && clock.ros_time_is_active)

-- The descriptors of a new timer and what was done to make them: exactly a ROS clock has an event
-- descriptor; the timer has one of its own exactly if it runs on one, and that one was armed to fire in
-- one period and in every period from there.
pub record Driven (period : ℕ) (clock : Clock) (sys : System) (timer_fd clock_eventfd : Option ℕ)
    (done : List Action) : Type 0 where
  pub clock_open : is_open clock_eventfd ≡ clock.is_ros_time
  pub clock_made : clock_eventfd ≡ (if clock.is_ros_time then sys.eventfd else none)
  pub timer_open : is_open timer_fd ≡ runs_on_timerfd clock
  pub armed :
      ((timer_fd ≡ none) × (done ≡ []))
      ⊎ ((fd : ℕ) × (v : Timespec) × (sys.timerfd ≡ some fd)
          × (timer_fd ≡ some fd)
          × (done ≡ settime fd v v ∷ [])
          × Armed period v)

-- What a new timer is: due one period from now, with its descriptors, each waiting for epoll.
pub record Fresh (id period : ℕ) (clock : Clock) (sys : System) (t : TimerInfo) (done : List Action)
    : Type 0 where
  pub named : t.timer_id ≡ id
  pub next : t.next_call_time ≡ clock.now +ℤ pos period
  pub last : t.last_call_time ≡ clock.now
  pub driven : Driven period clock sys t.timer_fd t.clock_eventfd done
  pub timer_waits : t.timer_fd_need_update ≡ is_open t.timer_fd
  pub clock_waits : t.clock_eventfd_need_update ≡ is_open t.clock_eventfd
  pub due : t.need_epoll_update ≡ true

-- Why it throws: a ROS clock gets no event descriptor, and nothing was opened; or a timer that runs on a
-- descriptor of its own gets none or cannot arm it, and what was opened is closed.
abbrev pub Refused : Clock → System → List Action → Type 0
Refused clock sys done =
    ((clock.is_ros_time ≡ true) × (sys.eventfd ≡ none) × (done ≡ []))
    ⊎ ((runs_on_timerfd clock ≡ true)
        × ((sys.timerfd ≡ none) ⊎ (sys.settime_succeeds ≡ false))
        × (done
            ≡ close_if_open sys.timerfd
              ++ (if clock.is_ros_time then close_if_open sys.eventfd else [])))

-- Returned: the id finds the new timer, and the id `j` finds it if it is the same, else what it found.
-- Thrown: the registry is as it was.
abbrev pub Registered : ℕ → ℕ → ℕ → Clock → System → Timers → Result → Type 0
Registered id j period clock sys w (returned u) =
    (t : TimerInfo) × (done : List Action) × Fresh id period clock sys t done
    × (u.actions ≡ w.actions ++ done)
    × (find j u.infos ≡ (if id == j then some t else find j w.infos))
Registered id j period clock sys w (threw u) =
    (u.infos ≡ w.infos)
    × (done : List Action) × Refused clock sys done
    × (u.actions ≡ w.actions ++ done)
Registered id j period clock sys w (exited u) = false ≡ true

-- What `open_fds` gives.
abbrev OpenedWell : ℕ → Clock → System → Opened → Type 0
OpenedWell period clock sys (failed done) = Refused clock sys done
OpenedWell period clock sys (opened timer_fd clock_eventfd done) =
    Driven period clock sys timer_fd clock_eventfd done

open_fds-OpenedWell :
    (clock : Clock) (sys : System) (period : ℕ)
    → OpenedWell period clock sys (open_fds clock sys period)
unfolding open_fds open_timer_fd create_timer_fd arm_timer_fd
open_fds-OpenedWell clock sys period =
    cases clock.is_ros_time clock.ros_time_is_active sys.eventfd sys.timerfd sys.settime_succeeds
  where
    cases :
        (ros active : Bool) (eventfd timerfd : Option ℕ) (ok : Bool)
        → let c : Clock = record {
          is_ros_time = ros;
          ros_time_is_active = active;
          now = clock.now;
        } in
          let s : System = record { eventfd = eventfd; timerfd = timerfd; settime_succeeds = ok } in
          OpenedWell period c s (open_fds c s period)
    cases true active none timerfd ok = inl (refl, refl, refl)
    cases true true (some fd) timerfd ok = record {
      clock_open = refl;
      clock_made = refl;
      timer_open = refl;
      armed = inl (refl, refl);
    }
    cases true false (some fd) none ok = inr (refl, inl refl, refl)
    cases true false (some fd) (some tfd) false = inr (refl, inr refl, refl)
    cases true false (some fd) (some tfd) true = record {
      clock_open = refl;
      clock_made = refl;
      timer_open = refl;
      armed =
          inr
            (tfd, ns_to_armed_timespec period, refl, refl, refl, ns_to_armed_timespec-Armed period);
    }
    cases false active eventfd none ok = inr (refl, inl refl, refl)
    cases false active eventfd (some tfd) false = inr (refl, inr refl, refl)
    cases false active eventfd (some tfd) true = record {
      clock_open = refl;
      clock_made = refl;
      timer_open = refl;
      armed =
          inr
            (tfd, ns_to_armed_timespec period, refl, refl, refl, ns_to_armed_timespec-Armed period);
    }

-- `register_timer_info` on every branch, with any kind of clock and whatever the system calls give. It
-- returns: the timer is due one period from now; it has the event descriptor exactly on a ROS clock, and
-- a descriptor of its own exactly unless the clock's simulated time is active, which was armed with the
-- period; each open descriptor is still to be added to epoll; other ids find what they found. Or a
-- descriptor that it needs was not given or not armed: it throws, those opened are closed, and the
-- registry is as it was.
pub register-Registered :
    (id j : ℕ) (timer : Option Bool) (period group : ℕ) (clock : Clock) (sys : System) (w : Timers)
    → Registered id j period clock sys w (register_timer_info id timer period group clock sys w)
unfolding register_timer_info find
register-Registered id j timer period group clock sys w =
    from (open_fds clock sys period) refl (open_fds-OpenedWell clock sys period)
  where
    from :
        (o : Opened)
        → open_fds clock sys period ≡ o
        → OpenedWell period clock sys o
        → Registered id j period clock sys w (register_timer_info id timer period group clock sys w)
    from (failed done) e d = rw (e, register_timer_info) (refl, done, d, refl)
    from (opened timer_fd clock_eventfd done) e d =
        rw (e, register_timer_info)
          (
            new_timer id timer period group clock.now timer_fd clock_eventfd,
            done,
            record {
              named = refl;
              next = refl;
              last = refl;
              driven = d;
              timer_waits = refl;
              clock_waits = refl;
              due = refl;
            },
            refl,
            ground (arith, find-erase id j w.infos),
          )

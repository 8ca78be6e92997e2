-- ===== src/Timer/Registry.antt =====
-- agnocast_timer_info.cpp: the registry `id2_timer_info`, a list of entries, the counter of ids, and the
-- handlers. What a system call returns is an argument.
use agnocast.Prelude.{
  ℕ, ◌+◌, ◌-◌, ◌%◌, ◌^◌, Bool, true, false, not, ◌&&◌, ◌||◌, Option, none, some, List, [], ◌∷◌,
  ◌++◌, ℤ, pos, ◌+ℤ◌, ltb_ℤ, ltb, ◌==◌, if◌then◌else◌,
}
use agnocast.Timer.Defs.{
  TimerInfo, timer_event, clock_event, Action, close_fd, epoll_add, queue_callable, arm_timer_fd,
}

abbrev pub max_timer_id : ℕ
max_timer_id = 2 ^ 32 - 1 - 1000

pub record Timers : Type 0 where
  pub next_timer_id : ℕ
  pub infos : List (ℕ × TimerInfo)
  pub actions : List Action

-- A call that throws, or ends the process, or returns.
pub data Result : Type 0 where
  returned threw exited : Timers → Result

-- `allocate_timer_id`: the id, `none` where it throws, and the counter, which was increased in either
-- case.
unfoldable pub allocate_timer_id : ℕ → Option ℕ × ℕ
allocate_timer_id next = ((if ltb next max_timer_id then some next else none), (next + 1) % 2 ^ 32)

pub record Clock : Type 0 where
  pub is_ros_time : Bool
  pub ros_time_is_active : Bool
  pub now : ℤ

-- The results of `eventfd`, `timerfd_create` and `timerfd_settime`.
pub record System : Type 0 where
  pub eventfd : Option ℕ
  pub timerfd : Option ℕ
  pub settime_succeeds : Bool

unfoldable pub create_timer_fd : System → ℕ → Option ℕ × List Action
unfolding arm_timer_fd
create_timer_fd sys period = elim sys.timerfd [
  | none ↦ (none, [])
  | some fd ↦
      if sys.settime_succeeds
      then (some fd, arm_timer_fd fd period ∷ [])
      else (none, close_fd fd ∷ [])
]

-- The file descriptors of a new timer: that of the timer and that of the clock, with what was done to
-- make them; or what was done up to the throw and the destructor.
pub data Opened : Type 0 where
  opened : Option ℕ → Option ℕ → List Action → Opened
  failed : List Action → Opened

unfoldable pub open_timer_fd : System → ℕ → Option ℕ → List Action → Opened
unfolding create_timer_fd
open_timer_fd sys period clock_eventfd undo =
    let (made, done) = create_timer_fd sys period in
    elim made [ none ↦ failed (done ++ undo) | some fd ↦ opened (some fd) clock_eventfd done ]

unfoldable pub open_fds : Clock → System → ℕ → Opened
unfolding open_timer_fd
open_fds clock sys period =
    if clock.is_ros_time
    then elim sys.eventfd [
      | none ↦ failed []
      | some fd ↦
          if clock.ros_time_is_active
          then opened none (some fd) []
          else open_timer_fd sys period (some fd) (close_fd fd ∷ [])
    ]
    else open_timer_fd sys period none []

unfoldable pub find : ℕ → List (ℕ × TimerInfo) → Option TimerInfo
find id [] = none
find id ((j, t) ∷ r) = if j == id then some t else find id r

unfoldable pub erase : ℕ → List (ℕ × TimerInfo) → List (ℕ × TimerInfo)
erase id [] = []
erase id ((j, t) ∷ r) = if j == id then erase id r else (j, t) ∷ erase id r

abbrev pub is_open : Option ℕ → Bool
is_open none = false
is_open (some fd) = true

abbrev pub new_timer : ℕ → Option Bool → ℕ → ℕ → ℤ → Option ℕ → Option ℕ → TimerInfo
new_timer id timer period group now timer_fd clock_eventfd = record {
  timer_id = id;
  timer_fd = timer_fd;
  timer_fd_need_update = is_open timer_fd;
  clock_eventfd = clock_eventfd;
  clock_eventfd_need_update = is_open clock_eventfd;
  timer = timer;
  callback_group = group;
  last_call_time = now;
  next_call_time = now +ℤ pos period;
  time_credit = pos 0;
  period = period;
  need_epoll_update = true;
}

unfoldable pub register_timer_info : ℕ → Option Bool → ℕ → ℕ → Clock → System → Timers → Result
unfolding open_fds erase
register_timer_info id timer period group clock sys w = elim (open_fds clock sys period) [
  | failed done ↦ threw (record w { actions = w.actions ++ done })
  | opened timer_fd clock_eventfd done ↦ returned (record w {
    infos =
        (id, new_timer id timer period group clock.now timer_fd clock_eventfd) ∷ erase id w.infos;
    actions = w.actions ++ done;
  })
]

unfoldable pub unregister_timer_info : ℕ → Timers → Timers
unfolding erase
unregister_timer_info id w = record w { infos = erase id w.infos }

unfoldable pub group_has_agnocast_timer : ℕ → List (ℕ × TimerInfo) → Bool
group_has_agnocast_timer group [] = false
group_has_agnocast_timer group ((id, t) ∷ r) =
    (t.callback_group == group) || group_has_agnocast_timer group r

-- Whether `prepare_epoll` looks at the timer: it waits for an update, its object lives, its group is valid.
abbrev pub is_due : (ℕ → Bool) → TimerInfo → Bool
is_due valid t =
    t.need_epoll_update && elim t.timer [ none ↦ false | some c ↦ valid t.callback_group ]

abbrev pub refresh : TimerInfo → TimerInfo
refresh t = record t { need_epoll_update = t.timer_fd_need_update || t.clock_eventfd_need_update }

-- One round of `TimerEventHandler::prepare_epoll`, where `epoll_ctl` succeeds.
unfoldable pub prepare_timer : (ℕ → Bool) → ℕ × TimerInfo → TimerInfo × List Action
prepare_timer valid (id, t) =
    if is_due valid t
    then elim t.timer_fd [
      | none ↦ (refresh t, [])
      | some fd ↦
          if t.timer_fd_need_update
          then (
            refresh (record t { timer_fd_need_update = false }),
            epoll_add fd timer_event id ∷ [],
          )
          else (refresh t, [])
    ]
    else (t, [])

-- One round of `ClockEventHandler::prepare_epoll`.
unfoldable pub prepare_clock : (ℕ → Bool) → ℕ × TimerInfo → TimerInfo × List Action
prepare_clock valid (id, t) =
    if is_due valid t
    then elim t.clock_eventfd [
      | none ↦ (refresh t, [])
      | some fd ↦
          if t.clock_eventfd_need_update
          then (
            refresh (record t { clock_eventfd_need_update = false }),
            epoll_add fd clock_event id ∷ [],
          )
          else (refresh t, [])
    ]
    else (t, [])

-- The loop of either `prepare_epoll` over the registry.
unfoldable pub prepare_all :
    (ℕ × TimerInfo → TimerInfo × List Action)
    → List (ℕ × TimerInfo)
    → List (ℕ × TimerInfo) × List Action
prepare_all f [] = ([], [])
prepare_all f ((id, t) ∷ r) =
    let (t', done) = f (id, t) in let (r', more) = prepare_all f r in ((id, t') ∷ r', done ++ more)

unfoldable pub prepare_epoll : (ℕ × TimerInfo → TimerInfo × List Action) → Timers → Timers
unfolding prepare_all
prepare_epoll f w =
    let (infos', done) = prepare_all f w.infos in
    record w { infos = infos'; actions = w.actions ++ done }

abbrev pub queue : ℕ → TimerInfo → Timers → Result
queue id t w =
    returned (record w { actions = w.actions ++ queue_callable id t.callback_group ∷ [] })

-- Whether a read of the descriptor gave a count that is not zero.
abbrev pub has_fired : Option ℕ → Bool
has_fired none = false
has_fired (some n) = not (n == 0)

-- `TimerEventHandler::handle`; `expirations` is what the read of the timer's descriptor gives.
unfoldable pub handle_timer : ℕ → Option ℕ → Timers → Result
unfolding find
handle_timer id expirations w = elim (find id w.infos) [
  | none ↦ exited w
  | some t ↦ elim t.timer [
    | none ↦ returned w
    | some c ↦ elim t.timer_fd [
      | none ↦ returned w
      | some fd ↦ if has_fired expirations then queue id t w else returned w
    ]
  ]
]

-- `ClockEventHandler::handle`; `val` is what the read of the clock's descriptor gives.
unfoldable pub handle_clock : ℕ → Option ℕ → ℤ → Timers → Result
unfolding find
handle_clock id val now w = elim (find id w.infos) [
  | none ↦ exited w
  | some t ↦ elim t.timer [
    | none ↦ returned w
    | some c ↦
        if has_fired val
        then (if ltb_ℤ now t.next_call_time then returned w else queue id t w)
        else returned w
  ]
]

-- ===== src/Timer/Defs.antt =====
-- agnocast_timer_info.cpp: one timer. Times are integers of nanoseconds; a period is a natural number of
-- them. A file descriptor of -1 is `none`. `timer` is the object behind the weak pointer: `none` once
-- it is destroyed, else whether it is cancelled.
use agnocast.Prelude.{
  ℕ, ◌+◌, ◌-◌, ◌*◌, ◌/◌, ◌%◌, Bool, true, false, Option, none, some, List, [], ◌∷◌, ℤ, pos,
  pos_part, ◌+ℤ◌, ◌-ℤ◌, ltb_ℤ, leb_ℤ, eq_ℤ, ◌==◌, if◌then◌else◌,
}

abbrev pub nanoseconds_per_second : ℕ
nanoseconds_per_second = 1_000_000_000

pub record TimerInfo : Type 0 where
  pub timer_id : ℕ
  pub timer_fd : Option ℕ
  pub timer_fd_need_update : Bool
  pub clock_eventfd : Option ℕ
  pub clock_eventfd_need_update : Bool
  pub timer : Option Bool
  pub callback_group : ℕ
  pub last_call_time : ℤ
  pub next_call_time : ℤ
  pub time_credit : ℤ
  pub period : ℕ
  pub need_epoll_update : Bool

pub record Timespec : Type 0 where
  pub sec : ℕ
  pub nsec : ℕ

pub data EpollEventType : Type 0 where
  timer_event clock_event : EpollEventType

-- What the code does outside its own state: the system calls, the callback, and the callable that a
-- handler queues for the executor.
pub data Action : Type 0 where
  settime : ℕ → Timespec → Timespec → Action
  close_fd : ℕ → Action
  write_eventfd : ℕ → Action
  epoll_add : ℕ → EpollEventType → ℕ → Action
  execute_callback : ℕ → Action
  queue_callable : ℕ → ℕ → Action

-- `rcl_clock_change_t`, the two kinds that the code tests, and the others.
pub data ClockChange : Type 0 where
  ros_time_activated ros_time_deactivated other_change : ClockChange

-- `now` is `none` if the clock throws.
unfoldable pub handle_pre_time_jump : Option ℤ → TimerInfo → TimerInfo
unfolding ◌-ℤ◌
handle_pre_time_jump none t = t
handle_pre_time_jump (some now) t =
    if eq_ℤ now (pos 0) then t else record t { time_credit = t.next_call_time -ℤ now }

abbrev pub close_if_open : Option ℕ → List Action
close_if_open none = []
close_if_open (some fd) = close_fd fd ∷ []

-- The branch of `handle_post_time_jump` for the activation of ROS time.
unfoldable pub activate_ros_time : ℤ → TimerInfo → TimerInfo
unfolding ◌+ℤ◌ ◌-ℤ◌
activate_ros_time now t =
    let closed = record t { timer_fd = none } in
    if eq_ℤ now (pos 0)
    then closed
    else if eq_ℤ t.time_credit (pos 0)
    then record closed { time_credit = pos 0 }
    else record closed {
      time_credit = pos 0;
      next_call_time = (now -ℤ t.time_credit) +ℤ pos t.period;
      last_call_time = now -ℤ t.time_credit;
    }

-- The wake-up of a timer that is ready after a jump forward.
abbrev pub wake : TimerInfo → List Action
wake t = elim t.timer [
  | none ↦ []
  | some canceled ↦ elim t.clock_eventfd [
    | none ↦ []
    | some fd ↦ if canceled then [] else write_eventfd fd ∷ []
  ]
]

unfoldable pub handle_post_time_jump : Option ℤ → ClockChange → TimerInfo → TimerInfo × List Action
unfolding activate_ros_time ◌+ℤ◌
handle_post_time_jump none change t = (t, [])
handle_post_time_jump (some now) ros_time_activated t =
    (activate_ros_time now t, close_if_open t.timer_fd)
handle_post_time_jump (some now) ros_time_deactivated t = (t, [])
handle_post_time_jump (some now) other_change t =
    if leb_ℤ t.next_call_time now
    then (t, wake t)
    else if ltb_ℤ now t.last_call_time
    then (record t { next_call_time = now +ℤ pos t.period; last_call_time = now }, [])
    else (t, [])

unfoldable pub ns_to_armed_timespec : ℕ → Timespec
ns_to_armed_timespec ns =
    if ns == 0
    then record { sec = 0; nsec = 1 }
    else record { sec = ns / nanoseconds_per_second; nsec = ns % nanoseconds_per_second }

-- `arm_timer_fd`, where `timerfd_settime` succeeds: first the value, then the interval.
unfoldable pub arm_timer_fd : ℕ → ℕ → Action
unfolding ns_to_armed_timespec
arm_timer_fd fd period = settime fd (ns_to_armed_timespec period) (ns_to_armed_timespec period)

-- `TimerInfo::reset`
unfoldable pub reset : ℤ → TimerInfo → TimerInfo × List Action
unfolding arm_timer_fd ◌+ℤ◌
reset now t = (
  record t { next_call_time = now +ℤ pos t.period },
  elim t.timer_fd [ none ↦ [] | some fd ↦ arm_timer_fd fd t.period ∷ [] ],
)

-- `std::max(next - now, 0)`
unfoldable pub remaining : ℤ → ℤ → ℕ
unfolding ◌-ℤ◌
remaining next now = pos_part (next -ℤ now)

-- `TimerInfo::set_period`
unfoldable pub set_period : ℤ → ℕ → TimerInfo → TimerInfo × List Action
unfolding ns_to_armed_timespec remaining
set_period now period t = (
  record t { period = period },
  elim t.timer_fd [
    | none ↦ []
    | some fd ↦
        settime fd (ns_to_armed_timespec (remaining t.next_call_time now))
          (ns_to_armed_timespec period)
        ∷ []
  ],
)

-- The next call time that `handle_timer_event` computes.
unfoldable pub next_call : ℕ → ℤ → ℤ → ℤ
unfolding ◌+ℤ◌ ◌-ℤ◌
next_call period next now =
    let later = next +ℤ pos period in
    if ltb_ℤ later now
    then (if period == 0
        then now
        else later +ℤ pos ((1 + (pos_part (now -ℤ later) - 1) / period) * period))
    else later

unfoldable pub handle_timer_event : ℤ → TimerInfo → TimerInfo × List Action
unfolding next_call
handle_timer_event now t = elim t.timer [
  | none ↦ (t, [])
  | some true ↦ (t, [])
  | some false ↦ (
    record t { last_call_time = now; next_call_time = next_call t.period t.next_call_time now },
    execute_callback t.timer_id ∷ [],
  )
]

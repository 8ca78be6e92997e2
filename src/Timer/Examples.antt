-- ===== src/Timer/Examples.antt =====
-- The theorems about timers at a timer with a period of 100 ns.
use agnocast.Prelude.{
  ◌+◌, ◌^◌, ◌<◌, ◌≡◌, refl, inr, true, false, none, some, [], ◌∷◌, pos, ◌+ℤ◌, ◌-ℤ◌, ◌≤ℤ◌, arith,
  All,
}
use agnocast.Timer.Defs.{
  TimerInfo, Timespec, timer_event, clock_event, epoll_add, settime, close_fd, execute_callback,
  next_call, handle_timer_event, set_period, handle_pre_time_jump, handle_post_time_jump,
  ros_time_activated,
}
use agnocast.Timer.Registry.{
  max_timer_id, Timers, Clock, System, allocate_timer_id, is_open, register_timer_info,
  handle_timer, handle_clock,
}
use agnocast.Timer.Schedule.{
  Advanced, handle_timer_event-Advanced, FiresAt, Armed, set_period-FiresAt,
}
use agnocast.Timer.Jump.{activate-waits}
use agnocast.Timer.Ids.{
  counter_after, allocate-distinct, allocate-repeats, Registered, register-Registered,
}
use agnocast.Timer.Epoll.{
  Settled, seen_to, timer_additions, clock_additions, prepare_both, prepare_both-Settled, Handled,
  handle_timer-Handled, handle_clock-Handled,
}

abbrev timer : TimerInfo
timer = record {
  timer_id = 3;
  timer_fd = some 7;
  timer_fd_need_update = true;
  clock_eventfd = some 8;
  clock_eventfd_need_update = true;
  timer = some false;
  callback_group = 1;
  last_call_time = pos 500;
  next_call_time = pos 600;
  time_credit = pos 0;
  period = 100;
  need_epoll_update = true;
}

abbrev timers : Timers
timers = record { next_timer_id = 4; infos = (3, timer) ∷ []; actions = [] }

missed_cycles : next_call 100 (pos 600) (pos 955) ≡ pos 1000
unfolding next_call ◌+ℤ◌ ◌-ℤ◌
missed_cycles = refl

handle_timer_event-Advanced_example :
    Advanced 100 (pos 600) (pos 955) (handle_timer_event (pos 955) timer).0.next_call_time
    × ((handle_timer_event (pos 955) timer).0.last_call_time ≡ pos 955)
    × ((handle_timer_event (pos 955) timer).1 ≡ execute_callback 3 ∷ [])
handle_timer_event-Advanced_example = handle_timer_event-Advanced (pos 955) timer refl (omega arith)

set_period-FiresAt_example :
    ((set_period (pos 550) 30 timer).0 ≡ record timer { period = 30 })
    × (v : Timespec) × (i : Timespec) × ((set_period (pos 550) 30 timer).1 ≡ settime 7 v i ∷ [])
    × FiresAt (pos 600) (pos 550) v
    × Armed 30 i
set_period-FiresAt_example = set_period-FiresAt (pos 550) 30 timer 7 refl

-- 10 ns were left; after the jump the timer waits for 90 ns.
waits_for_what_had_elapsed :
    (handle_post_time_jump
      (some (pos 5000))
      ros_time_activated
      (handle_pre_time_jump (some (pos 590)) timer)).0.next_call_time
    ≡ pos 5090
unfolding handle_post_time_jump handle_pre_time_jump ◌+ℤ◌ ◌-ℤ◌
waits_for_what_had_elapsed = refl

activate-waits_example :
    ((handle_post_time_jump
          (some (pos 5000))
          ros_time_activated
          (handle_pre_time_jump (some (pos 590)) timer)).0.next_call_time
        +ℤ (pos 600 -ℤ pos 590)
      ≡ pos 5000 +ℤ pos 100)
    × ((handle_post_time_jump
          (some (pos 5000))
          ros_time_activated
          (handle_pre_time_jump (some (pos 590)) timer)).0.timer_fd
        ≡ none)
    × ((handle_post_time_jump
          (some (pos 5000))
          ros_time_activated
          (handle_pre_time_jump (some (pos 590)) timer)).0.time_credit
        ≡ pos 0)
    × ((handle_post_time_jump
          (some (pos 5000))
          ros_time_activated
          (handle_pre_time_jump (some (pos 590)) timer)).1
        ≡ close_fd 7 ∷ [])
activate-waits_example =
    activate-waits (pos 590) (pos 5000) timer (λ e. absurd (ground arith))
      (λ e. absurd (ground arith)) (λ e. absurd (ground arith))

allocate-distinct_example : (2 < 5) × (5 < max_timer_id)
unfolding counter_after allocate_timer_id
allocate-distinct_example = allocate-distinct 2 5 2 5 (omega arith) (omega arith) refl refl

allocate-repeats_example :
    allocate_timer_id (counter_after (7 + 2 ^ 32) 0) ≡ allocate_timer_id (counter_after 7 0)
allocate-repeats_example = allocate-repeats 7

abbrev ros_clock : Clock
ros_clock = record { is_ros_time = true; ros_time_is_active = false; now = pos 1000 }

abbrev works : System
works = record { eventfd = some 10; timerfd = some 11; settime_succeeds = true }

register-Registered_example :
    Registered 4 3 50 ros_clock works timers
      (register_timer_info 4 (some false) 50 1 ros_clock works timers)
register-Registered_example = register-Registered 4 3 (some false) 50 1 ros_clock works timers

prepare_both-Settled_example :
    ((prepare_both (λ g. true) timers).actions
      ≡ epoll_add 7 timer_event 3 ∷ epoll_add 8 clock_event 3 ∷ [])
    × ((prepare_both (λ g. true) timers).infos ≡ seen_to (λ g. true) timers.infos)
    × All (Settled (λ g. true)) (prepare_both (λ g. true) timers).infos
    × (prepare_both (λ g. true) (prepare_both (λ g. true) timers) ≡ prepare_both (λ g. true) timers)
unfolding timer_additions clock_additions
prepare_both-Settled_example = prepare_both-Settled (λ g. true) timers ((inr refl, inr refl), tt)

handle_timer-Handled_example :
    Handled (λ t. is_open t.timer_fd ≡ true) 3 timers (handle_timer 3 (some 1) timers)
handle_timer-Handled_example = handle_timer-Handled 3 (some 1) timers

handle_clock-Handled_example :
    Handled (λ t. t.next_call_time ≤ℤ pos 650) 3 timers (handle_clock 3 (some 1) (pos 650) timers)
handle_clock-Handled_example = handle_clock-Handled 3 (some 1) (pos 650) timers

-- ===== src/Timer/Jump.antt =====
-- agnocast_timer_info.cpp: the schedule of a timer across jumps of the clock.
use agnocast.Prelude.{
  ℕ, ◌≡◌, ◌≢◌, refl, ◌⊎◌, inl, inr, false, none, some, List, [], ◌∷◌, ℤ, pos, ◌+ℤ◌, ◌-ℤ◌, +ℤ_parts,
  -ℤ_parts, eq_of_parts, eq_ℤ, arith, Bool-cases,
}
use agnocast.Timer.Defs.{
  TimerInfo, Action, write_eventfd, close_if_open, handle_pre_time_jump, handle_post_time_jump,
  activate_ros_time, ros_time_activated,
}

eq_ℤ_of_ne : (a b : ℤ) → a ≢ b → eq_ℤ a b ≡ false
eq_ℤ_of_ne a b n = ground (arith, eq_of_parts a b)

credit_ne : (next now : ℤ) → next ≢ now → eq_ℤ (next -ℤ now) (pos 0) ≡ false
credit_ne next now n = elim (Bool-cases (eq_ℤ (next -ℤ now) (pos 0))) [
  | inl e ↦ let p = -ℤ_parts next now in absurd (n (eq_of_parts next now (ground arith)))
  | inr e ↦ e
]

waits :
    (next now now' : ℤ) (p : ℕ)
    → ((now' -ℤ (next -ℤ now)) +ℤ pos p) +ℤ (next -ℤ now) ≡ now' +ℤ pos p
waits next now now' p = eq_of_parts _ _ (
    omega (
      arith,
      -ℤ_parts next now,
      -ℤ_parts now' (next -ℤ now),
      +ℤ_parts (now' -ℤ (next -ℤ now)) (pos p),
      +ℤ_parts ((now' -ℤ (next -ℤ now)) +ℤ pos p) (next -ℤ now),
      +ℤ_parts now' (pos p),
    ))

-- When ROS time is activated, at `now` before the jump and `now'` after it, neither of them 0 nor the
-- next call due exactly at `now`: the wait that the timer has after the jump and the wait that it had
-- left before the jump add up to one period. The descriptor is closed and the credit is used up.
pub activate-waits :
    (now now' : ℤ) (t : TimerInfo)
    → now ≢ pos 0
    → now' ≢ pos 0
    → t.next_call_time ≢ now
    → ((handle_post_time_jump
            (some now')
            ros_time_activated
            (handle_pre_time_jump (some now) t)).0.next_call_time
          +ℤ (t.next_call_time -ℤ now)
        ≡ now' +ℤ pos t.period)
      × ((handle_post_time_jump
            (some now')
            ros_time_activated
            (handle_pre_time_jump (some now) t)).0.timer_fd
          ≡ none)
      × ((handle_post_time_jump
            (some now')
            ros_time_activated
            (handle_pre_time_jump (some now) t)).0.time_credit
          ≡ pos 0)
      × ((handle_post_time_jump
            (some now')
            ros_time_activated
            (handle_pre_time_jump (some now) t)).1
          ≡ close_if_open t.timer_fd)
unfolding handle_post_time_jump handle_pre_time_jump activate_ros_time
activate-waits now now' t n n' d =
    rw (eq_ℤ_of_ne now (pos 0) n, eq_ℤ_of_ne now' (pos 0) n', credit_ne t.next_call_time now d)
      (waits t.next_call_time now now' t.period, refl, refl, refl)

-- Woken: the clock's descriptor of a timer that lives and is not cancelled is written; of any other
-- timer nothing is.
abbrev pub Woken : TimerInfo → List Action → Type 0
Woken t actions =
    ((fd : ℕ) × (t.timer ≡ some false)
      × (t.clock_eventfd ≡ some fd)
      × (actions ≡ write_eventfd fd ∷ []))
    ⊎ (((t.timer ≢ some false) ⊎ (t.clock_eventfd ≡ none)) × (actions ≡ []))

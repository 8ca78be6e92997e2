-- ===== src/Timer/Schedule.antt =====
-- agnocast_timer_info.cpp: when a timer is called next, and how its descriptor is armed.
use native.Mathlib.Nat.{div-add-mod', lt-div-mul-add}
use agnocast.Prelude.{
  ℕ, ◌+◌, ◌-◌, ◌*◌, ◌/◌, ◌%◌, ◌≤◌, ◌<◌, ◌≡◌, refl, sym, ap, ◌∙◌, ◌⊎◌, inl, inr, false, some, [],
  ◌∷◌, ℤ, pos, pos_part, neg_part, ◌+ℤ◌, ◌-ℤ◌, ◌≤ℤ◌, ◌<ℤ◌, +ℤ_parts, eq_of_parts, ltb_ℤ, arith,
  Bool-cases, ◌==◌,
}
use agnocast.Timer.Defs.{
  TimerInfo, Timespec, settime, execute_callback, ns_to_armed_timespec, remaining, set_period,
  next_call, handle_timer_event, nanoseconds_per_second,
}

-- `u` is the first time of the grid `next + period, next + 2 period, …` that is not before `now`.
pub record Advanced (period : ℕ) (next now u : ℤ) : Type 0 where
  pub skipped : ℕ
  pub grid : u ≡ next +ℤ pos ((1 + skipped) * period)
  pub reached : now ≤ℤ u
  pub first : (skipped ≡ 0) ⊎ (u <ℤ now +ℤ pos period)

one_more : (k p : ℕ) → (1 + k) * p ≡ p + k * p
one_more k p = ground arith

-- The number of periods is rounded up.
round_up : (a p : ℕ) → 0 < p → (a < (1 + a / p) * p) × ((1 + a / p) * p ≤ a + p)
round_up a p h = (
  omega (arith, lt-div-mul-add {a = a} h, one_more (a / p) p),
  omega (arith, div-add-mod' a p, one_more (a / p) p),
)

add_add : (z : ℤ) (a b : ℕ) → (z +ℤ pos a) +ℤ pos b ≡ z +ℤ pos (a + b)
add_add z a b =
    eq_of_parts _ _
      (omega (arith, +ℤ_parts z (pos a), +ℤ_parts (z +ℤ pos a) (pos b), +ℤ_parts z (pos (a + b))))

ahead : (a b : ℤ) → a <ℤ b → pos_part (b -ℤ a) + pos_part a + neg_part b ≡ pos_part b + neg_part a
unfolding ◌-ℤ◌
ahead a b h = ground arith

behind : (a b : ℤ) → a ≤ℤ b → pos_part (a -ℤ b) ≡ 0
unfolding ◌-ℤ◌
behind a b h = ground arith

-- `later` moved by `d`, which is what `now` is ahead of it or more, by less than a period.
moved :
    (p a d : ℕ) (later now : ℤ)
    → later <ℤ now
    → a ≡ pos_part (now -ℤ later) - 1
    → a < d
    → d ≤ a + p
    → (now ≤ℤ later +ℤ pos d) × (later +ℤ pos d <ℤ now +ℤ pos p)
moved p a d later now h e low high =
    let x = ahead later now h in
    let y = +ℤ_parts later (pos d) in let z = +ℤ_parts now (pos p) in (omega arith, omega arith)

next_call-Advanced :
    (period : ℕ) (next now : ℤ) → 0 < period → Advanced period next now (next_call period next now)
unfolding next_call
next_call-Advanced period next now h = elim (Bool-cases (ltb_ℤ (next +ℤ pos period) now)) [
  | inl e ↦
      let a = pos_part (now -ℤ (next +ℤ pos period)) - 1 in
      let nonzero : (period == 0) ≡ false = ground arith in
      let up = round_up a period h in
      let late =
        moved period a ((1 + a / period) * period) (next +ℤ pos period) now (ground arith) refl up.0
          up.1 in
      rw (e, nonzero)
        (record {
          skipped = 1 + a / period;
          grid =
              add_add next period _
              ∙ ap (λ k. next +ℤ pos k) (sym (one_more (1 + a / period) period));
          reached = late.0;
          first = inr late.1;
        })
  | inr e ↦ rw e (record {
    skipped = 0;
    grid = ap (λ k. next +ℤ pos k) (omega arith);
    reached = ground arith;
    first = inl refl;
  })
]

-- At a live timer that is not cancelled, with a positive period, `handle_timer_event` runs the callback
-- once, sets the last call to now, and moves the next call along its grid of periods by at least one:
-- to the first time that is not before now.
pub handle_timer_event-Advanced :
    (now : ℤ) (t : TimerInfo)
    → t.timer ≡ some false
    → 0 < t.period
    → Advanced t.period t.next_call_time now (handle_timer_event now t).0.next_call_time
      × ((handle_timer_event now t).0.last_call_time ≡ now)
      × ((handle_timer_event now t).1 ≡ execute_callback t.timer_id ∷ [])
unfolding handle_timer_event
handle_timer_event-Advanced now t live h =
    rw live (next_call-Advanced t.period t.next_call_time now h, refl, refl)

abbrev pub nanoseconds : Timespec → ℕ
nanoseconds v = v.sec * nanoseconds_per_second + v.nsec

-- A time that the kernel accepts and that does not disarm: `ns`, or 1 for 0.
pub record Armed (ns : ℕ) (v : Timespec) : Type 0 where
  pub proper : v.nsec < nanoseconds_per_second
  pub armed : 0 < nanoseconds v
  pub exact : ((ns ≡ 0) × (nanoseconds v ≡ 1)) ⊎ (nanoseconds v ≡ ns)

pub ns_to_armed_timespec-Armed : (ns : ℕ) → Armed ns (ns_to_armed_timespec ns)
unfolding ns_to_armed_timespec
ns_to_armed_timespec-Armed ns = elim (Bool-cases (ns == 0)) [
  | inl e ↦
      rw e (record { proper = omega arith; armed = omega arith; exact = inl (ground arith, refl) })
  | inr e ↦
      let whole : ns / nanoseconds_per_second * nanoseconds_per_second + ns % nanoseconds_per_second
          ≡ ns =
        div-add-mod' ns nanoseconds_per_second in
      rw e (record { proper = omega arith; armed = ground arith; exact = inr whole })
]

-- The timer is due: at once if `next` is not after now, else when `next` comes.
pub record FiresAt (next now : ℤ) (v : Timespec) : Type 0 where
  pub proper : v.nsec < nanoseconds_per_second
  pub when :
      ((next ≤ℤ now) × (nanoseconds v ≡ 1)) ⊎ ((now <ℤ next) × (now +ℤ pos (nanoseconds v) ≡ next))

remaining-FiresAt : (next now : ℤ) → FiresAt next now (ns_to_armed_timespec (remaining next now))
unfolding remaining
remaining-FiresAt next now =
    let a = ns_to_armed_timespec-Armed (remaining next now) in
    record {
      proper = a.proper;
      when = due (nanoseconds (ns_to_armed_timespec (remaining next now))) a.armed a.exact;
    }
  where
    due :
        (k : ℕ)
        → 0 < k
        → ((pos_part (next -ℤ now) ≡ 0) × (k ≡ 1)) ⊎ (k ≡ pos_part (next -ℤ now))
        → ((next ≤ℤ now) × (k ≡ 1)) ⊎ ((now <ℤ next) × (now +ℤ pos k ≡ next))
    due k h x = elim (Bool-cases (ltb_ℤ now next)) [
      | inl e ↦
          let y = ahead now next (ground arith) in
          let z = +ℤ_parts now (pos k) in inr (ground arith, eq_of_parts _ _ (ground arith))
      | inr e ↦ let y = behind next now (ground arith) in inl (ground arith, ground arith)
    ]

-- `set_period` at an open descriptor keeps the times of the timer and arms the descriptor so that the
-- firing that is already planned stays where it was (at once if it is past), and that later ones are a
-- new period apart; a period of 0 counts as 1 ns, so that the timer is never disarmed.
pub set_period-FiresAt :
    (now : ℤ) (period : ℕ) (t : TimerInfo) (fd : ℕ)
    → t.timer_fd ≡ some fd
    → ((set_period now period t).0 ≡ record t { period = period })
      × (v : Timespec) × (i : Timespec) × ((set_period now period t).1 ≡ settime fd v i ∷ [])
      × FiresAt t.next_call_time now v
      × Armed period i
unfolding set_period
set_period-FiresAt now period t fd e = (
  refl,
  ns_to_armed_timespec (remaining t.next_call_time now),
  ns_to_armed_timespec period,
  rw e refl,
  remaining-FiresAt t.next_call_time now,
  ns_to_armed_timespec-Armed period,
)

-- ===== src/Agent/Sleep.antt =====
-- `interruptible_sleep` of src/mvd_edge/app.py.
use mvd_edge_agent.Prelude.{
  ℕ, zero, suc, ◌+◌, ◌*◌, ◌-◌, ◌≤◌, ◌<◌, ◌≡◌, refl, ◌⊎◌, Bool, true, Option, none, some, leb, ltb,
  if◌then◌else◌, arith,
}
use mathlib.Core.Path.{subst}
use mvd_edge_agent.Host.{Host}

-- `min(a, b)`
abbrev pub smaller : ℕ → ℕ → ℕ
smaller a b = if ltb b a then b else a

module _ (h : Host) (shutdown_requested : h.World → Bool) where
  open h use {World, time, sleep}

  -- The loop; `none` means that the fuel ran out.
  pub sleep_until : ℕ → ℕ → ℕ → World → Option World
  sleep_until zero interval end_at w = none
  sleep_until (suc fuel) interval end_at w =
      let now = (time w).0 in
      let w1 = (time w).1 in
      let rest = sleep_until fuel interval end_at (sleep (smaller interval (end_at - now)) w1) in
      if shutdown_requested w then some w else if leb end_at now then some w1 else rest

  -- One round more than there are ticks.
  unfoldable pub interruptible_sleep : ℕ → ℕ → World → Option World
  unfolding sleep_until
  interruptible_sleep interval duration w =
      let (now, w') = time w in sleep_until (duration + 1) interval (now + duration) w'

  -- What the documentation of `time.sleep` and of a clock that is not set back promises: `now` is
  -- what the clock shows, a look at it does not set it back, and a sleep lasts as long as asked for.
  pub record IsSteady (now : World → ℕ) : Type 0 where
    pub shows : (w : World) → (time w).0 ≡ now w
    pub goes_on : (w : World) → now w ≤ now (time w).1
    pub lasts : (duration : ℕ) (w : World) → now w + duration ≤ now (sleep duration w)

  module _ (now : World → ℕ) (steady : IsSteady now) (interval : ℕ) (positive : 0 < interval) where
    -- How a sleep ends.
    abbrev pub IsOver : ℕ → Option World → Type 0
    IsOver end_at none = ⊥
    IsOver end_at (some w) = (shutdown_requested w ≡ true) ⊎ (end_at ≤ now w)

    sleep_until-IsOver :
        (fuel end_at : ℕ) (w : World)
        → end_at - now w < fuel
        → IsOver end_at (sleep_until fuel interval end_at w)
    unfolding sleep_until
    sleep_until-IsOver zero end_at w enough = absurd (omega arith)
    sleep_until-IsOver (suc fuel) end_at w enough =
        let w1 = (time w).1 in
        let step = smaller interval (end_at - (time w).0) in
        ground (
          arith,
          steady.shows w,
          steady.goes_on w,
          steady.lasts step w1,
          sleep_until-IsOver fuel end_at (sleep step w1),
        )

    interruptible_sleep-IsOver :
        (duration : ℕ) (w : World)
        → IsOver (now w + duration) (interruptible_sleep interval duration w)
    unfolding interruptible_sleep
    interruptible_sleep-IsOver duration w = ground (
      arith,
      steady.shows w,
      steady.goes_on w,
      sleep_until-IsOver (duration + 1) (now w + duration) (time w).1,
    )

    -- What a look at the clock and a sleep take more than they should.
    pub record IsPrompt (slack : ℕ) : Type 0 where
      pub shown_soon : (w : World) → now (time w).1 ≤ now w + slack
      pub woken_soon :
          (duration : ℕ) (w : World) → now (sleep duration w) ≤ now w + duration + slack

    -- Shutdown is requested from a time on that is not over, if at all.
    abbrev pub IsRequestedFrom : Option ℕ → World → Type 0
    IsRequestedFrom none w = Unit
    IsRequestedFrom (some at_time) w =
        (now w ≤ at_time) × ((v : World) → at_time ≤ now v → shutdown_requested v ≡ true)

    -- The latest time for a request at that time, if there is one.
    abbrev pub IsSoonAfter : Option ℕ → ℕ → ℕ → Type 0
    IsSoonAfter none slack t = Unit
    IsSoonAfter (some at_time) slack t = t ≤ at_time + interval + 2 * slack

    -- How a sleep ends, and when.
    abbrev pub IsOverInTime : Option ℕ → ℕ → ℕ → Option World → Type 0
    IsOverInTime from slack end_at none = ⊥
    IsOverInTime from slack end_at (some w) =
        ((shutdown_requested w ≡ true) ⊎ (end_at ≤ now w))
        × (now w ≤ end_at + 3 * slack)
        × IsSoonAfter from slack (now w)

    module _ (slack : ℕ) (prompt : IsPrompt slack) where
      abbrev EndsBy : ℕ → Option World → Type 0
      EndsBy t none = Unit
      EndsBy t (some w) = now w ≤ t

      sleep_until-EndsBy :
          (fuel end_at : ℕ) (w : World)
          → now w ≤ end_at + 2 * slack
          → EndsBy (end_at + 3 * slack) (sleep_until fuel interval end_at w)
      unfolding sleep_until
      sleep_until-EndsBy zero end_at w before = tt
      sleep_until-EndsBy (suc fuel) end_at w before =
          let w1 = (time w).1 in
          let step = smaller interval (end_at - (time w).0) in
          ground (
            arith,
            steady.shows w,
            prompt.shown_soon w,
            prompt.woken_soon step w1,
            sleep_until-EndsBy fuel end_at (sleep step w1),
          )

      sleep_until-requested :
          (at_time : ℕ)
          → ((v : World) → at_time ≤ now v → shutdown_requested v ≡ true)
          → (fuel end_at : ℕ) (w : World) → now w ≤ at_time + interval + 2 * slack
          → EndsBy (at_time + interval + 2 * slack) (sleep_until fuel interval end_at w)
      unfolding sleep_until
      sleep_until-requested at_time wanted zero end_at w before = tt
      sleep_until-requested at_time wanted (suc fuel) end_at w before =
          let w1 = (time w).1 in
          let step = smaller interval (end_at - (time w).0) in
          ground (
            arith,
            wanted w,
            prompt.shown_soon w,
            prompt.woken_soon step w1,
            sleep_until-requested at_time wanted fuel end_at (sleep step w1),
          )

      interruptible_sleep-EndsBy :
          (duration : ℕ) (w : World)
          → EndsBy (now w + duration + 3 * slack) (interruptible_sleep interval duration w)
      unfolding interruptible_sleep
      interruptible_sleep-EndsBy duration w = ground (
        arith,
        steady.shows w,
        prompt.shown_soon w,
        sleep_until-EndsBy (duration + 1) (now w + duration) (time w).1,
      )

      interruptible_sleep-requested :
          (at_time duration : ℕ) (w : World)
          → IsRequestedFrom (some at_time) w
          → EndsBy (at_time + interval + 2 * slack) (interruptible_sleep interval duration w)
      unfolding interruptible_sleep
      interruptible_sleep-requested at_time duration w (later, wanted) =
          sleep_until-requested at_time wanted (duration + 1) ((time w).0 + duration) (time w).1
            (omega (arith, prompt.shown_soon w))

      in_time :
          (from : Option ℕ) (end_at : ℕ) (result : Option World)
          → IsOver end_at result
          → EndsBy (end_at + 3 * slack) result
          → ((at_time : ℕ) → from ≡ some at_time → EndsBy (at_time + interval + 2 * slack) result)
          → IsOverInTime from slack end_at result
      in_time from end_at none over ends soon = over
      in_time none end_at (some w) over ends soon = (over, ends, tt)
      in_time (some at_time) end_at (some w) over ends soon = (over, ends, soon at_time refl)

      -- On a clock that is not set back, with sleeps that last as long as asked for, and where a look
      -- at the clock and a sleep take at most `slack` more, a sleep ends: when shutdown is requested or
      -- the whole duration has passed, at most three times the slack after the duration, and, if
      -- shutdown is requested from some later time on, at most an interval and twice the slack after
      -- that time.
      pub interruptible_sleep-IsOverInTime :
          (from : Option ℕ) (duration : ℕ) (w : World)
          → IsRequestedFrom from w
          → IsOverInTime from slack (now w + duration) (interruptible_sleep interval duration w)
      interruptible_sleep-IsOverInTime none duration w wanted =
          in_time none (now w + duration) (interruptible_sleep interval duration w)
            (interruptible_sleep-IsOver duration w) (interruptible_sleep-EndsBy duration w)
            (λ t e. cc)
      interruptible_sleep-IsOverInTime (some at_time) duration w wanted =
          in_time (some at_time) (now w + duration) (interruptible_sleep interval duration w)
            (interruptible_sleep-IsOver duration w) (interruptible_sleep-EndsBy duration w)
            (λ t e.
              subst
                (λ t. EndsBy (t + interval + 2 * slack) (interruptible_sleep interval duration w))
                (same at_time t e) (interruptible_sleep-requested at_time duration w wanted))
        where
          same : (a b : ℕ) → some a ≡ some b → a ≡ b
          same a b e = ground (arith, e)

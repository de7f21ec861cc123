-- ===== src/Orphans/Tests.antt =====
-- A worker that starts as the leader, changes its mind while a pass runs, and stops.
use selfservice_api.Base.{ℕ, ◌≡◌, refl, List, [], ◌∷◌, none, some, Bool, true, false, pos}
use selfservice_api.Orphans.{
  Leadership, Scheduler, new_scheduler, Trigger, start, tick, is_pointless, trigger, finish_run,
  stop,
}
use selfservice_api.Orphans.Steps.{
  System, apply, starts, ticks, triggers_now, Reach, here, next, initial, IsSound,
}
use selfservice_api.Orphans.Serial.{Reach-IsSound}
use selfservice_api.Orphans.Stopped.{IsOver, stop_final}
use selfservice_api.Orphans.Wakes.{
  Event, triggering, ticking, after_events, last_wish, finish_run-last_wish,
}

abbrev term : Leadership
term = record { is_leader = true; generation = pos 1; context = some 7 }

abbrev wish : Trigger
wish = record { ctx = 0; state = term }

abbrev after_start : System
after_start = apply (initial true) (start (initial true).scheduler 0 term)

fired : after_start.triggers ≡ wish ∷ []
unfolding start new_scheduler
fired = refl

abbrev nothing_done : ℕ → Bool
nothing_done ctx = false

abbrev in_flight : System
in_flight =
    apply (record after_start { triggers = [] })
      (trigger after_start.scheduler nothing_done after_start.next_id wish)

running : in_flight.scheduler.running ≡ true
unfolding start new_scheduler trigger is_pointless
running = refl

to_flight : Reach (initial true) in_flight
unfolding start new_scheduler
to_flight = next (next here (starts 0 term refl)) (triggers_now 0 wish nothing_done refl refl)

Reach-IsSound_example : IsSound in_flight
Reach-IsSound_example = Reach-IsSound true to_flight

abbrev after_stop : System
after_stop = apply in_flight (stop in_flight.scheduler)

-- A tick that comes after Stop.
abbrev late : System
late = apply after_stop (tick after_stop.scheduler 0 term)

stop_final_example : IsOver in_flight.next_id late
stop_final_example = stop_final true to_flight (next here (ticks 0 term refl))

abbrev busy : Scheduler
busy = record (new_scheduler true) { running = true; cancel_run = some 0 }

abbrev other_wish : Trigger
other_wish = record { ctx = 3; state = term }

-- Two requests with a tick between them.
abbrev meanwhile : List Event
meanwhile =
    triggering nothing_done 1 wish ∷ ticking 0 term ∷ triggering nothing_done 1 other_wish ∷ []

finish_run-last_wish_example :
    ((after_events busy meanwhile).running ≡ true)
    × ((finish_run (after_events busy meanwhile)).fired ≡ last_wish true false none meanwhile)
unfolding new_scheduler
finish_run-last_wish_example = finish_run-last_wish busy meanwhile refl refl

the_later_one : last_wish true false none meanwhile ≡ some other_wish
unfolding last_wish
the_later_one = refl

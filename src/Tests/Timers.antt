-- ===== src/Tests/Timers.antt =====
-- Runs of the timer, and instances of its theorems.
use nymph_mqtt.Common.{ℕ, ◌≤◌, ◌≡◌, refl, true, false, [], ◌∷◌}
use nymph_mqtt.ChronoTrigger.{begin, times_out, wakes_up, restart, stop, act, acts}
use nymph_mqtt.Timer.{new_timer, set_handle, get_handle}
use nymph_mqtt.ChronoTrigger.Calls.{calls-acts, acts-stop}

-- A stop while a restart is pending is taken back with it.
stop_taken_back : (acts false begin (restart ∷ stop ∷ wakes_up ∷ times_out ∷ [])).calls ≡ 1
unfolding begin acts act
stop_taken_back = refl

once : (acts true begin (times_out ∷ restart ∷ times_out ∷ [])).calls ≤ 1
once = calls-acts (times_out ∷ restart ∷ times_out ∷ [])

no_more_calls : (acts false (act false begin stop) (wakes_up ∷ times_out ∷ [])).calls ≡ 0
unfolding begin
no_more_calls = acts-stop false begin (wakes_up ∷ times_out ∷ []) refl tt

handle_kept : get_handle {B = ℕ} (set_handle (new_timer (λ a b. a) 0 0 99) 7) ≡ 7
unfolding new_timer set_handle get_handle
handle_kept = refl

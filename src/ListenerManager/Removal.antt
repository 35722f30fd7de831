-- ===== src/ListenerManager/Removal.antt =====
-- What `removeConnection` leaves.
use nymph_mqtt.Common.{ℕ, ◌≡◌, ◌≢◌, refl, ◌∙◌, sym, subst, true, Option, none, some}
use nymph_mqtt.Common.Map.{find, IsMap, erase-IsMap, find-erase, find-erase_ne, some_injective}
use nymph_mqtt.ListenerManager.{
  NmqttClientListenerManager, stop_listener, remove_found, remove_connection,
}
use nymph_mqtt.ListenerManager.Stopping.{IsStopped, stop_listener-IsStopped, stop_listener_keeps}

-- The map without the handle, what was stopped still stopped, and the listener of the handle stopped.
abbrev pub Removed : ℕ → NmqttClientListenerManager → NmqttClientListenerManager → Type 0
Removed handle m t =
    IsMap t.listeners
    × (find handle t.listeners ≡ none)
    × ((j : ℕ) → handle ≢ j → find j t.listeners ≡ find j m.listeners)
    × ((o : ℕ) → IsStopped m.objects o → IsStopped t.objects o)
    × ((o : ℕ) → find handle m.listeners ≡ some o → IsStopped t.objects o)

remove_found-Removed :
    (q : Option ℕ) (handle : ℕ) (m : NmqttClientListenerManager)
    → IsMap m.listeners
    → find handle m.listeners ≡ q
    → Removed handle m (remove_found q m handle)
remove_found-Removed none handle m is e = (is, e, (λ j d. refl), (λ o s. s), λ o there. cc)
remove_found-Removed (some i) handle m is e = (
  erase-IsMap handle m.listeners is,
  find-erase handle m.listeners is,
  (λ j d. find-erase_ne handle j m.listeners d),
  (λ o s. stop_listener_keeps m.objects i o s),
  λ o there.
      subst (λ k. IsStopped (stop_listener m.objects i) k) (some_injective (sym e ∙ there))
        (stop_listener-IsStopped m.objects i),
)

-- `removeConnection` returns true in any case; then the handle has no listener, every other handle has the
-- one it had, the listener that the handle had is told to stop, and none that was told to stop
-- listens again.
pub remove_connection-Removed :
    (m : NmqttClientListenerManager) (handle : ℕ)
    → IsMap m.listeners
    → ((remove_connection m handle).0 ≡ true) × Removed handle m (remove_connection m handle).1
unfolding remove_connection
remove_connection-Removed m handle is =
    (refl, remove_found-Removed (find handle m.listeners) handle m is refl)

-- ===== src/Client/Lifecycle/Pairs.antt =====
-- Every socket of a client has a semaphore, whatever calls of connect, disconnect and shutdown came before.
use nymph_mqtt.Common.{
  ℕ, ◌≡◌, ◌≢◌, refl, sym, subst, arith, Bool, true, false, [], Option, none, some,
}
use nymph_mqtt.Common.Map.{in_order, find}
use nymph_mqtt.Client.{NmqttClient, new_client}
use nymph_mqtt.Client.World.{
  Services, World, Attempt, Answer, Ended, returned, crashed, blocked, no_semaphore, ◌>>=◌, ended,
  tls, stop_timer,
}
use nymph_mqtt.Client.Lifecycle.{leave, shut_all, connect, disconnect, shutdown}
use nymph_mqtt.ListenerManager.{NmqttClientListenerManager, stop}
use nymph_mqtt.Client.Lifecycle.Maps.{
  IsPaired, SameMaps-IsPaired, Leaves, use_socket-Leaves, stop_timer-Leaves, leave-Leaves,
}

module _ {N : Type 0} (services : Services N) where
  pub connect-Leaves :
      (a : Attempt) (w : World N) → IsPaired w.client → Leaves (connect services a w)
  unfolding connect
  connect-Leaves a w is = use_socket-Leaves services a w (a.open_socket (tls w.client)) is

  pub disconnect-Leaves :
      (b : Bool) (handle : ℕ) (w : World N)
      → IsPaired w.client
      → Leaves (disconnect services b handle w)
  unfolding disconnect
  disconnect-Leaves b handle w is = stop_timer-Leaves services b w.client.ping_thread handle w is

  shutdown_ended :
      (w : World N) (net : N) (k : Ended NmqttClientListenerManager)
      → Leaves (
          k >>= λ t. returned (record {
            value = true;
            handle = none;
            report = none;
            world = record w { client = record w.client { sockets = [] }; manager = t; net = net };
          }))
  unfolding find
  shutdown_ended w net (returned t) = record { once = λ k. omega arith; paired = λ h s there. cc }
  shutdown_ended w net (crashed k) = tt
  shutdown_ended w net blocked = tt

  pub shutdown-Leaves : (w : World N) → Leaves (shutdown services w)
  unfolding shutdown
  shutdown-Leaves w =
      let (m, net) = shut_all services (in_order w.client.sockets) w.manager w.net in
      shutdown_ended w net (ended (stop m))

  -- The calls of a client, as long as they return.
  pub data Runs (w : World N) : World N → Type 0 where
    here : Runs w w
    connects :
        {t : World N} (a : Attempt) (r : Answer N)
        → Runs w t
        → connect services a t ≡ returned r
        → Runs w r.world
    disconnects :
        {t : World N} (thread_ends : Bool) (handle : ℕ) (r : Answer N)
        → Runs w t
        → disconnect services thread_ends handle t ≡ returned r
        → Runs w r.world
    shuts_down :
        {t : World N} (r : Answer N) → Runs w t → shutdown services t ≡ returned r → Runs w r.world

  pub Runs-IsPaired : {w t : World N} → IsPaired w.client → Runs w t → IsPaired t.client
  Runs-IsPaired is here = is
  Runs-IsPaired is (connects {t} a r run e) =
      subst (λ k. Leaves k) e (connect-Leaves a t (Runs-IsPaired is run))
  Runs-IsPaired is (disconnects {t} b handle r run e) =
      subst (λ k. Leaves k) e (disconnect-Leaves b handle t (Runs-IsPaired is run))
  Runs-IsPaired is (shuts_down {t} r run e) = subst (λ k. Leaves k) e (shutdown-Leaves t)

  abbrev NoReport : Ended (Answer N) → Type 0
  NoReport (returned r) = r.report ≢ some no_semaphore
  NoReport (crashed k) = Unit
  NoReport blocked = Unit

  disconnect-NoReport :
      (b : Bool) (o : Option ℕ) (handle : ℕ) (w : World N)
      → IsPaired w.client
      → NoReport (stop_timer b o w.client >>= λ c. returned (leave services handle w c))
  disconnect-NoReport b none handle w is = tt
  disconnect-NoReport false (some h) handle w is = tt
  disconnect-NoReport true (some h) handle w is =
      let c : NmqttClient = record w.client { ping_thread = none } in
      (leave-Leaves services handle w c (SameMaps-IsPaired w.client c (refl, refl) is)).1

  new_client-IsPaired : IsPaired new_client
  unfolding new_client find
  new_client-IsPaired = record { once = λ k. omega arith; paired = λ h s there. cc }

  -- After any calls of connect, disconnect and shutdown of a new client, whatever their outcomes, every
  -- socket in the map has a semaphore, and `disconnect` of any handle never comes to the branch
  -- that reports a missing semaphore.
  pub disconnect-run :
      (w t : World N) (thread_ends : Bool) (handle : ℕ) (r : Answer N)
      → w.client ≡ new_client
      → Runs w t
      → disconnect services thread_ends handle t ≡ returned r
      → IsPaired t.client × (r.report ≢ some no_semaphore)
  unfolding disconnect
  disconnect-run w t b handle r new run done =
      let is : IsPaired t.client =
        Runs-IsPaired (subst (λ c. IsPaired c) (sym new) new_client-IsPaired) run in
      (is, subst (λ k. NoReport k) done (disconnect-NoReport b t.client.ping_thread handle t is))

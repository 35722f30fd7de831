-- ===== src/Client/Starting.antt =====
-- src/cpp/client.cpp: `init`, and the variants of `connect` that make the address.
use nymph_mqtt.Common.{ℕ, Bool, true, List, Option, none, some}
use nymph_mqtt.Logger.{NymphLogger, set_logger}
use nymph_mqtt.Dispatcher
use nymph_mqtt.Dispatcher.{System}
use nymph_mqtt.Client.World.{Ended, World, Answer, Attempt, Services}
use nymph_mqtt.Client.Lifecycle.{connect}

-- The static members that `init` sets.
pub record Runtime (N : Type 0) : Type 0 where
  pub logger : NymphLogger N
  pub dispatcher : System

-- The first call of `init`, which does not use its `timeout`. `threads` is `hardware_concurrency`; `junk` is
-- what the memory of the workers held.
unfoldable pub init_client :
    {N : Type 0} → Runtime N → (ℕ → List ℕ → N → N) → ℕ → ℕ → ℕ → ℕ → Bool × Runtime N
init_client r logger level timeout threads junk = (
  true,
  record { logger = set_logger r.logger logger level; dispatcher = Dispatcher.init junk threads },
)

module _ {N A : Type 0} (services : Services N) (attempt : A → Attempt) where
  -- The constructor of the address throws outside of any `try`: `none` is an exception for the caller.
  abbrev pub connect_to : Option A → World N → Option (Ended (Answer N))
  connect_to none w = none
  connect_to (some sa) w = some (connect services (attempt sa) w)

  unfoldable pub connect_host :
      (List ℕ → ℕ → Option A) → List ℕ → ℕ → World N → Option (Ended (Answer N))
  connect_host address host port w = connect_to (address host port) w

  unfoldable pub connect_url : (List ℕ → Option A) → List ℕ → World N → Option (Ended (Answer N))
  connect_url address url w = connect_to (address url) w

-- ===== src/Timer.antt =====
-- src/cpp/timer.h: a timer of Poco with a number beside it, which no other code uses.
use nymph_mqtt.Common.{ℕ}

-- `base` is the object of `Poco::Timer`; the number is the 32 bits of an int.
pub record NmqttTimer (B : Type 0) : Type 0 where
  pub base : B
  pub handle : ℕ

module _ {B : Type 0} where
  -- The constructor, by that of `Poco::Timer`; it leaves `handle` as the memory was.
  unfoldable pub new_timer : (ℕ → ℕ → B) → ℕ → ℕ → ℕ → NmqttTimer B
  new_timer make start_interval periodic_interval junk = record {
    base = make start_interval periodic_interval;
    handle = junk;
  }

  unfoldable pub set_handle : NmqttTimer B → ℕ → NmqttTimer B
  set_handle t handle = record t { handle = handle }

  unfoldable pub get_handle : NmqttTimer B → ℕ
  get_handle t = t.handle

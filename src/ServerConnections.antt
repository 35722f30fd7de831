-- ===== src/ServerConnections.antt =====
-- src/cpp/server_connections.h and src/cpp/server_connections.cpp: the table of client connections.
pub mod Validity
pub mod Lookup
pub mod Refinement
use nymph_mqtt.Common.{ℕ, suc, ◌+◌, ◌%◌, ◌^◌, Bool, List, [], ◌∷◌, ◌++◌, Option, none, some}
use nymph_mqtt.Common.Map.{find, insert, erase}

-- `H` are the functions that a handler can be, and `none` the empty `std::function`; a socket is its
-- address.
pub record NmqttClientSocket (H : Type 0) : Type 0 where
  pub socket : ℕ
  pub connect_handler : Option H
  pub pingreq_handler : Option H
  pub username : Bool
  pub password : Bool
  pub will_retain : Bool
  pub qos : ℕ
  pub will_flag : Bool
  pub clean_session : Bool

-- The static members: the queue `freeHandles` has its front at the head.
pub record NmqttClientConnections (H : Type 0) : Type 0 where
  pub sockets : List (ℕ × NmqttClientSocket H)
  pub last_handle : ℕ
  pub free_handles : List ℕ
  pub core_cs : NmqttClientSocket H

module _ {H : Type 0} where
  -- The static initialisation.
  unfoldable pub no_connections : NmqttClientSocket H → NmqttClientConnections H
  no_connections core = record { sockets = []; last_handle = 0; free_handles = []; core_cs = core }

  -- A handle from the queue, or a new one, and the table without it. `lastHandle` is a uint64_t.
  unfoldable pub take_handle : List ℕ → NmqttClientConnections H → ℕ × NmqttClientConnections H
  take_handle (h ∷ rest) s = (h, record s { free_handles = rest })
  take_handle [] s =
      (s.last_handle, record s { last_handle = (s.last_handle + 1) % 2 ^ 64; free_handles = [] })

  -- Merge core and provided struct.
  abbrev pub merged : NmqttClientConnections H → NmqttClientSocket H → NmqttClientSocket H
  merged s ns = record s.core_cs { socket = ns.socket }

  unfoldable pub add_socket :
      NmqttClientConnections H → NmqttClientSocket H → NmqttClientConnections H × ℕ
  unfolding take_handle
  add_socket s ns =
      let (handle, s') = take_handle s.free_handles s in
      (record s' { sockets = insert handle (merged s ns) s'.sockets }, handle)

  unfoldable pub get_socket : NmqttClientConnections H → ℕ → Option (NmqttClientSocket H)
  get_socket s handle = find handle s.sockets

  unfoldable pub remove_if :
      Option (NmqttClientSocket H) → NmqttClientConnections H → ℕ → NmqttClientConnections H
  remove_if none s handle = s
  remove_if (some it) s handle = record s {
    sockets = erase handle s.sockets;
    free_handles = s.free_handles ++ (handle ∷ []);
  }

  unfoldable pub remove_socket : NmqttClientConnections H → ℕ → NmqttClientConnections H
  unfolding remove_if
  remove_socket s handle = remove_if (find handle s.sockets) s handle

  unfoldable pub set_core_parameters :
      NmqttClientConnections H → NmqttClientSocket H → NmqttClientConnections H
  set_core_parameters s ns = record s { core_cs = ns }

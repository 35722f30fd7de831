-- ===== src/ServerConnections/Validity.antt =====
-- Every handle that was given out is in use once, or free once.
use nymph_mqtt.Common.{
  ℕ, ◌+◌, ◌^◌, ◌<◌, ◌≡◌, refl, ap, ◌∙◌, List, [], ◌∷◌, Option, none, some, arith, ltb,
  if◌then◌else◌,
}
use native.Mathlib.Nat.{mod-eq_of_lt}
use nymph_mqtt.Common.Map.{count, count-append, find, keys, find_absent, insert_absent, count-erase}
use nymph_mqtt.ServerConnections.{
  NmqttClientSocket, NmqttClientConnections, no_connections, take_handle, merged, add_socket,
  remove_if, remove_socket,
}

module _ {H : Type 0} where
  -- The handles below `last_handle` are split between the queue and the table, and there are no others.
  pub record IsValid (s : NmqttClientConnections H) : Type 0 where
    pub split :
        (h : ℕ)
        → count h s.free_handles + count h (keys s.sockets) ≡ (if ltb h s.last_handle then 1 else 0)

  pub no_connections-IsValid : (core : NmqttClientSocket H) → IsValid (no_connections core)
  unfolding no_connections
  no_connections-IsValid core = record { split = λ h. ground arith }

  -- The split for a queue that is given on its own.
  abbrev SplitBy : List ℕ → NmqttClientConnections H → Type 0
  SplitBy f s =
      (h : ℕ) → count h f + count h (keys s.sockets) ≡ (if ltb h s.last_handle then 1 else 0)

  next_absent_of :
      (f : List ℕ) (s : NmqttClientConnections H)
      → SplitBy f s
      → find (take_handle f s).0 (take_handle f s).1.sockets ≡ none
  unfolding take_handle
  next_absent_of [] s v = find_absent s.last_handle s.sockets (ground (arith, v s.last_handle))
  next_absent_of (h ∷ f) s v = find_absent h s.sockets (ground (arith, v h))

  -- The handle that is handed out next is in no entry.
  pub next_absent :
      (s : NmqttClientConnections H)
      → IsValid s
      → find (take_handle s.free_handles s).0 (take_handle s.free_handles s).1.sockets ≡ none
  next_absent s v = next_absent_of s.free_handles s v.split

  add_split :
      (f : List ℕ) (s : NmqttClientConnections H) (w : NmqttClientSocket H) (h : ℕ)
      → s.last_handle + 1 < 2 ^ 64
      → SplitBy f s
      → count h (take_handle f s).1.free_handles
          + count h (keys (((take_handle f s).0, w) ∷ (take_handle f s).1.sockets))
        ≡ (if ltb h (take_handle f s).1.last_handle then 1 else 0)
  unfolding take_handle
  add_split [] s w h room v = ground (arith, v h, mod-eq_of_lt room)
  add_split (k ∷ f) s w h room v = omega (arith, v h)

  -- addSocket keeps the table valid while less than 2 ^ 64 - 1 handles were given out.
  pub add_socket-IsValid :
      (s : NmqttClientConnections H) (ns : NmqttClientSocket H)
      → s.last_handle + 1 < 2 ^ 64
      → IsValid s
      → IsValid (add_socket s ns).0
  unfolding add_socket
  add_socket-IsValid s ns room v =
      let entries =
        insert_absent (take_handle s.free_handles s).0 (merged s ns)
          (take_handle s.free_handles s).1.sockets (next_absent s v) in
      record {
        split = λ h.
            ap (λ m. count h (take_handle s.free_handles s).1.free_handles + count h (keys m))
              entries
            ∙ add_split s.free_handles s (merged s ns) h room v.split;
      }

  remove_split :
      (o : Option (NmqttClientSocket H)) (s : NmqttClientConnections H) (handle : ℕ)
      → find handle s.sockets ≡ o
      → IsValid s
      → IsValid (remove_if o s handle)
  unfolding remove_if
  remove_split none s handle e v = v
  remove_split (some it) s handle e v = record {
    split = λ h. omega (
      arith,
      count-append h s.free_handles (handle ∷ []),
      count-erase handle h s.sockets it e,
      v.split h,
    );
  }

  -- removeSocket keeps the table valid, whether the handle is in it or not.
  pub remove_socket-IsValid :
      (s : NmqttClientConnections H) (handle : ℕ) → IsValid s → IsValid (remove_socket s handle)
  unfolding remove_socket
  remove_socket-IsValid s handle v = remove_split (find handle s.sockets) s handle refl v

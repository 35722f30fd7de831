-- ===== src/ServerConnections/Lookup.antt =====
-- What a handle finds after a socket is added or removed.
use nymph_mqtt.Common.{
  subst, ◌<◌, ◌+◌, ◌^◌, ◌==◌, Bool-cases, inl, inr, ==→eq, ==→ne, ℕ, ◌≡◌, ◌≢◌, refl, ap, ◌∙◌, sym,
  List, [], ◌∷◌, Option, none, some, arith,
}
use nymph_mqtt.Common.Map.{find, erase, find_absent, insert_absent, find-erase_ne, count-erase}
use nymph_mqtt.ServerConnections.{
  NmqttClientSocket, NmqttClientConnections, take_handle, merged, add_socket, get_socket, remove_if,
  remove_socket,
}
use nymph_mqtt.ServerConnections.Validity.{IsValid, next_absent, add_socket-IsValid}

find_head : {V : Type 0} (h : ℕ) (v : V) (m : List (ℕ × V)) → find h ((h, v) ∷ m) ≡ some v
unfolding find
find_head h v m = ground arith

find_tail :
    {V : Type 0} (h j : ℕ) (v : V) (m : List (ℕ × V)) → h ≢ j → find j ((h, v) ∷ m) ≡ find j m
unfolding find
find_tail h j v m d = ground arith

module _ {H : Type 0} where
  take_handle_sockets :
      (f : List ℕ) (s : NmqttClientConnections H) → (take_handle f s).1.sockets ≡ s.sockets
  unfolding take_handle
  take_handle_sockets [] s = refl
  take_handle_sockets (h ∷ f) s = refl

  -- The table after an added socket.
  pub sockets-add_socket :
      (s : NmqttClientConnections H) (ns : NmqttClientSocket H)
      → IsValid s
      → (add_socket s ns).0.sockets ≡ ((add_socket s ns).1, merged s ns) ∷ s.sockets
  unfolding add_socket
  sockets-add_socket s ns v =
      insert_absent (take_handle s.free_handles s).0 (merged s ns)
        (take_handle s.free_handles s).1.sockets (next_absent s v)
      ∙ ap (λ m. ((take_handle s.free_handles s).0, merged s ns) ∷ m)
          (take_handle_sockets s.free_handles s)

  handle_absent :
      (s : NmqttClientConnections H) (ns : NmqttClientSocket H)
      → IsValid s
      → find (add_socket s ns).1 s.sockets ≡ none
  unfolding add_socket
  handle_absent s ns v =
      ap (find (take_handle s.free_handles s).0) (sym (take_handle_sockets s.free_handles s))
      ∙ next_absent s v

  -- In a valid table addSocket hands out a handle that no client has; getSocket then finds the merged
  -- core parameters with the new socket under it, and finds what it found before under every other.
  pub get_socket-add_socket :
      (s : NmqttClientConnections H) (ns : NmqttClientSocket H)
      → IsValid s
      → (get_socket s (add_socket s ns).1 ≡ none)
        × (get_socket (add_socket s ns).0 (add_socket s ns).1 ≡ some (merged s ns))
        × ((j : ℕ) → (add_socket s ns).1 ≢ j → get_socket (add_socket s ns).0 j ≡ get_socket s j)
  unfolding get_socket
  get_socket-add_socket s ns v = (
    handle_absent s ns v,
    ap (find (add_socket s ns).1) (sockets-add_socket s ns v)
        ∙ find_head (add_socket s ns).1 (merged s ns) s.sockets,
    λ j d.
        ap (find j) (sockets-add_socket s ns v)
        ∙ find_tail (add_socket s ns).1 j (merged s ns) s.sockets d,
  )

  found_once :
      (s : NmqttClientConnections H) (handle : ℕ) (it : NmqttClientSocket H)
      → IsValid s
      → find handle s.sockets ≡ some it
      → find handle (erase handle s.sockets) ≡ none
  found_once s handle it v e =
      find_absent handle (erase handle s.sockets)
        (ground (arith, count-erase handle handle s.sockets it e, v.split handle))

  removed :
      (o : Option (NmqttClientSocket H)) (s : NmqttClientConnections H) (handle : ℕ)
      → IsValid s
      → find handle s.sockets ≡ o
      → (get_socket (remove_if o s handle) handle ≡ none)
        × ((j : ℕ) → handle ≢ j → get_socket (remove_if o s handle) j ≡ get_socket s j)
  unfolding get_socket remove_if
  removed none s handle v e = (e, λ j d. refl)
  removed (some it) s handle v e =
      (found_once s handle it v e, λ j d. find-erase_ne handle j s.sockets d)

  -- In a valid table removeSocket takes exactly the client under the handle out.
  pub get_socket-remove_socket :
      (s : NmqttClientConnections H) (handle : ℕ)
      → IsValid s
      → (get_socket (remove_socket s handle) handle ≡ none)
        × ((j : ℕ) → handle ≢ j → get_socket (remove_socket s handle) j ≡ get_socket s j)
  unfolding remove_socket
  get_socket-remove_socket s handle v = removed (find handle s.sockets) s handle v refl

  -- The client that was added last, taken out again.
  pub get_socket-remove_add :
      (s : NmqttClientConnections H) (ns : NmqttClientSocket H)
      → IsValid s
      → s.last_handle + 1 < 2 ^ 64
      → (j : ℕ)
      → get_socket (remove_socket (add_socket s ns).0 (add_socket s ns).1) j ≡ get_socket s j
  get_socket-remove_add s ns v room j =
      let (t, handle) = add_socket s ns in
      let (fresh, there, kept) = get_socket-add_socket s ns v in
      let (gone, others) = get_socket-remove_socket t handle (add_socket-IsValid s ns room v) in
      elim (Bool-cases (handle == j)) [
        | inl e ↦
            subst (λ k. get_socket (remove_socket t handle) k ≡ get_socket s k) (==→eq handle j e)
              (gone ∙ sym fresh)
        | inr d ↦ others j (==→ne handle j d) ∙ kept j (==→ne handle j d)
      ]

-- ===== src/ServerConnections/Refinement.antt =====
-- The table against its contract: a partial function from handles to clients.
use nymph_mqtt.Common.{
  ℕ, ◌+◌, ◌^◌, ◌<◌, ◌≤◌, ◌≡◌, refl, subst, List, [], ◌∷◌, length, Option, none, some, if◌then◌else◌,
  ◌==◌, arith, Bool-cases, inl, inr, ==→eq, ==→ne,
}
use mathlib.Core.Path.{fun_ext}
use nymph_mqtt.Common.Map.{find}
use nymph_mqtt.ServerConnections.{
  NmqttClientSocket, NmqttClientConnections, no_connections, take_handle, merged, add_socket,
  get_socket, remove_if, remove_socket, set_core_parameters,
}
use nymph_mqtt.ServerConnections.Validity.{
  IsValid, no_connections-IsValid, add_socket-IsValid, remove_socket-IsValid,
}
use nymph_mqtt.ServerConnections.Lookup.{get_socket-add_socket, get_socket-remove_socket}

-- The calls that change the table.
pub data Operation (H : Type 0) : Type 0 where
  add : NmqttClientSocket H → Operation H
  remove : ℕ → Operation H
  set_core : NmqttClientSocket H → Operation H

-- The table after some calls, and the handles that `addSocket` returned, in their order.
unfoldable pub run :
    {H : Type 0} → List (Operation H) → NmqttClientConnections H → NmqttClientConnections H × List ℕ
run [] s = (s, [])
run (add ns ∷ more) s =
    let (t, handle) = add_socket s ns in let (u, handles) = run more t in (u, handle ∷ handles)
run (remove handle ∷ more) s = run more (remove_socket s handle)
run (set_core ns ∷ more) s = run more (set_core_parameters s ns)

abbrev pub Table : Type 0 → Type 0
Table H = ℕ → Option (NmqttClientSocket H)

-- A function, changed at one handle.
abbrev pub update : {H : Type 0} → Table H → ℕ → Option (NmqttClientSocket H) → Table H
update f handle o j = if handle == j then o else f j

-- The contract: from the core parameters and a table, the calls with these handles lead to a table. An
-- added client gets the core parameters, its own socket, and a handle that no client has.
abbrev pub Replays :
    {H : Type 0} → List (Operation H) → List ℕ → NmqttClientSocket H → Table H → Table H → Type 0
Replays [] [] core f g = g ≡ f
Replays [] (h ∷ hs) core f g = ⊥
Replays (add ns ∷ more) [] core f g = ⊥
Replays (add ns ∷ more) (h ∷ hs) core f g =
    (f h ≡ none) × Replays more hs core (update f h (some (record core { socket = ns.socket }))) g
Replays (remove h ∷ more) hs core f g = Replays more hs core (update f h none) g
Replays (set_core ns ∷ more) hs core f g = Replays more hs ns f g

module _ {H : Type 0} where
  add_update :
      (s : NmqttClientConnections H) (ns : NmqttClientSocket H)
      → IsValid s
      → get_socket (add_socket s ns).0
        ≡ update (get_socket s) (add_socket s ns).1 (some (merged s ns))
  add_update s ns v =
      let (fresh, there, others) = get_socket-add_socket s ns v in
      fun_ext λ j. elim (Bool-cases ((add_socket s ns).1 == j)) [
        | inl e ↦
            rw e (
              subst (λ k. get_socket (add_socket s ns).0 k ≡ some (merged s ns)) (==→eq _ j e)
                there)
        | inr d ↦ rw d (others j (==→ne _ j d))
      ]

  remove_update :
      (s : NmqttClientConnections H) (handle : ℕ)
      → IsValid s
      → get_socket (remove_socket s handle) ≡ update (get_socket s) handle none
  remove_update s handle v =
      let (gone, others) = get_socket-remove_socket s handle v in
      fun_ext λ j. elim (Bool-cases (handle == j)) [
        | inl e ↦
            rw e (subst (λ k. get_socket (remove_socket s handle) k ≡ none) (==→eq handle j e) gone)
        | inr d ↦ rw d (others j (==→ne handle j d))
      ]

  -- What the contract does not name: the counter grows by one at most, the core parameters stay.
  take_handle_keeps :
      (f : List ℕ) (s : NmqttClientConnections H)
      → s.last_handle + 1 < 2 ^ 64
      → ((take_handle f s).1.last_handle ≤ s.last_handle + 1)
        × ((take_handle f s).1.core_cs ≡ s.core_cs)
  unfolding take_handle
  take_handle_keeps [] s h = (omega arith, refl)
  take_handle_keeps (k ∷ f) s h = (omega arith, refl)

  add_socket_keeps :
      (s : NmqttClientConnections H) (ns : NmqttClientSocket H)
      → s.last_handle + 1 < 2 ^ 64
      → ((add_socket s ns).0.last_handle ≤ s.last_handle + 1)
        × ((add_socket s ns).0.core_cs ≡ s.core_cs)
  unfolding add_socket
  add_socket_keeps s ns h = take_handle_keeps s.free_handles s h

  remove_if_keeps :
      (o : Option (NmqttClientSocket H)) (s : NmqttClientConnections H) (handle : ℕ)
      → ((remove_if o s handle).last_handle ≡ s.last_handle)
        × ((remove_if o s handle).core_cs ≡ s.core_cs)
  unfolding remove_if
  remove_if_keeps none s handle = (refl, refl)
  remove_if_keeps (some it) s handle = (refl, refl)

  remove_socket_keeps :
      (s : NmqttClientConnections H) (handle : ℕ)
      → ((remove_socket s handle).last_handle ≡ s.last_handle)
        × ((remove_socket s handle).core_cs ≡ s.core_cs)
  unfolding remove_socket
  remove_socket_keeps s handle = remove_if_keeps (find handle s.sockets) s handle

  set_core_parameters-IsValid :
      (s : NmqttClientConnections H) (ns : NmqttClientSocket H)
      → IsValid s
      → IsValid (set_core_parameters s ns)
  unfolding set_core_parameters
  set_core_parameters-IsValid s ns v = record { split = v.split }

  refines :
      (operations : List (Operation H)) (s : NmqttClientConnections H)
      → IsValid s
      → s.last_handle + length operations < 2 ^ 64
      → IsValid (run operations s).0
        × Replays operations
            (run operations s).1
            s.core_cs
            (get_socket s)
            (get_socket (run operations s).0)
  unfolding run get_socket set_core_parameters
  refines [] s v room = (v, refl)
  refines (add ns ∷ more) s v room =
      let (t, handle) = add_socket s ns in
      let (grows, core) = add_socket_keeps s ns (omega arith) in
      let (valid, rest) = refines more t (add_socket-IsValid s ns (omega arith) v) (omega arith) in
      (
        valid,
        (
          (get_socket-add_socket s ns v).0,
          subst (λ f. Replays more (run more t).1 s.core_cs f (get_socket (run more t).0))
              (add_update s ns v)
              (subst (λ c. Replays more (run more t).1 c (get_socket t) (get_socket (run more t).0))
                core rest),
        ),
      )
  refines (remove handle ∷ more) s v room =
      let t : NmqttClientConnections H = remove_socket s handle in
      let (same, core) = remove_socket_keeps s handle in
      let (valid, rest) = refines more t (remove_socket-IsValid s handle v) (omega arith) in
      (
        valid,
        subst (λ f. Replays more (run more t).1 s.core_cs f (get_socket (run more t).0))
            (remove_update s handle v)
            (subst (λ c. Replays more (run more t).1 c (get_socket t) (get_socket (run more t).0))
              core rest),
      )
  refines (set_core ns ∷ more) s v room =
      refines more (set_core_parameters s ns) (set_core_parameters-IsValid s ns v)
        (unfold set_core_parameters in omega arith)

  -- From the empty table, every sequence of calls of addSocket, removeSocket and setCoreParameters
  -- (less than 2 ^ 64 of them) leaves a valid table, which getSocket reads as the contract has it: each
  -- handle that addSocket returned was free then, and the last call on a handle says what it finds.
  pub run-Replays :
      (core : NmqttClientSocket H) (operations : List (Operation H))
      → length operations < 2 ^ 64
      → let (s, handles) = run operations (no_connections core) in
        IsValid s × Replays operations handles core (λ j. none) (get_socket s)
  unfolding no_connections get_socket find
  run-Replays core operations few =
      refines operations (no_connections core) (no_connections-IsValid core) (omega arith)

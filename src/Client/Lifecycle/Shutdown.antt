-- ===== src/Client/Lifecycle/Shutdown.antt =====
-- The end of a client.
use nymph_mqtt.Common.{
  ℕ, ◌≡◌, ◌==◌, refl, ap, ◌∙◌, sym, true, false, Bool-cases, ==→eq, ==→ne, inl, inr, List, [], ◌∷◌,
  length, none, some, eq→==,
}
use nymph_mqtt.Common.Map.{in_order, find-in_order, find, IsMap, Option-cases}
use nymph_mqtt.Server.{Call}
use nymph_mqtt.ListenerManager.{NmqttClientListenerManager, remove_connection, stop_from, stop}
use nymph_mqtt.ListenerManager.Stopping.{IsStopped}
use nymph_mqtt.ListenerManager.Removal.{remove_connection-Removed}
use nymph_mqtt.Client.World.{Services, World, Answer, returned, ◌>>=◌, ended}
use nymph_mqtt.Client.Lifecycle.{shut_all, shutdown}

find_head : (k v : ℕ) (m : List (ℕ × ℕ)) → find k ((k, v) ∷ m) ≡ some v
unfolding find
find_head k v m = rw (eq→== k k refl) refl

find_tail : (k h v : ℕ) (m : List (ℕ × ℕ)) → (k == h) ≡ false → find h ((k, v) ∷ m) ≡ find h m
unfolding find
find_tail k h v m d = rw d refl

nothing_found : (m : List (ℕ × ℕ)) → ((h : ℕ) → find h m ≡ none) → m ≡ []
nothing_found [] all = refl
nothing_found ((k, v) ∷ m) all = let e = find_head k v m in let f = all k in cc

module _ {N : Type 0} (services : Services N) where
  -- The loop removes the listener of every socket, and no other.
  shut_all_lem :
      (sockets : List (ℕ × ℕ)) (m : NmqttClientListenerManager) (net : N)
      → IsMap m.listeners
      → let t = (shut_all services sockets m net).0 in
        ((h o : ℕ)
          → find h t.listeners ≡ some o
          → (find h m.listeners ≡ some o) × (find h sockets ≡ none))
        × ((o : ℕ) → IsStopped m.objects o → IsStopped t.objects o)
        × ((h s o : ℕ)
            → find h sockets ≡ some s
            → find h m.listeners ≡ some o
            → IsStopped t.objects o)
  unfolding find
  shut_all_lem [] m net is = ((λ h o there. (there, refl)), (λ o s. s), λ h s o there. cc)
  shut_all_lem ((k, socket) ∷ more) m net is =
      let (is', gone, others, keeps, stopped) = (remove_connection-Removed m k is).1 in
      let (left, keeps', stopped') =
        shut_all_lem more (remove_connection m k).1 (services.shut socket net) is' in
      (
        (λ h o there.
            let (l, f) = left h o there in
            elim (Bool-cases (k == h)) [
              | inl e ↦
                  let g : find h (remove_connection m k).1.listeners ≡ none =
                    ap (λ j. find j (remove_connection m k).1.listeners) (sym (==→eq k h e))
                    ∙ gone in
                  cc
              | inr d ↦ (sym (others h (==→ne k h d)) ∙ l, find_tail k h socket more d ∙ f)
            ]),
        (λ o s. keeps' o (keeps o s)),
        λ h s o there listens. elim (Bool-cases (k == h)) [
          | inl e ↦ keeps' o (stopped o (ap (λ j. find j m.listeners) (==→eq k h e) ∙ listens))
          | inr d ↦
              stopped' h s o (sym (find_tail k h socket more d) ∙ there)
                (others h (==→ne k h d) ∙ listens)
        ],
      )

  stop_empty : (m : NmqttClientListenerManager) → m.listeners ≡ [] → stop m ≡ Call.returned m
  unfolding stop stop_from
  stop_empty m e = ap (λ ls. stop_from (length ls) 0 m) e

  -- When every listener belongs to a socket of this client, `shutdown` returns true; then there is no
  -- listener left, each one that there was is told to stop, and the client has no socket.
  pub shutdown-IsStopped :
      (w : World N)
      → IsMap w.manager.listeners
      → ((h o : ℕ)
          → find h w.manager.listeners ≡ some o
          → (s : ℕ) × (find h w.client.sockets ≡ some s))
      → (r : Answer N) × (shutdown services w ≡ returned r)
        × (r.value ≡ true)
        × (r.world.client.sockets ≡ [])
        × (r.world.manager.listeners ≡ [])
        × ((h o : ℕ) → find h w.manager.listeners ≡ some o → IsStopped r.world.manager.objects o)
  unfolding shutdown
  shutdown-IsStopped w is own =
      let sockets : List (ℕ × ℕ) = in_order w.client.sockets in
      let (m, net) = shut_all services sockets w.manager w.net in
      let (left, keeps, stopped) = shut_all_lem sockets w.manager w.net is in
      let own' : (h o : ℕ)
          → find h w.manager.listeners ≡ some o
          → (s : ℕ) × (find h sockets ≡ some s) =
        λ h o e. let (s, f) = own h o e in (s, find-in_order h w.client.sockets ∙ f) in
      let none_left : m.listeners ≡ [] = nothing_found m.listeners (λ h.
        elim (Option-cases (find h m.listeners)) [
          | inl e ↦ e
          | inr (o, e) ↦ let (there, gone) = left h o e in let (s, f) = own' h o there in cc
        ]) in
      let r : Answer N = record {
        value = true;
        handle = none;
        report = none;
        world = record w { client = record w.client { sockets = [] }; manager = m; net = net };
      } in
      (
        r,
        ap (λ k. ended k >>= λ t. returned (record r { world = record r.world { manager = t } }))
            (stop_empty m none_left),
        refl,
        refl,
        none_left,
        λ h o there. let (s, f) = own' h o there in stopped h s o f there,
      )

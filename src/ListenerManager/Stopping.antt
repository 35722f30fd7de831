-- ===== src/ListenerManager/Stopping.antt =====
-- Which listeners are told to stop.
use nymph_mqtt.Common.{
  ℕ, zero, suc, ◌+◌, ◌≤◌, ◌<◌, ◌≡◌, ◌≢◌, refl, ap, ◌∙◌, sym, subst, false, List, length, Option,
  none, some, arith, get_elem?, get_elem?-set_elem, get_elem?-set_elem_ne, ◌⊎◌, inl, inr,
  Bool-cases, ◌==◌, ==→eq, ==→ne,
}
use nymph_mqtt.Common.Map.{find, Option-cases, some_injective}
use nymph_mqtt.Server.{returned, null_pointer}
use nymph_mqtt.ListenerManager.{
  ClientListener, NmqttClientListenerManager, stop_at, stop_listener, stop_from, stop,
}

-- The object under a number, if it is there, does not listen.
abbrev pub IsStopped : List ClientListener → ℕ → Type 0
IsStopped objects i = (l : ClientListener) → get_elem? objects i ≡ some l → l.listen ≡ false

stop_at-IsStopped :
    (o : Option ClientListener) (objects : List ClientListener) (i : ℕ)
    → get_elem? objects i ≡ o
    → IsStopped (stop_at o objects i) i
stop_at-IsStopped none objects i e l there = cc
stop_at-IsStopped (some k) objects i e l there =
    ap (λ x. x.listen)
      (sym (
        some_injective
          (sym (get_elem?-set_elem objects i k (record k { listen = false }) e) ∙ there)))

pub stop_listener-IsStopped :
    (objects : List ClientListener) (i : ℕ) → IsStopped (stop_listener objects i) i
unfolding stop_listener
stop_listener-IsStopped objects i = stop_at-IsStopped (get_elem? objects i) objects i refl

stop_at_ne :
    (o : Option ClientListener) (objects : List ClientListener) (i j : ℕ)
    → i ≢ j
    → get_elem? (stop_at o objects i) j ≡ get_elem? objects j
stop_at_ne none objects i j d = refl
stop_at_ne (some k) objects i j d =
    get_elem?-set_elem_ne objects i j (record k { listen = false }) d

pub stop_listener_ne :
    (objects : List ClientListener) (i j : ℕ)
    → i ≢ j
    → get_elem? (stop_listener objects i) j ≡ get_elem? objects j
unfolding stop_listener
stop_listener_ne objects i j d = stop_at_ne (get_elem? objects i) objects i j d

-- What is stopped stays stopped.
pub stop_listener_keeps :
    (objects : List ClientListener) (i j : ℕ)
    → IsStopped objects j
    → IsStopped (stop_listener objects i) j
stop_listener_keeps objects i j is = elim (Bool-cases (i == j)) [
  | inl e ↦
      subst (λ k. IsStopped (stop_listener objects i) k) (==→eq i j e)
        (stop_listener-IsStopped objects i)
  | inr d ↦ λ l there. is l (sym (stop_listener_ne objects i j (==→ne i j d)) ∙ there)
]

-- From the handle i on, the loop ends with every listener stopped, or at a handle that has none.
abbrev FromHere : ℕ → ℕ → NmqttClientListenerManager → Type 0
FromHere left i m =
    ((t : NmqttClientListenerManager) × (stop_from left i m ≡ returned t)
      × (t.listeners ≡ m.listeners)
      × ((o : ℕ) → IsStopped m.objects o → IsStopped t.objects o)
      × ((j : ℕ)
          → i ≤ j
          → j < i + left
          → (o : ℕ) × (find j m.listeners ≡ some o) × IsStopped t.objects o))
    ⊎ ((j : ℕ) × (i ≤ j)
        × (j < i + left)
        × (find j m.listeners ≡ none)
        × (stop_from left i m ≡ null_pointer))

stop_from_found :
    (left i o : ℕ) (m : NmqttClientListenerManager)
    → find i m.listeners ≡ some o
    → FromHere left (suc i) (record m { objects = stop_listener m.objects o })
    → FromHere (suc left) i m
unfolding stop_from
stop_from_found left i o m e (inl (t, done, same, keeps, all)) = inl (
  t,
  rw (stop_from, e) done,
  same,
  (λ k is. keeps k (stop_listener_keeps m.objects o k is)),
  λ j low high. elim (Bool-cases (i == j)) [
    | inl q ↦ (
      o,
      ap (λ k. find k m.listeners) (sym (==→eq i j q)) ∙ e,
      keeps o (stop_listener-IsStopped m.objects o),
    )
    | inr d ↦ all j (let ne = ==→ne i j d in omega arith) (omega arith)
  ],
)
stop_from_found left i o m e (inr (j, low, high, missing, crash)) =
    inr (j, omega arith, omega arith, missing, rw (stop_from, e) crash)

stop_from_missing :
    (left i : ℕ) (m : NmqttClientListenerManager)
    → find i m.listeners ≡ none
    → FromHere (suc left) i m
unfolding stop_from
stop_from_missing left i m e = inr (i, omega arith, omega arith, e, rw (stop_from, e) refl)

stop_from_cases : (left i : ℕ) (m : NmqttClientListenerManager) → FromHere left i m
unfolding stop_from
stop_from_cases zero i m = inl (m, refl, refl, (λ o is. is), λ j low high. absurd (omega arith))
stop_from_cases (suc left) i m = elim (Option-cases (find i m.listeners)) [
  | inl e ↦ stop_from_missing left i m e
  | inr (o, e) ↦
      stop_from_found left i o m e
        (stop_from_cases left (suc i) (record m { objects = stop_listener m.objects o }))
]

-- `stop` returns if and only if every handle below the number of listeners has a listener, and has then
-- told each of these to stop, and kept the map; otherwise, when handles have gaps, it calls `stop`
-- of a null pointer.
pub stop_cases :
    (m : NmqttClientListenerManager)
    → ((t : NmqttClientListenerManager) × (stop m ≡ returned t)
        × (t.listeners ≡ m.listeners)
        × ((j : ℕ)
            → j < length m.listeners
            → (o : ℕ) × (find j m.listeners ≡ some o) × IsStopped t.objects o))
      ⊎ ((j : ℕ) × (j < length m.listeners) × (find j m.listeners ≡ none) × (stop m ≡ null_pointer))
unfolding stop
stop_cases m = elim (stop_from_cases (length m.listeners) 0 m) [
  | inl (t, done, same, keeps, all) ↦
      inl (t, done, same, λ j high. all j (omega arith) (omega arith))
  | inr (j, low, high, missing, crash) ↦ inr (j, omega arith, missing, crash)
]

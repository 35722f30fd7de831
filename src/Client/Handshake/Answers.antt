-- ===== src/Client/Handshake/Answers.antt =====
-- What the caller of `connect` finds in its object when the wait was woken.
use nymph_mqtt.Common.{
  ℕ, ◌≡◌, ◌≢◌, refl, subst, Bool, true, false, List, [], ◌∷◌, inl, inr, ◌⊎◌, ◌==◌, Bool-cases,
}
use nymph_mqtt.Client.Handshake.{
  NmqttBrokerConnection, Place, before_wait, broker_conn_set, waiting, woken, time_is_up, timed_out,
  Handshake, Line, idle, at_test, at_handle, at_session_present, at_response_code, at_signal,
  signal, write_handle, write_session_present, write_response_code, handler_line,
  set_broker_conn_at, begin_wait_at, time_over_at, clear_broker_conn_at, Action, sets_broker_conn,
  begins_wait, time_over, clears_broker_conn, calls_handler, moves, Threads, State, alive,
  null_pointer_used, set_line, call_line, moved, step, run, start,
}

set_line-all :
    (Q : Line → Type 0) (i : ℕ) (line : Line) (lines : ℕ → Line)
    → Q line
    → ((j : ℕ) → Q (lines j))
    → (j : ℕ) → Q (set_line i line lines j)
set_line-all Q i line lines new old j = elim (Bool-cases (j == i)) [
  | inl e ↦ rw e new
  | inr e ↦ rw e (old j)
]

module _ (Handle : ℕ → Type 0) (Session : Bool → Type 0) (Code : ℕ → Type 0) where
  -- Every call of the handler has a handle, a flag and a code of these kinds.
  abbrev pub AllAnswers : List Action → Type 0
  AllAnswers [] = Unit {0}
  AllAnswers (calls_handler i handle session_present code ∷ more) =
      (Handle handle × Session session_present × Code code) × AllAnswers more
  AllAnswers (a ∷ more) = AllAnswers more

  abbrev pub IsAnswer : NmqttBrokerConnection → Type 0
  IsAnswer conn = Handle conn.handle × Session conn.session_present × Code conn.response_code

  -- What a worker has written.
  abbrev HasWritten : Handshake → Line → Type 0
  HasWritten s idle = Unit {0}
  HasWritten s (at_test h p c) = Handle h × Session p × Code c
  HasWritten s (at_handle h p c) = Handle h × Session p × Code c
  HasWritten s (at_session_present p c) = Handle s.conn.handle × Session p × Code c
  HasWritten s (at_response_code c) = Handle s.conn.handle × Session s.conn.session_present × Code c
  HasWritten s at_signal = (s.place ≡ timed_out) ⊎ IsAnswer s.conn

  -- Nothing that was written is lost.
  record Keeps (s t : Handshake) : Type 0 where
    handle : Handle s.conn.handle → Handle t.conn.handle
    session : Session s.conn.session_present → Session t.conn.session_present
    code : Code s.conn.response_code → Code t.conn.response_code
    over : s.place ≡ timed_out → t.place ≡ timed_out

  Keeps-HasWritten :
      (s t : Handshake) (line : Line) → Keeps s t → HasWritten s line → HasWritten t line
  Keeps-HasWritten s t idle k h = h
  Keeps-HasWritten s t (at_test h p c) k w = w
  Keeps-HasWritten s t (at_handle h p c) k w = w
  Keeps-HasWritten s t (at_session_present p c) k (h, w, v) = (k.handle h, w, v)
  Keeps-HasWritten s t (at_response_code c) k (h, p, w) = (k.handle h, k.session p, w)
  Keeps-HasWritten s t at_signal k (inl e) = inl (k.over e)
  Keeps-HasWritten s t at_signal k (inr (h, p, c)) = inr (k.handle h, k.session p, k.code c)

  -- The two threads' parts of the state.
  abbrev IsSound : Handshake → Type 0
  IsSound s =
      (s.place ≢ before_wait)
      × (s.broker_conn ≡ false → s.place ≡ timed_out)
      × (s.place ≡ woken → IsAnswer s.conn)

  abbrev Good : State → Type 0
  Good null_pointer_used = Unit {0}
  Good (alive t) = IsSound t.shared × ((j : ℕ) → HasWritten t.shared (t.lines j))

  -- A line of `connect`.
  kept_by_connect :
      (s t : Handshake) (lines : ℕ → Line)
      → s.conn ≡ t.conn
      → (s.place ≡ timed_out → t.place ≡ timed_out)
      → ((j : ℕ) → HasWritten s (lines j))
      → (j : ℕ) → HasWritten t (lines j)
  kept_by_connect s t lines e over w j =
      Keeps-HasWritten s t (lines j)
        (record {
          handle = λ h. subst (λ c. Handle c.handle) e h;
          session = λ h. subst (λ c. Session c.session_present) e h;
          code = λ h. subst (λ c. Code c.response_code) e h;
          over = over;
        })
        (w j)

  abbrev at_place : Place → Bool → NmqttBrokerConnection → Handshake
  at_place place b conn = record { place = place; broker_conn = b; conn = conn }

  -- The same object at another place of `connect`, from which the handler's signal has not come.
  goes_on :
      (from to : Place) (b b' : Bool) (conn : NmqttBrokerConnection) (lines : ℕ → Line)
      → IsSound (at_place to b' conn)
      → (from ≡ timed_out → to ≡ timed_out)
      → Good (alive (record { shared = at_place from b conn; lines = lines }))
      → Good (alive (record { shared = at_place to b' conn; lines = lines }))
  goes_on from to b b' conn lines sound over (_, w) =
      (sound, kept_by_connect (at_place from b conn) (at_place to b' conn) lines refl over w)

  sets-Good :
      (place : Place) (b : Bool) (conn : NmqttBrokerConnection) (lines : ℕ → Line)
      → Good (alive (record { shared = at_place place b conn; lines = lines }))
      → Good (
          alive
            (record { shared = set_broker_conn_at place (at_place place b conn); lines = lines }))
  sets-Good before_wait b conn lines g = absurd (g.0.0 refl)
  sets-Good broker_conn_set b conn lines g = g
  sets-Good waiting b conn lines g = g
  sets-Good woken b conn lines g = g
  sets-Good time_is_up b conn lines g = g
  sets-Good timed_out b conn lines g = g

  begins-Good :
      (place : Place) (b : Bool) (conn : NmqttBrokerConnection) (lines : ℕ → Line)
      → Good (alive (record { shared = at_place place b conn; lines = lines }))
      → Good
          (alive (record { shared = begin_wait_at place (at_place place b conn); lines = lines }))
  begins-Good before_wait b conn lines g = g
  begins-Good broker_conn_set b conn lines g =
      goes_on broker_conn_set waiting b b conn lines (λ e. cc, λ e. let q = g.0.1 e in cc, λ e. cc)
        (λ e. cc) g
  begins-Good waiting b conn lines g = g
  begins-Good woken b conn lines g = g
  begins-Good time_is_up b conn lines g = g
  begins-Good timed_out b conn lines g = g

  time_over-Good :
      (place : Place) (b : Bool) (conn : NmqttBrokerConnection) (lines : ℕ → Line)
      → Good (alive (record { shared = at_place place b conn; lines = lines }))
      → Good (alive (record { shared = time_over_at place (at_place place b conn); lines = lines }))
  time_over-Good before_wait b conn lines g = g
  time_over-Good broker_conn_set b conn lines g = g
  time_over-Good waiting b conn lines g =
      goes_on waiting time_is_up b b conn lines (λ e. cc, λ e. let q = g.0.1 e in cc, λ e. cc)
        (λ e. cc) g
  time_over-Good woken b conn lines g = g
  time_over-Good time_is_up b conn lines g = g
  time_over-Good timed_out b conn lines g = g

  clears-Good :
      (place : Place) (b : Bool) (conn : NmqttBrokerConnection) (lines : ℕ → Line)
      → Good (alive (record { shared = at_place place b conn; lines = lines }))
      → Good (
          alive
            (record { shared = clear_broker_conn_at place (at_place place b conn); lines = lines }))
  clears-Good before_wait b conn lines g = g
  clears-Good broker_conn_set b conn lines g = g
  clears-Good waiting b conn lines g = g
  clears-Good woken b conn lines g = g
  clears-Good time_is_up b conn lines g =
      goes_on time_is_up timed_out b false conn lines (λ e. cc, λ e. refl, λ e. cc) (λ e. cc) g
  clears-Good timed_out b conn lines g = g

  -- A worker at a line, with what it leaves.
  rest_of :
      (i : ℕ) (line : Line) (s t : Handshake) (lines : ℕ → Line)
      → IsSound t
      → Keeps s t
      → HasWritten t line
      → ((j : ℕ) → HasWritten s (lines j))
      → Good (alive (record { shared = t; lines = set_line i line lines }))
  rest_of i line s t lines sound keeps own w = (
    sound,
    set_line-all (λ l. HasWritten t l) i line lines own
        (λ j. Keeps-HasWritten s t (lines j) keeps (w j)),
  )

  same : (s : Handshake) → Keeps s s
  same s = record { handle = λ h. h; session = λ h. h; code = λ h. h; over = λ h. h }

  signal_over : (place : Place) → place ≡ timed_out → signal place ≡ timed_out
  signal_over place e = rw e refl

  signal-IsSound :
      (place : Place) (b : Bool) (conn : NmqttBrokerConnection)
      → IsSound (at_place place b conn)
      → (place ≡ timed_out) ⊎ IsAnswer conn
      → IsSound (at_place (signal place) b conn)
  signal-IsSound before_wait b conn (n, c, a) w = (n, c, a)
  signal-IsSound broker_conn_set b conn (n, c, a) w = (n, c, a)
  signal-IsSound waiting b conn (n, c, a) (inl e) = absurd cc
  signal-IsSound waiting b conn (n, c, a) (inr h) = (λ e. cc, λ e. let q = c e in cc, λ e. h)
  signal-IsSound woken b conn (n, c, a) w = (n, c, a)
  signal-IsSound time_is_up b conn (n, c, a) w = (n, c, a)
  signal-IsSound timed_out b conn (n, c, a) w = (n, c, a)

  moves-Good :
      (i : ℕ) (line : Line) (place : Place) (b : Bool) (conn : NmqttBrokerConnection)
      (lines : ℕ → Line)
      → HasWritten (at_place place b conn) line
      → Good (alive (record { shared = at_place place b conn; lines = lines }))
      → Good (
          moved
            (record { shared = at_place place b conn; lines = lines })
            i
            (handler_line line (at_place place b conn)))
  moves-Good i idle place b conn lines own (sound, w) =
      rest_of i idle _ _ lines sound (same (at_place place b conn)) tt w
  moves-Good i (at_test h p c) place true conn lines own (sound, w) =
      rest_of i (at_handle h p c) _ _ lines sound (same (at_place place true conn)) own w
  moves-Good i (at_test h p c) place false conn lines own (sound, w) =
      rest_of i at_signal _ _ lines sound (same (at_place place false conn)) (inl (sound.1 refl)) w
  moves-Good i (at_handle h p c) place false conn lines own g = tt
  moves-Good i (at_handle h p c) place true conn lines (x, y, z) ((n, f, a), w) =
      rest_of i (at_session_present p c) (at_place place true conn)
        (write_handle h (at_place place true conn)) lines (n, f, λ e. (x, (a e).1, (a e).2))
        (record { handle = λ q. x; session = λ q. q; code = λ q. q; over = λ q. q }) (x, y, z) w
  moves-Good i (at_session_present p c) place false conn lines own g = tt
  moves-Good i (at_session_present p c) place true conn lines (x, y, z) ((n, f, a), w) =
      rest_of i (at_response_code c) (at_place place true conn)
        (write_session_present p (at_place place true conn)) lines
        (n, f, λ e. ((a e).0, y, (a e).2))
        (record { handle = λ q. q; session = λ q. y; code = λ q. q; over = λ q. q }) (x, y, z) w
  moves-Good i (at_response_code c) place false conn lines own g = tt
  moves-Good i (at_response_code c) place true conn lines (x, y, z) ((n, f, a), w) =
      rest_of i at_signal (at_place place true conn)
        (write_response_code c (at_place place true conn)) lines (n, f, λ e. ((a e).0, (a e).1, z))
        (record { handle = λ q. q; session = λ q. q; code = λ q. z; over = λ q. q }) (inr (x, y, z))
        w
  moves-Good i at_signal place b conn lines own (sound, w) =
      rest_of i idle (at_place place b conn) (at_place (signal place) b conn) lines
        (signal-IsSound place b conn sound own)
        (record { handle = λ q. q; session = λ q. q; code = λ q. q; over = signal_over place }) tt w

  call_line-HasWritten :
      (s : Handshake) (line : Line) (h : ℕ) (p : Bool) (c : ℕ)
      → Handle h × Session p × Code c
      → HasWritten s line
      → HasWritten s (call_line line h p c)
  call_line-HasWritten s idle h p c answer w = answer
  call_line-HasWritten s (at_test _ _ _) h p c answer w = w
  call_line-HasWritten s (at_handle _ _ _) h p c answer w = w
  call_line-HasWritten s (at_session_present _ _) h p c answer w = w
  call_line-HasWritten s (at_response_code _) h p c answer w = w
  call_line-HasWritten s at_signal h p c answer w = w

  run-Good :
      (actions : List Action) (s : State) → AllAnswers actions → Good s → Good (run s actions)
  unfolding run step
  run-Good [] s all g = g
  run-Good (a ∷ more) null_pointer_used all g = tt
  run-Good (sets_broker_conn ∷ more) (alive t) all g =
      run-Good more _ all (sets-Good t.shared.place t.shared.broker_conn t.shared.conn t.lines g)
  run-Good (begins_wait ∷ more) (alive t) all g =
      run-Good more _ all (begins-Good t.shared.place t.shared.broker_conn t.shared.conn t.lines g)
  run-Good (time_over ∷ more) (alive t) all g =
      run-Good more _ all
        (time_over-Good t.shared.place t.shared.broker_conn t.shared.conn t.lines g)
  run-Good (clears_broker_conn ∷ more) (alive t) all g =
      run-Good more _ all (clears-Good t.shared.place t.shared.broker_conn t.shared.conn t.lines g)
  run-Good (calls_handler i h p c ∷ more) (alive t) (answer, all) (sound, w) = run-Good more _ all (
      rest_of i (call_line (t.lines i) h p c) t.shared t.shared t.lines sound (same t.shared)
        (call_line-HasWritten t.shared (t.lines i) h p c answer (w i)) w)
  run-Good (moves i ∷ more) (alive t) all g =
      run-Good more _ all (
        moves-Good i (t.lines i) t.shared.place t.shared.broker_conn t.shared.conn t.lines (g.1 i)
          g)

  -- In every interleaving of the lines of `connect` with those of `connackHandler`, which any number of workers run,
  -- in which no worker has begun before `brokerConn` is set: when the wait is woken, each member of the
  -- caller's object, then and whatever the workers do afterwards, is that of an answer that came: it
  -- has every property which this member of all the answers has.
  pub run-IsAnswer :
      (actions : List Action) (conn : NmqttBrokerConnection) (t : Threads)
      → AllAnswers actions
      → run (alive (start conn)) (sets_broker_conn ∷ actions) ≡ alive t
      → t.shared.place ≡ woken
      → IsAnswer t.shared.conn
  unfolding run step
  run-IsAnswer actions conn t all done place =
      let set : Threads = record {
        shared = at_place broker_conn_set true conn;
        lines = λ i. idle;
      } in
      let good : Good (run (alive set) actions) =
        run-Good actions (alive set) all ((λ e. cc, λ e. cc, λ e. cc), λ j. tt) in
      (subst (λ s. Good s) done good).0.2 place

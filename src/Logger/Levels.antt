-- ===== src/Logger/Levels.antt =====
-- The levels that a user asks for, and those that the user's function gets.
use nymph_mqtt.Common.{
  ℕ, ◌-◌, ◌≤◌, ◌<◌, ◌≡◌, ◌≢◌, refl, ap, ◌∙◌, Bool, true, false, Bool-cases, ◌⊎◌, inl, inr, List, [],
  ◌∷◌, Option, none, some, arith, leb, if◌then◌else◌, ◌==◌,
}
use nymph_mqtt.Logger.{
  NymphLogLevels, nymph_log_level_fatal, nymph_log_level_critical, nymph_log_level_error,
  nymph_log_level_warning, nymph_log_level_notice, nymph_log_level_info, nymph_log_level_debug,
  nymph_log_level_trace, log_level_value, LogMessage, PocoCall, sets_channel, sets_level, gets,
  Poco, reported_level, msg_str, channel_log, NymphLogger, set_logger, set_logger_function,
  set_log_level, logger_by_name, priority_of, nymph_log,
}

-- Names are compared.
abbrev same_name : List ℕ → List ℕ → Bool
same_name [] [] = true
same_name [] (y ∷ ys) = false
same_name (x ∷ xs) [] = false
same_name (x ∷ xs) (y ∷ ys) = if x == y then same_name xs ys else false

-- A name whose logger is right below the root.
abbrev pub HasNoDot : List ℕ → Type 0
HasNoDot [] = Unit {0}
HasNoDot (x ∷ xs) = (x ≢ b'.') × HasNoDot xs

abbrev pub IsPlain : List ℕ → Type 0
IsPlain name = (name ≢ []) × HasNoDot name

-- The level and the function of a logger.
abbrev pub Settings : Type 0 → Type 0
Settings N = ℕ × Option (ℕ → List ℕ → N → N)

-- Those of the root behind some calls.
abbrev pub root_at : {N : Type 0} → ℕ → List (PocoCall N) → Settings N
root_at first [] = (first, none)
root_at first (sets_channel function ∷ calls) = ((root_at first calls).0, some function)
root_at first (sets_level level ∷ calls) = (level, (root_at first calls).1)
root_at first (gets name ∷ calls) = root_at first calls

-- A logger that is there keeps its settings; one that is made now takes those of the root.
abbrev pub made_or : {N : Type 0} → Option (Settings N) → Bool → Settings N → Option (Settings N)
made_or (some own) asked root = some own
made_or none asked root = if asked then some root else none

-- Those of the logger of a name, if it was made.
abbrev pub made_at : {N : Type 0} → ℕ → List (PocoCall N) → List ℕ → Option (Settings N)
made_at first [] name = none
made_at first (sets_channel function ∷ calls) name = made_at first calls name
made_at first (sets_level level ∷ calls) name = made_at first calls name
made_at first (gets other ∷ calls) name =
    made_or (made_at first calls name) (same_name other name) (root_at first calls)

module _ {N : Type 0} (poco : Poco N) where
  -- What the function of a user gets of an entry.
  abbrev pub Written :
      (ℕ → List ℕ → N → N) → NymphLogLevels → List ℕ → List ℕ → List ℕ → ℕ → N → N → Type 0
  Written function k name text file line net net' =
      (pid : ℕ) × (tid : ℕ) × (net'
        ≡ function (log_level_value k - 1)
            (msg_str poco (record {
              priority = log_level_value k;
              pid = pid;
              tid = tid;
              source = name;
              source_line = line;
              text = text;
              source_file = file;
            }))
            net)

  -- What the documentation of Poco says: the values of the priorities; that a logger inherits level and
  -- channel when it is made, and later changes of the root do not reach it; and that it passes a
  -- message on to its channel, once and with what it was given, exactly if its priority is within its level.
  pub record IsDocumented : Type 0 where
    pub fatal : poco.prio_fatal ≡ 1
    pub critical : poco.prio_critical ≡ 2
    pub error : poco.prio_error ≡ 3
    pub warning : poco.prio_warning ≡ 4
    pub notice : poco.prio_notice ≡ 5
    pub information : poco.prio_information ≡ 6
    pub debug : poco.prio_debug ≡ 7
    pub trace : poco.prio_trace ≡ 8
    pub passed :
        (calls : List (PocoCall N)) (level : ℕ) (function : ℕ → List ℕ → N → N) (name : List ℕ)
        (priority : ℕ) (text file : List ℕ) (line : ℕ) (net : N)
        → IsPlain name
        → made_at poco.first_level calls name ≡ some (level, some function)
        → priority ≤ level
        → (pid : ℕ) × (tid : ℕ) × (poco.log calls name priority text file line net
            ≡ channel_log poco function
                (record {
                  priority = priority;
                  pid = pid;
                  tid = tid;
                  source = name;
                  source_line = line;
                  text = text;
                  source_file = file;
                })
                net)
    pub held_back :
        (calls : List (PocoCall N)) (level : ℕ) (function : ℕ → List ℕ → N → N) (name : List ℕ)
        (priority : ℕ) (text file : List ℕ) (line : ℕ) (net : N)
        → IsPlain name
        → made_at poco.first_level calls name ≡ some (level, some function)
        → level < priority
        → poco.log calls name priority text file line net ≡ net

  priority_value : IsDocumented → (k : NymphLogLevels) → priority_of poco k ≡ log_level_value k
  unfolding priority_of
  priority_value d nymph_log_level_fatal = d.fatal
  priority_value d nymph_log_level_critical = d.critical
  priority_value d nymph_log_level_error = d.error
  priority_value d nymph_log_level_warning = d.warning
  priority_value d nymph_log_level_notice = d.notice
  priority_value d nymph_log_level_info = d.information
  priority_value d nymph_log_level_debug = d.debug
  priority_value d nymph_log_level_trace = d.trace

  reported_value :
      IsDocumented
      → (k : NymphLogLevels) → reported_level poco (log_level_value k) ≡ log_level_value k - 1
  unfolding reported_level
  reported_value d k =
      rw (d.fatal, d.critical, d.error, d.warning, d.notice, d.information, d.debug, d.trace)
        (elim k
          as (λ x.
            (if log_level_value x == 1
              then 0
              else if log_level_value x == 2
              then 1
              else if log_level_value x == 3
              then 2
              else if log_level_value x == 4
              then 3
              else if log_level_value x == 5
              then 4
              else if log_level_value x == 6
              then 5
              else if log_level_value x == 7
              then 6
              else if log_level_value x == 8
              then 7
              else 7)
            ≡ log_level_value x - 1) [
              | nymph_log_level_fatal ↦ refl
              | nymph_log_level_critical ↦ refl
              | nymph_log_level_error ↦ refl
              | nymph_log_level_warning ↦ refl
              | nymph_log_level_notice ↦ refl
              | nymph_log_level_info ↦ refl
              | nymph_log_level_debug ↦ refl
              | nymph_log_level_trace ↦ refl
            ])

  -- An entry within the level of a logger that is there.
  log-Written :
      (d : IsDocumented) (calls : List (PocoCall N)) (level : ℕ) (function : ℕ → List ℕ → N → N)
      (k : NymphLogLevels) (name text file : List ℕ) (line : ℕ) (net : N)
      → IsPlain name
      → made_at poco.first_level calls name ≡ some (level, some function)
      → log_level_value k ≤ level
      → Written function k name text file line net
          (poco.log calls name (log_level_value k) text file line net)
  unfolding channel_log
  log-Written d calls level function k name text file line net plain made within =
      let (pid, tid, given) =
        d.passed calls level function name (log_level_value k) text file line net plain made
          within in
      let msg : LogMessage = record {
        priority = log_level_value k;
        pid = pid;
        tid = tid;
        source = name;
        source_line = line;
        text = text;
        source_file = file;
      } in
      (pid, tid, given ∙ ap (λ n. function n (msg_str poco msg) net) (reported_value d k))

  -- With a Poco that does as documented: when a name (not empty, without a dot) has had an entry, its logger keeps the
  -- function and the maximum that it was made with: whatever function and maximum are set afterwards, an
  -- entry under this name calls the old function, exactly if its level is above neither the old
  -- maximum nor the new one; otherwise it does nothing.
  pub nymph_log-set_logger_again :
      (l : NymphLogger N) (old function : ℕ → List ℕ → N → N) (old_level level : ℕ)
      (k : NymphLogLevels) (name text file : List ℕ) (line : ℕ) (net : N)
      → IsDocumented
      → IsPlain name
      → made_at poco.first_level l.calls name ≡ some (old_level, some old)
      → let r = nymph_log poco k (set_logger l function level) name text file line net in
        ((log_level_value k ≤ level)
          × (log_level_value k ≤ old_level)
          × Written old k name text file line net r.1)
        ⊎ (((level < log_level_value k) ⊎ (old_level < log_level_value k)) × (r.1 ≡ net))
  unfolding nymph_log set_logger set_logger_function set_log_level
  nymph_log-set_logger_again l old function old_level level k name text file line net d plain
        there =
      let calls = (logger_by_name (set_logger l function level) name).calls in
      let made : made_at poco.first_level calls name ≡ some (old_level, some old) = rw there refl in
      elim (Bool-cases (leb (log_level_value k) level)) [
        | inr e ↦ inr (inl (ground arith), rw (priority_value d k, e) refl)
        | inl e ↦ elim (Bool-cases (leb (log_level_value k) old_level)) [
          | inl e' ↦ inl (
            ground arith,
            ground arith,
            rw (priority_value d k, e)
                (log-Written d calls old_level old k name text file line net plain made
                  (ground arith)),
          )
          | inr e' ↦ inr (
            inr (ground arith),
            rw (priority_value d k, e)
                (d.held_back calls old_level old name (log_level_value k) text file line net plain
                  made (ground arith)),
          )
        ]
      ]

-- ===== src/Tests/Loggers.antt =====
-- Instances of the theorems on log entries.
use nymph_mqtt.Common.{
  ℕ, ◌≡◌, ◌≤◌, ◌<◌, ◌⊎◌, refl, List, [], ◌∷◌, Option, none, some, leb, if◌then◌else◌, le→leb, arith,
  false,
}
use nymph_mqtt.Logger.{
  LogMessage, Poco, NymphLogger, nymph_log_level_error, log_level_value, channel_log,
  reported_level, msg_str, set_logger, set_logger_function, set_log_level, logger_by_name,
  nymph_log,
}
use nymph_mqtt.Logger.Levels.{
  Written, IsDocumented, IsPlain, Settings, made_at, nymph_log-set_logger_again,
}

-- What the user's function got: the levels and the texts.
abbrev Lines : Type 0
Lines = List (ℕ × List ℕ)

leb_above : (a b : ℕ) → b < a → leb a b ≡ false
leb_above a b h = ground arith

-- A logger writes what is within its level to its channel, if it has one.
abbrev write :
    (LogMessage → (ℕ → List ℕ → Lines → Lines) → Lines → Lines)
    → Option (Settings Lines)
    → LogMessage
    → Lines
    → Lines
write channel none msg lines = lines
write channel (some (level, none)) msg lines = lines
write channel (some (level, some function)) msg lines =
    if leb msg.priority level then channel msg function lines else lines

abbrev naming : Poco Lines
naming = record {
  prio_fatal = 1;
  prio_critical = 2;
  prio_error = 3;
  prio_warning = 4;
  prio_notice = 5;
  prio_information = 6;
  prio_debug = 7;
  prio_trace = 8;
  format = λ n. n ∷ [];
  first_level = 6;
  log = λ calls name priority text file line lines. lines;
}

abbrev some_poco : Poco Lines
some_poco = record naming {
  log = λ calls name priority text file line lines.
      write (λ msg function. channel_log naming function msg) (made_at 6 calls name)
        (record {
          priority = priority;
          pid = 11;
          tid = 12;
          source = name;
          source_line = line;
          text = text;
          source_file = file;
        })
        lines;
}

some_poco-IsDocumented : IsDocumented some_poco
unfolding channel_log reported_level msg_str
some_poco-IsDocumented = record {
  fatal = refl;
  critical = refl;
  error = refl;
  warning = refl;
  notice = refl;
  information = refl;
  debug = refl;
  trace = refl;
  passed = λ calls level function name priority text file line net plain made within.
      (11, 12, rw (made, le→leb priority level within) refl);
  held_back = λ calls level function name priority text file line net plain made above.
      rw (made, leb_above priority level above) refl;
}

abbrev keep : ℕ → List ℕ → Lines → Lines
keep level text lines = (level, text) ∷ lines

abbrev drop_all : ℕ → List ℕ → Lines → Lines
drop_all level text lines = lines

abbrev silent : NymphLogger Lines
silent = record { priority = 0; calls = [] }

name-IsPlain : IsPlain (b'n' ∷ [])
name-IsPlain = (λ e. cc, (λ e. omega arith, tt))

-- The logger of a name that has had an entry.
abbrev used : NymphLogger Lines
used = logger_by_name (set_logger silent keep 5) (b'n' ∷ [])

old_function_kept :
    let r =
      nymph_log some_poco nymph_log_level_error
        (set_logger used drop_all 8)
        (b'n' ∷ [])
        (b'x' ∷ [])
        []
        3
        [] in
    ((log_level_value nymph_log_level_error ≤ 8)
      × (log_level_value nymph_log_level_error ≤ 5)
      × Written some_poco keep nymph_log_level_error (b'n' ∷ []) (b'x' ∷ []) [] 3 [] r.1)
    ⊎ (((8 < log_level_value nymph_log_level_error) ⊎ (5 < log_level_value nymph_log_level_error))
        × (r.1 ≡ []))
unfolding set_logger set_logger_function set_log_level
old_function_kept =
    nymph_log-set_logger_again some_poco used keep drop_all 5 8 nymph_log_level_error (b'n' ∷ [])
      (b'x' ∷ []) [] 3 [] some_poco-IsDocumented name-IsPlain refl

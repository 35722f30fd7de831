-- ===== src/Logger.antt =====
-- src/cpp/nymph_logger.h and src/cpp/nymph_logger.cpp: which log entries reach the function of the user.
pub mod Levels
use nymph_mqtt.Common.{ℕ, suc, Bool, List, [], ◌∷◌, ◌++◌, if◌then◌else◌, ◌==◌, leb}

pub data NymphLogLevels : Type 0 where
  nymph_log_level_fatal nymph_log_level_critical nymph_log_level_error nymph_log_level_warning :
      NymphLogLevels
  nymph_log_level_notice nymph_log_level_info nymph_log_level_debug nymph_log_level_trace :
      NymphLogLevels

abbrev pub log_level_value : NymphLogLevels → ℕ
log_level_value nymph_log_level_fatal = 1
log_level_value nymph_log_level_critical = 2
log_level_value nymph_log_level_error = 3
log_level_value nymph_log_level_warning = 4
log_level_value nymph_log_level_notice = 5
log_level_value nymph_log_level_info = 6
log_level_value nymph_log_level_debug = 7
log_level_value nymph_log_level_trace = 8

-- A `Poco::Message`, with what the channel reads of it.
pub record LogMessage : Type 0 where
  pub priority : ℕ
  pub pid : ℕ
  pub tid : ℕ
  pub source : List ℕ
  pub source_line : ℕ
  pub text : List ℕ
  pub source_file : List ℕ

-- A call of the loggers of Poco: `setChannel` of the root with a channel for a function of the user, `setLevel`
-- of the root, and `get` of a name, which makes the logger if there is none.
pub data PocoCall (N : Type 0) : Type 0 where
  sets_channel : (ℕ → List ℕ → N → N) → PocoCall N
  sets_level : ℕ → PocoCall N
  gets : List ℕ → PocoCall N

-- The names of `Poco::Message::Priority`; `Poco::NumberFormatter::format`; the level of the root at first; and
-- the methods fatal to trace of the `Poco::Logger` of a name: by all calls so far, the last one
-- first, the name, the priority, the text, the file and the line.
pub record Poco (N : Type 0) : Type 1 where
  pub prio_fatal : ℕ
  pub prio_critical : ℕ
  pub prio_error : ℕ
  pub prio_warning : ℕ
  pub prio_notice : ℕ
  pub prio_information : ℕ
  pub prio_debug : ℕ
  pub prio_trace : ℕ
  pub format : ℕ → List ℕ
  pub first_level : ℕ
  pub log : List (PocoCall N) → List ℕ → ℕ → List ℕ → List ℕ → ℕ → N → N

module _ {N : Type 0} (poco : Poco N) where
  -- The `switch` of `log`; its other result, `logLevel`, is not used.
  unfoldable pub reported_level : ℕ → ℕ
  reported_level priority =
      if priority == poco.prio_fatal
      then 0
      else if priority == poco.prio_critical
      then 1
      else if priority == poco.prio_error
      then 2
      else if priority == poco.prio_warning
      then 3
      else if priority == poco.prio_notice
      then 4
      else if priority == poco.prio_information
      then 5
      else if priority == poco.prio_debug
      then 6
      else if priority == poco.prio_trace
      then 7
      else 7

  unfoldable pub msg_str : LogMessage → List ℕ
  msg_str msg =
      poco.format msg.pid
      ++ (b'.' ∷ poco.format msg.tid)
      ++ ((9 ∷ msg.source) ++ (9 ∷ []))
      ++ (poco.format msg.source_line ++ (9 ∷ []))
      ++ (msg.text ++ (9 ∷ 9 ∷ b'-' ∷ b' ' ∷ []))
      ++ msg.source_file

  -- `NymphLoggerChannel::log`, with the `loggerFunction` of the channel.
  unfoldable pub channel_log : (ℕ → List ℕ → N → N) → LogMessage → N → N
  channel_log logger_function msg net =
      logger_function (reported_level msg.priority) (msg_str msg) net

-- The static `priority`, and the calls that Poco has had, the last one first.
pub record NymphLogger (N : Type 0) : Type 0 where
  pub priority : ℕ
  pub calls : List (PocoCall N)

unfoldable pub set_logger_function :
    {N : Type 0} → NymphLogger N → (ℕ → List ℕ → N → N) → NymphLogger N
set_logger_function l function = record l { calls = sets_channel function ∷ l.calls }

unfoldable pub set_log_level : {N : Type 0} → NymphLogger N → ℕ → NymphLogger N
set_log_level l priority = record l { priority = priority; calls = sets_level priority ∷ l.calls }

-- `NymphLogger::logger`.
abbrev pub logger_by_name : {N : Type 0} → NymphLogger N → List ℕ → NymphLogger N
logger_by_name l name = record l { calls = gets name ∷ l.calls }

-- `setLogger` of the client and of the server, with the cast of the level.
unfoldable pub set_logger : {N : Type 0} → NymphLogger N → (ℕ → List ℕ → N → N) → ℕ → NymphLogger N
set_logger l function level = set_log_level (set_logger_function l function) level

module _ {N : Type 0} (poco : Poco N) where
  -- The priority that each macro compares with.
  unfoldable pub priority_of : NymphLogLevels → ℕ
  priority_of nymph_log_level_fatal = poco.prio_fatal
  priority_of nymph_log_level_critical = poco.prio_critical
  priority_of nymph_log_level_error = poco.prio_error
  priority_of nymph_log_level_warning = poco.prio_warning
  priority_of nymph_log_level_notice = poco.prio_notice
  priority_of nymph_log_level_info = poco.prio_information
  priority_of nymph_log_level_debug = poco.prio_debug
  priority_of nymph_log_level_trace = poco.prio_trace

  -- The macros NYMPH_LOG_FATAL to NYMPH_LOG_TRACE, with the name, the text, the file and the line.
  unfoldable pub nymph_log :
      NymphLogLevels → NymphLogger N → List ℕ → List ℕ → List ℕ → ℕ → N → NymphLogger N × N
  nymph_log level l name text file line net =
      if leb (priority_of level) l.priority
      then (
        logger_by_name l name,
        poco.log (logger_by_name l name).calls name (priority_of level) text file line net,
      )
      else (l, net)

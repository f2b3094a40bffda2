-- ===== src/Logs.antt =====
-- common/logger.cpp, common/logger.h, common/log.h and util/logger_factory.h: where a message goes,
-- and the line that is made of it. Texts that the C library formats are arguments.
pub mod Lines
pub mod Sinks
use hoststack.Prelude.{
  ℕ, ◌+◌, ◌-◌, ◌<◌, ◌≡◌, Bool, true, false, Option, none, some, List, [], ◌∷◌, ◌++◌, ℤ, pos, negsuc,
  int_eq, if◌then◌else◌, ltb, length, take, get_elem?, not,
}
use hoststack.Prelude.Text.{Text, codes, text_eq}
use hoststack.Strings.Buffer.{Buffer, strcat, strcpy}
use hoststack.Config.{Properties, get, get_int}
use mathlib.Core.Option
use hoststack.Paths.{hoststack_repo}

-- MAXBUF
abbrev pub maxbuf : ℕ
maxbuf = 8192

-- snprintf(buf + strlen(buf), MAXBUF - strlen(buf) - 1, "%s", text): at most one byte less than the
-- size that is given, for the terminator.
unfoldable pub append_bounded : Text → Text → Text
append_bounded buf text = buf ++ take (maxbuf - length buf - 1 - 1) text

-- The line of Logger::dolog, before its end; `stamp` is what strftime has written.
unfoldable pub logger_text : Text → Text → Text → Option Text → Text
unfolding append_bounded
logger_text stamp prefix body none = append_bounded (append_bounded stamp prefix) body
logger_text stamp prefix body (some err) =
    append_bounded (append_bounded (append_bounded stamp prefix) body) (codes ": " ++ err)

-- strcat(buf, "\r\n")
unfoldable pub logger_line : Text → Text → Text → Option Text → Option Buffer
unfolding logger_text strcat
logger_line stamp prefix body err =
    strcat (record { size = maxbuf; bytes = logger_text stamp prefix body err }) (13 ∷ 10 ∷ [])

-- The line of _dolog in log.h.
unfoldable pub log_line : Text → Text → Text → Option Buffer
unfolding append_bounded strcat
log_line stamp prefix body =
    strcat (record { size = maxbuf; bytes = append_bounded (append_bounded stamp prefix) body })
      (10 ∷ [])

-- LoggerLevel
pub data Level : Type 0 where
  all : Level
  debug : Level
  info : Level
  warn : Level
  error : Level
  fatal : Level
  off : Level

abbrev pub rank : Level → ℕ
rank all = 0
rank debug = 1
rank info = 2
rank warn = 3
rank error = 4
rank fatal = 5
rank off = 6

-- LOGGER_LEVEL_STR
abbrev pub logger_level_str : List Text
logger_level_str =
    codes "ALL"
    ∷ codes "DEBUG"
    ∷ codes "INFO"
    ∷ codes "WARN"
    ∷ codes "ERROR"
    ∷ codes "FATAL"
    ∷ codes "OFF"
    ∷ []

-- `none` is a read outside the array.
unfoldable pub strlevel : ℤ → Option Text
strlevel (pos n) = get_elem? logger_level_str n
strlevel (negsuc n) = none

abbrev pub int_lt : ℤ → ℤ → Bool
int_lt (pos a) (pos b) = ltb a b
int_lt (pos a) (negsuc b) = false
int_lt (negsuc a) (pos b) = true
int_lt (negsuc a) (negsuc b) = ltb b a

pub record LoggerConfig : Type 0 where
  pub log_file : Text
  pub level : ℤ
  pub console : Bool

-- A logger's stream, if it has one, is that of the file of this name.
pub record Logger : Type 0 where
  pub config : LoggerConfig
  pub stream : Option Text

-- What the files and the console hold.
pub record Journal : Type 0 where
  pub file : Text → Text
  pub stdout : Text

pub data Logged : Type 0 where
  logged : Journal → Logged
  aborted : Journal → Logged
  undefined : Logged

-- The clock as text: the time, and the microseconds.
pub record Clock : Type 0 where
  pub stamp : Text
  pub micros : Text

abbrev pub is_empty : Text → Bool
is_empty [] = true
is_empty (c ∷ s) = false

module _ (fopen : Text → Bool) where
  -- Logger::init; `none` is the exit where the file cannot be opened.
  unfoldable pub init : LoggerConfig → Option Logger
  init config =
      if is_empty config.log_file
      then some (record { config = config; stream = none })
      else (if fopen config.log_file
          then some (record { config = config; stream = some config.log_file })
          else none)

  -- Logger(int)
  unfoldable pub console_logger : ℤ → Option Logger
  unfolding init
  console_logger l = init (record { log_file = []; level = l; console = true })

  -- The loggers of LoggerFactory that have a file.
  abbrev pub file_logger : Text → Option Logger
  file_logger path = init (record { log_file = path; level = pos 1; console = true })

  unfoldable pub get_logger : Option Logger
  unfolding console_logger
  get_logger = console_logger (pos 3)

  -- LoggerFactory::getContainerLogger; the outer `none` is a path that does not fit its buffer.
  unfoldable pub get_container_logger : Text → Option (Option Logger)
  unfolding init strcpy
  get_container_logger id =
      Option.map (λ b. file_logger b.bytes)
        (strcpy 1024 (hoststack_repo ++ (codes "/container/" ++ (id ++ codes "/container.log"))))

  unfoldable pub get_run_logger : Option Logger
  unfolding init
  get_run_logger = file_logger (hoststack_repo ++ codes "/run.log")

  unfoldable pub get_daemon_logger : Option Logger
  unfolding init
  get_daemon_logger = file_logger (hoststack_repo ++ codes "/hoststack_daemon.log")

-- Logger::~Logger; `false` is the exit where the file cannot be closed.
unfoldable pub destroy : (Text → Bool) → Logger → Bool
destroy fclose logger = elim logger.stream [ none ↦ true | some path ↦ fclose path ]

-- Logger(std::string): the configuration that a file of properties gives; `none` is an exception.
abbrev pub configured : Option ℤ → Text → Option ℤ → Option LoggerConfig
configured none file c = none
configured (some l) file none = none
configured (some l) file (some c) =
    some (record { log_file = file; level = l; console = not (int_eq c (pos 0)) })

unfoldable pub file_config : Properties → Option LoggerConfig
unfolding get get_int
file_config map =
    configured (get_int map (codes "log_level")) (get map (codes "log_file"))
      (get_int map (codes "console"))

abbrev pub puts_file : Option Text → Text → Journal → Journal
puts_file none line j = j
puts_file (some path) line j = record j {
  file = λ p. if text_eq p path then j.file p ++ line else j.file p;
}

abbrev pub puts_console : Bool → Text → Journal → Journal
puts_console b line j = if b then record j { stdout = j.stdout ++ line } else j

abbrev pub put_line : Logger → Option Buffer → Journal → Logged
put_line logger none j = undefined
put_line logger (some line) j =
    logged (puts_console logger.config.console line.bytes (puts_file logger.stream line.bytes j))

-- The text between the time and the message: ",%ld [%s] "
abbrev pub prefix_of : Clock → Text → Text
prefix_of clock level = codes "," ++ (clock.micros ++ (codes " [" ++ (level ++ codes "] ")))

module _ (strerror : ℤ → Text) (clock : Clock) where
  abbrev pub error_text : ℤ → Option Text
  error_text err = if int_eq err (pos 0) then none else some (strerror err)

  abbrev pub leveled : Logger → Option Text → Text → ℤ → Journal → Logged
  leveled logger none body err j = undefined
  leveled logger (some level) body err j =
      put_line logger (logger_line clock.stamp (prefix_of clock level) body (error_text err)) j

  unfoldable pub dolog : Logger → Text → ℤ → ℤ → Journal → Logged
  unfolding logger_line strlevel
  dolog logger body level err j = leveled logger (strlevel level) body err j

  unfoldable pub log : ℤ → Logger → Text → Journal → Logged
  unfolding dolog
  log level logger body j =
      if int_lt level logger.config.level then logged j else dolog logger body level (pos 0) j

  -- debug, info, warn and error, which are one but for the level; those without an error number log
  -- with 0.
  unfoldable pub log_at : Level → Logger → ℤ → Text → Journal → Logged
  unfolding dolog
  log_at l logger err body j =
      if int_lt (pos (rank l)) logger.config.level
      then logged j
      else dolog logger body (pos (rank l)) err j

  abbrev pub abort : Logged → Logged
  abort (logged j) = aborted j
  abort (aborted j) = aborted j
  abort undefined = undefined

  unfoldable pub log_fatal : Logger → ℤ → Text → Journal → Logged
  unfolding dolog
  log_fatal logger err body j =
      if int_lt (pos 5) logger.config.level
      then logged j
      else abort (dolog logger body (pos 5) err j)

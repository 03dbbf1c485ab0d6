-- ===== src/Log.antt =====
-- ptlog/config.go and ptlog/log.go: the log that a program writes. zap and lumberjack are parameters:
-- what is kept here is what the program hands them.
use http_portal.Base.{
  Bool, true, false, Option, none, some, ◌∷◌, ◌++◌, Text, ascii, ◌⊎◌, inl, inr, ◌==◌, text_eq,
  if◌then◌else◌,
}
use http_portal.Core.Errors.{Error}
use http_portal.Server.Http.Number.{ℤ, pos, itoa}
use http_portal.Server.Config.{LogConfig}

-- zapcore.Level: the levels that the program names, and any other.
pub data Level : Type 0 where
  debug_level info_level warn_level error_level panic_level fatal_level : Level
  other_level : ℤ → Level

-- (*LogConfig).Filename; `join` is path.Join.
unfoldable pub filename : (Text → Text → Text) → LogConfig → Text
filename join c = join c.path c.name

-- ParseLevel; `lower` is strings.ToLower.
parse_lower : Text → Level × Bool
parse_lower s =
    if s == ascii "debug"
    then (debug_level, true)
    else if s == ascii "info"
    then (info_level, true)
    else if s == ascii "warn"
    then (warn_level, true)
    else if s == ascii "error"
    then (error_level, true)
    else if s == ascii "panic"
    then (panic_level, true)
    else if s == ascii "fatal"
    then (fatal_level, true)
    else (warn_level, false)

unfoldable pub parse_level : (Text → Text) → Text → Level × Bool
unfolding parse_lower
parse_level lower s = parse_lower (lower s)

-- (*LogConfig).ZapLevel
unfoldable pub zap_level : (Text → Text) → LogConfig → Level
unfolding parse_level
zap_level lower c = (parse_level lower c.level).0

-- cReset, cRed, cGreen, cYellow, cMagenta
abbrev c_reset : ℤ
c_reset = pos 0

abbrev c_red : ℤ
c_red = pos 31

abbrev c_green : ℤ
c_green = pos 32

abbrev c_yellow : ℤ
c_yellow = pos 33

abbrev c_magenta : ℤ
c_magenta = pos 35

-- levelColor
unfoldable pub level_color : Level → ℤ
level_color debug_level = c_magenta
level_color info_level = c_green
level_color warn_level = c_yellow
level_color error_level = c_red
level_color fatal_level = c_red
level_color panic_level = c_red
level_color (other_level n) = c_reset

-- The encoders of a level: `capital` is its CapitalString, `pid` the process.
unfoldable pub level_encoder : (Level → Text) → ℤ → Level → Text
level_encoder capital pid l = 124 ∷ capital l ++ 124 ∷ 9 ∷ itoa pid

unfoldable pub colorize_level_encoder : (Level → Text) → ℤ → Level → Text
unfolding level_color
colorize_level_encoder capital pid l =
    124 ∷ 27 ∷ 91 ∷ itoa (level_color l)
    ++ (109 ∷ capital l ++ (27 ∷ 91 ∷ 48 ∷ 109 ∷ 124 ∷ 9 ∷ itoa pid))

-- The lumberjack.Logger that NewLog makes.
pub record LogFile : Type 0 where
  pub name : Text
  pub max_size : ℤ
  pub max_backups : ℤ
  pub local_time : Bool
  pub compress : Bool

-- ZapLogger: its file, if it has one, its level, and how it writes a level.
pub record ZapLogger : Type 0 where
  pub writer : Option LogFile
  pub atom : Level
  pub encode_level : Level → Text

module _ (join : Text → Text → Text) (lower : Text → Text) (capital : Level → Text) (pid : ℤ) where
  abbrev log_file : LogConfig → LogFile
  log_file conf = record {
    name = filename join conf;
    max_size = conf.max_size;
    max_backups = conf.max_backup;
    local_time = true;
    compress = false;
  }

  -- NewLog; the argument is the error of the first Write, of no bytes, which opens the file.
  unfoldable pub new_log : Option Error → LogConfig → Error ⊎ ZapLogger
  new_log (some e) conf = inl e
  new_log none conf = inr (record {
    writer = some (log_file conf);
    atom = zap_level lower conf;
    encode_level = level_encoder capital pid;
  })

  -- NewConsoleLog
  abbrev pub new_console_log : ZapLogger
  new_console_log = record {
    writer = none;
    atom = debug_level;
    encode_level = colorize_level_encoder capital pid;
  }

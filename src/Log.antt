-- ===== src/Log.antt =====
-- src/utils/log.h and log.cpp: the messages of the program.
pub mod Lines
use ironhide.Base.{ℕ, ◌+◌, List, [], ◌∷◌, ◌++◌, if◌then◌else◌, leb, ltb, ◌==◌}
use ironhide.Base.Text.{Text, codes, to_string}

-- Log::Level, an enumeration of C.
pub data Level : Type 0 where
  trace debug info warning fatal : Level

abbrev pub number : Level → ℕ
number trace = 0
number debug = 1
number info = 2
number warning = 3
number fatal = 4

-- level_lookup
unfoldable pub level_lookup : Level → Text
level_lookup trace = codes "trace"
level_lookup debug = codes "debug"
level_lookup info = codes "info"
level_lookup warning = codes "warning"
level_lookup fatal = codes "fatal"

-- What the clock of the system and localtime give: the milliseconds of the second, and the fields
-- of tm that are read. tm_mon counts from 0, tm_year from 1900.
pub record Clock : Type 0 where
  pub ms : ℕ
  pub tm_sec : ℕ
  pub tm_min : ℕ
  pub tm_hour : ℕ
  pub tm_mday : ℕ
  pub tm_mon : ℕ
  pub tm_year : ℕ

-- A number with zeros in front of it: two digits of put_time, three of setw(3).
abbrev two_digits : ℕ → Text
two_digits n = if ltb n 10 then codes "0" ++ to_string n else to_string n

abbrev three_digits : ℕ → Text
three_digits n = if ltb n 100 then codes "0" ++ two_digits n else to_string n

-- class Log, with what it has written to the two streams.
pub record Log : Type 0 where
  pub log_level : Level
  pub prefix : Text
  pub cout : List Text
  pub cerr : List Text

-- The time of day and the date of a message.
unfoldable pub timestamp : Clock → Text
timestamp now =
    to_string now.tm_mday
    ++ codes "/"
    ++ to_string now.tm_mon
    ++ codes "/"
    ++ to_string (now.tm_year + 1900)
    ++ codes " - "
    ++ two_digits now.tm_hour
    ++ codes ":"
    ++ two_digits now.tm_min
    ++ codes ":"
    ++ two_digits now.tm_sec
    ++ codes "."
    ++ three_digits now.ms

unfoldable pub complete_prefix : Text → Text
complete_prefix [] = []
complete_prefix (c ∷ prefix) = (c ∷ prefix) ++ codes " - "

-- format_log, with the prefix that the class has
unfoldable pub format_log : Text → Clock → Text → Text → Text
unfolding timestamp complete_prefix
format_log prefix now level message =
    complete_prefix prefix
    ++ codes "["
    ++ timestamp now
    ++ codes "] - ["
    ++ level
    ++ codes "] - "
    ++ message

-- log
unfoldable pub log : Level → Text → Clock → Log → Log
unfolding format_log level_lookup
log level to_print now s =
    let line = format_log s.prefix now (level_lookup level) to_print in
    if leb (number s.log_level) (number level)
    then (if number level == number fatal
        then record s { cerr = s.cerr ++ line ∷ [] }
        else record s { cout = s.cout ++ line ∷ [] })
    else s

-- set_log_level
unfoldable pub set_log_level : Level → Log → Log
set_log_level new_log_level s = record s { log_level = new_log_level }

-- set_prefix
unfoldable pub set_prefix : Text → Log → Log
set_prefix new_prefix s = record s { prefix = new_prefix }

-- The state that `inst` starts in.
abbrev pub initial : Log
initial = record { log_level = info; prefix = []; cout = []; cerr = [] }

-- ===== src/Log/Lines.antt =====
-- What a program has written after any calls of the log.
use ironhide.Base.{
  ◌≡◌, ◌∙◌, sym, true, false, List, [], ◌∷◌, ◌++◌, append_assoc, append-nil, leb, ltb, ◌==◌, ◌||◌,
  ◌≤◌, if◌then◌else◌, Bool-cases, inl, inr, arith,
}
use ironhide.Base.Text.{Text}
use ironhide.Log.{
  Level, trace, debug, info, warning, fatal, number, Clock, Log, log, set_log_level, set_prefix,
  format_log, level_lookup,
}

-- A call of a method.
pub data LogCall : Type 0 where
  logs : Level → Text → Clock → LogCall
  sets_level : Level → LogCall
  sets_prefix : Text → LogCall

unfoldable pub run : List LogCall → Log → Log
run [] s = s
run (logs level message now ∷ cs) s = run cs (log level message now s)
run (sets_level level ∷ cs) s = run cs (set_log_level level s)
run (sets_prefix prefix ∷ cs) s = run cs (set_prefix prefix s)

-- The fatal messages, under the prefix that is set when they come, without regard to the level.
abbrev pub fatal_lines : List LogCall → Text → List Text
fatal_lines [] prefix = []
fatal_lines (logs level message now ∷ cs) prefix =
    let rest = fatal_lines cs prefix in
    if number level == 4 then format_log prefix now (level_lookup level) message ∷ rest else rest
fatal_lines (sets_level level ∷ cs) prefix = fatal_lines cs prefix
fatal_lines (sets_prefix prefix' ∷ cs) prefix = fatal_lines cs prefix'

-- The other messages that are of the level set when they come or above it.
abbrev pub other_lines : List LogCall → Text → Level → List Text
other_lines [] prefix least = []
other_lines (logs level message now ∷ cs) prefix least =
    let rest = other_lines cs prefix least in
    if number level == 4 || ltb (number level) (number least)
    then rest
    else format_log prefix now (level_lookup level) message ∷ rest
other_lines (sets_level level ∷ cs) prefix least = other_lines cs prefix level
other_lines (sets_prefix prefix' ∷ cs) prefix least = other_lines cs prefix' least

-- No level is above that of a fatal message.
number_le : (level : Level) → number level ≤ 4
number_le trace = omega arith
number_le debug = omega arith
number_le info = omega arith
number_le warning = omega arith
number_le fatal = omega arith

-- What one message writes.
module _ (level : Level) (message : Text) (now : Clock) (s : Log) where
  abbrev line : Text
  line = format_log s.prefix now (level_lookup level) message

  log_fatal :
      number level == 4 ≡ true → log level message now s ≡ record s { cerr = s.cerr ++ line ∷ [] }
  unfolding log
  log_fatal is_fatal =
      let printed : leb (number s.log_level) (number level) ≡ true =
        ground (arith, number_le s.log_level) in
      rw (printed, is_fatal)

  log_low : ltb (number level) (number s.log_level) ≡ true → log level message now s ≡ s
  unfolding log
  log_low low =
      let silent : leb (number s.log_level) (number level) ≡ false = ground arith in rw silent

  log_high :
      number level == 4 ≡ false
      → ltb (number level) (number s.log_level) ≡ false
      → log level message now s ≡ record s { cout = s.cout ++ line ∷ [] }
  unfolding log
  log_high is_other high =
      let printed : leb (number s.log_level) (number level) ≡ true = ground arith in
      rw (printed, is_other)

-- Whatever is logged and whatever levels and prefixes are set in between, the error stream gets
-- every fatal message and nothing else, and the output gets the others that are of the level set
-- when they come, or above it; each with the prefix set when it comes, and both in the order of the
-- calls.
pub run_lem :
    (cs : List LogCall) (s : Log)
    → ((run cs s).cerr ≡ s.cerr ++ fatal_lines cs s.prefix)
      × ((run cs s).cout ≡ s.cout ++ other_lines cs s.prefix s.log_level)
unfolding run set_log_level set_prefix
run_lem [] s = (sym (append-nil s.cerr), sym (append-nil s.cout))
run_lem (sets_level level ∷ cs) s = run_lem cs (set_log_level level s)
run_lem (sets_prefix prefix ∷ cs) s = run_lem cs (set_prefix prefix s)
run_lem (logs level message now ∷ cs) s =
    let line = line level message now s in
    elim (Bool-cases (number level == 4)) [
      | inl is_fatal ↦
          let (errors, others) = run_lem cs (record s { cerr = s.cerr ++ line ∷ [] }) in
          rw (run, log_fatal level message now s is_fatal, is_fatal)
            (errors ∙ append_assoc s.cerr (line ∷ []) (fatal_lines cs s.prefix), others)
      | inr is_other ↦ elim (Bool-cases (ltb (number level) (number s.log_level))) [
        | inl low ↦ rw (run, log_low level message now s low, is_other, low) (run_lem cs s)
        | inr high ↦
            let (errors, others) = run_lem cs (record s { cout = s.cout ++ line ∷ [] }) in
            rw (run, log_high level message now s is_other high, is_other, high)
              (
                errors,
                others ∙ append_assoc s.cout (line ∷ []) (other_lines cs s.prefix s.log_level),
              )
      ]
    ]

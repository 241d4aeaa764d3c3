-- ===== src/Tests/Starts.antt =====
-- The options of a program, and what it logs.
use ironhide.Base.{true, ◌≡◌, refl, List, [], ◌∷◌, none}
use ironhide.Base.Result.{ok}
use ironhide.Base.Text.{codes, stoi, to_string, decimal}
use ironhide.Endpoint.State.{new_endpoint}
use ironhide.Log.{
  Clock, info, warning, debug, fatal, initial, format_log, timestamp, complete_prefix, level_lookup,
}
use ironhide.Log.Lines.{LogCall, logs, sets_level, sets_prefix, run, run_lem}
use ironhide.Start.{Opt, opt_e, opt_i, main}
use ironhide.Start.Ports.{main_lem, listeners}
use ironhide.Tests.Endpoints.{roulette, net}

-- Two ports inside the chain, of which the second counts.
abbrev opts : List Opt
opts = opt_i (codes "9000") ∷ opt_e ∷ opt_i (codes "9001") ∷ []

main_lem_example :
    main opts none roulette net []
    ≡ ok (new_endpoint roulette [] net [] 8787 9001, listeners true 8787 9001)
unfolding stoi
main_lem_example = main_lem opts none roulette net []

abbrev noon : Clock
noon = record {
  ms = 7;
  tm_sec = 0;
  tm_min = 0;
  tm_hour = 12;
  tm_mday = 31;
  tm_mon = 11;
  tm_year = 118;
}

abbrev calls : List LogCall
calls =
    logs debug (codes "unseen") noon
    ∷ sets_level fatal
    ∷ logs warning (codes "unseen") noon
    ∷ logs fatal (codes "socket") noon
    ∷ sets_level debug
    ∷ sets_prefix (codes "egress")
    ∷ logs info (codes "packet") noon
    ∷ []

run_lem_example :
    ((run calls initial).cerr ≡ format_log [] noon (level_lookup fatal) (codes "socket") ∷ [])
    × ((run calls initial).cout
        ≡ format_log (codes "egress") noon (level_lookup info) (codes "packet") ∷ [])
run_lem_example = run_lem calls initial

-- The last day of a year, with the month that the program prints.
line :
    format_log [] noon (codes "info") (codes "packet")
    ≡ codes "[31/11/2018 - 12:00:00.007] - [info] - packet"
unfolding format_log timestamp complete_prefix to_string decimal
line = refl

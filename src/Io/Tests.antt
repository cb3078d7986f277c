-- ===== src/Io/Tests.antt =====
-- Runs of the input and output.
use ckernel.Prelude.{◌≡◌, some, ◌∷◌, [], arith}
use ckernel.Io.{Io}
use ckernel.Io.Stream.{Formats, of_char, of_int, of_endl, chain, IsShown, chain_lem}
use ckernel.Io.{cyan, light_red, yellow, info, warn, err}
use ckernel.Io.Print.{IsReport, report_lem}
use ckernel.Io.Sample.{one_a, one_a-IsBounded, io}

report_lem_example :
    IsReport one_a 4096 cyan 100 [] io (info one_a 4096 512 100 [] io)
    × IsReport one_a 4096 yellow 100 [] io (warn one_a 4096 512 100 [] io)
    × IsReport one_a 4096 light_red 100 [] io (err one_a 4096 512 100 [] io)
report_lem_example = report_lem one_a 4096 one_a-IsBounded 512 100 [] io (omega arith)

abbrev formats : Formats
formats = record { char_format = 100; int_format = 104; string_format = 108 }

-- cout << 'A' << 42 << endl
chain_lem_example :
    (io' : Io) × (chain one_a 4096 512 formats (of_char b'A' ∷ of_int 42 ∷ of_endl ∷ []) io
      ≡ some io')
    × IsShown one_a 4096 512 formats (of_char b'A' ∷ of_int 42 ∷ of_endl ∷ []) io io'
chain_lem_example =
    chain_lem one_a 4096 512 formats one_a-IsBounded (omega arith)
      (of_char b'A' ∷ of_int 42 ∷ of_endl ∷ []) io

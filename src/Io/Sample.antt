-- ===== src/Io/Sample.antt =====
-- A formatter and a state of the input and output for the runs.
use ckernel.Prelude.{◌+◌, [], arith, if◌then◌else◌, leb}
use ckernel.Prelude.Int.{pos}
use ckernel.Mem.{Memory, store}
use ckernel.Tui.{blank_char, make_col, white, black}
use ckernel.Io.{Io, Formatter}
use ckernel.Io.Print.{IsBounded}

-- A formatter that prints one A, if there is room for it.
abbrev pub one_a : Formatter
one_a buffer maxlen fmt va m = (
  pos 1,
  if leb 2 maxlen
      then store (store m buffer 65) (buffer + 1) 0
      else if leb 1 maxlen
      then store m buffer 0
      else m,
)

pub one_a-IsBounded : IsBounded one_a
one_a-IsBounded = record {
  outside = λ buffer maxlen fmt va m q out. ground (arith, out);
  terminated = λ buffer maxlen fmt va m room. (
    if leb 2 maxlen then 1 else 0,
    ground arith,
    record { nonzero = λ i below. ground (arith, below); terminated = ground arith },
  );
}

abbrev pub empty : Memory
empty a = 0

abbrev pub io : Io
io = record {
  mem = empty;
  screen = record {
    buffer = λ q. blank_char;
    pos = record { col = 0; row = 0 };
    color = make_col white black;
    serial = [];
    ports = [];
  };
}

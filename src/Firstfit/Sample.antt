-- ===== src/Firstfit/Sample.antt =====
-- Small allocators for the tests.
use ckernel.Prelude.{◌≡◌, refl, some, arith}
use ckernel.Prelude.{◌∷◌, replicate}
use ckernel.Firstfit.{Firstfit, find_len, find_len_loop, alloc}
use ckernel.Firstfit.{test, set, set_range}
use ckernel.Firstfit.Count.{count}
use ckernel.Firstfit.Alloc.{IsValid}

-- Four pages from 1 MiB on, the first two in use.
abbrev pub busy : Firstfit
busy = record {
  base = record {
    tag = "test";
    allocator_start_addr = 0x100000;
    allocator_length = 4;
    allocator_free_count = 2;
    allocator_used_count = 2;
  };
  map = 3 ∷ replicate 511 0;
}

-- `busy` with the page from 0x102000 on handed out.
abbrev pub busier : Firstfit
busier = record {
  base = record {
    tag = "test";
    allocator_start_addr = 0x100000;
    allocator_length = 4;
    allocator_free_count = 1;
    allocator_used_count = 3;
  };
  map = 7 ∷ replicate 511 0;
}

pub alloc-busy : alloc busy 1 ≡ some (0x102000, busier)
unfolding alloc find_len find_len_loop test set set_range
alloc-busy = refl

pub busy-IsValid : IsValid busy
unfolding count
busy-IsValid = record {
  bounded = record { whole = refl; fits = omega arith };
  counted = refl;
  balance = refl;
  no_wrap = omega arith;
}

-- Two free pages behind the area of `busy`, and the same with the first one handed out.
abbrev pub upper : Firstfit
upper = record {
  base = record {
    tag = "upper";
    allocator_start_addr = 0x104000;
    allocator_length = 2;
    allocator_free_count = 2;
    allocator_used_count = 0;
  };
  map = replicate 512 0;
}

abbrev pub upper_taken : Firstfit
upper_taken = record {
  base = record {
    tag = "upper";
    allocator_start_addr = 0x104000;
    allocator_length = 2;
    allocator_free_count = 1;
    allocator_used_count = 1;
  };
  map = 1 ∷ replicate 511 0;
}

pub alloc-upper : alloc upper 1 ≡ some (0x104000, upper_taken)
unfolding alloc find_len find_len_loop test set set_range
alloc-upper = refl

pub upper-IsValid : IsValid upper
unfolding count
upper-IsValid = record {
  bounded = record { whole = refl; fits = omega arith };
  counted = refl;
  balance = refl;
  no_wrap = omega arith;
}

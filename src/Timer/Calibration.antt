-- ===== src/Timer/Calibration.antt =====
-- The busy wait on the event timer and the calibration behind it.
use ckernel.Prelude.{
  ℕ, zero, suc, ◌+◌, ◌-◌, ◌*◌, ◌/◌, ◌^◌, ◌≤◌, ◌<◌, ◌≡◌, ◌≢◌, refl, ◌∙◌, ap, arith, bit_and, some,
}
use ckernel.Prelude.{
  if◌then◌else◌, ltb, ◌==◌, ==_iff, ◌⊎◌, true, false, Bool-cases, ltb→lt, ltb→ge, inl, inr,
}
use ckernel.Prelude.Int.{pos, negsuc}
use ckernel.Word.{u32, u64, sub64}
use native.Mathlib.Decide.{ℕ_discrete}
use ckernel.Timer.{Tsc, wait, plat_time_init, plat_get_time_ns}

-- The counter runs for `n` reads: each gives more than the one before, and it does not wrap.
pub record IsRunning (counter : ℕ → ℕ) (n : ℕ) : Type 0 where
  pub rising : (i : ℕ) → i < n → counter i < counter (i + 1)
  pub bounded : counter n < 2 ^ 64

-- `i` is the first read from the one numbered 1 on that lies `ticks` behind the start.
pub record IsFirst (counter : ℕ → ℕ) (ticks i : ℕ) : Type 0 where
  pub later : 0 < i
  pub reached : counter 0 + ticks ≤ counter i
  pub before : (j : ℕ) → 0 < j → j < i → counter j < counter 0 + ticks

climbs : (counter : ℕ → ℕ) (n i : ℕ) → IsRunning counter n → i ≤ n → counter 0 + i ≤ counter i
climbs counter n zero run below = omega arith
climbs counter n (suc i) run below =
    let step = run.rising i (omega arith) in
    let next : counter (i + 1) ≡ counter (suc i) =
      (let at : i + 1 ≡ suc i = omega arith in ap counter at) in
    let rest = climbs counter n i run (omega arith) in omega (arith, step, next, rest)

-- A read `left` before the last one.
stays_below :
    (left : ℕ) (counter : ℕ → ℕ) (n i : ℕ) → IsRunning counter n → i + left ≡ n → counter i < 2 ^ 64
stays_below zero counter n i run e = (let at : i ≡ n = omega arith in rw at run.bounded)
stays_below (suc left) counter n i run e =
    let step = run.rising i (omega arith) in
    let next = stays_below left counter n (i + 1) run (omega arith) in omega (arith, step, next)

wait_next :
    (fuel : ℕ) (counter : ℕ → ℕ) (ticks i : ℕ)
    → sub64 (counter i) (counter 0) < ticks
    → wait (suc fuel) counter i (counter 0) ticks ≡ wait fuel counter (i + 1) (counter 0) ticks
unfolding wait
wait_next fuel counter ticks i more = ground (arith, more)

wait_stop :
    (fuel : ℕ) (counter : ℕ → ℕ) (ticks i : ℕ)
    → ticks ≤ sub64 (counter i) (counter 0)
    → wait (suc fuel) counter i (counter 0) ticks ≡ some i
unfolding wait
wait_stop fuel counter ticks i late = ground (arith, late)

-- On a counter that runs, with more rounds than ticks to wait and one, the wait ends at the first read that is
-- late enough.
wait_lem :
    (fuel : ℕ) (counter : ℕ → ℕ) (ticks i : ℕ)
    → IsRunning counter (ticks + 1)
    → 0 < i
    → i ≤ ticks + 1
    → ((j : ℕ) → 0 < j → j < i → counter j < counter 0 + ticks)
    → ticks + 1 < i + fuel
    → (k : ℕ) × (wait fuel counter i (counter 0) ticks ≡ some k) × IsFirst counter ticks k
unfolding wait
wait_lem zero counter ticks i run later below before enough = absurd (omega arith)
wait_lem (suc fuel) counter ticks i run later below before enough =
    let climbed = climbs counter (ticks + 1) i run below in
    let small = stays_below (ticks + 1 - i) counter (ticks + 1) i run (omega arith) in
    let passed : sub64 (counter i) (counter 0) ≡ counter i - counter 0 = omega arith in
    elim (Bool-cases (ltb (counter i) (counter 0 + ticks))) [
      | inl b ↦
          (let more = ltb→lt (counter i) (counter 0 + ticks) b in
            let (k, ran, first) =
              wait_lem fuel counter ticks (i + 1) run (omega arith) (omega arith)
                (λ j from to. elim (ℕ_discrete j i) [
                  | yes at ↦ rw at more
                  | no ne ↦ before j from (omega arith)
                ])
                (omega arith) in
            (k, wait_next fuel counter ticks i (omega (arith, passed)) ∙ ran, first))
      | inr b ↦
          (let late = ltb→ge (counter i) (counter 0 + ticks) b in
            (
              i,
              wait_stop fuel counter ticks i (omega (arith, passed)),
              record { later = later; reached = late; before = before },
            ))
    ]

-- The ticks of 10 ms of the event timer whose capabilities are `cap`.
abbrev pub hpet_ticks : ℕ → ℕ
hpet_ticks cap = u64 (1000000000000000 / u32 (cap / 2 ^ 32) * 10) / 1000

plat_time_init-wait :
    (fuel d tsc0 tsc1 cap k : ℕ) (counter : ℕ → ℕ) (t : Tsc)
    → u32 (cap / 2 ^ 32) ≢ 0
    → wait fuel counter 1 (counter 0) (hpet_ticks cap) ≡ some k
    → plat_time_init fuel d tsc0 tsc1 cap counter t ≡ (
        if bit_and d 256 == 0
        then some (negsuc 21, t)
        else some (pos 0, record { tsc_freq = u64 (sub64 tsc1 tsc0 * 1000) / 10; tsc_ok = 0 }))
unfolding plat_time_init
plat_time_init-wait fuel d tsc0 tsc1 cap k counter t period ran =
    let nonzero : (u32 (cap / 2 ^ 32) == 0) ≡ false = ground (arith, period) in
    rw (nonzero, ran) refl

-- What a calibration needs: a period that is not 0, an event timer that runs, and more rounds than ticks to
-- wait.
pub record IsReady (fuel cap : ℕ) (counter : ℕ → ℕ) : Type 0 where
  pub period : u32 (cap / 2 ^ 32) ≢ 0
  pub running : IsRunning counter (hpet_ticks cap + 1)
  pub enough : hpet_ticks cap < fuel

-- The state and the busy wait behind a calibration that succeeded.
pub record IsCalibrated (fuel tsc0 tsc1 cap : ℕ) (counter : ℕ → ℕ) (t' : Tsc) : Type 0 where
  pub k : ℕ
  pub first : IsFirst counter (hpet_ticks cap) k
  pub waited : wait fuel counter 1 (counter 0) (hpet_ticks cap) ≡ some k
  pub tsc_freq : t'.tsc_freq ≡ u64 (sub64 tsc1 tsc0 * 1000) / 10
  pub time : (rdtsc : ℕ) → plat_get_time_ns rdtsc t' ≡ rdtsc

-- Without an invariant counter `plat_time_init` answers -22 and stores nothing, whatever the event timer does: it is
-- not read, no period is divided by, and nothing is waited for. With one, for a period that is not 0
-- and an event timer that runs, with more rounds than ticks to wait, the busy wait ends at the first
-- read that is late enough; the frequency is stored and the answer is 0, but `tsc_ok` is 0 too:
-- `plat_get_time_ns` goes on to give the processor's counter instead of nanoseconds.
pub plat_time_init_lem :
    (fuel d tsc0 tsc1 cap : ℕ) (counter : ℕ → ℕ) (t : Tsc)
    → (bit_and d 256 ≢ 0 → IsReady fuel cap counter)
    → ((bit_and d 256 ≡ 0) × (plat_time_init fuel d tsc0 tsc1 cap counter t ≡ some (negsuc 21, t)))
      ⊎ ((bit_and d 256 ≢ 0)
          × (t' : Tsc) × (plat_time_init fuel d tsc0 tsc1 cap counter t ≡ some (pos 0, t'))
          × IsCalibrated fuel tsc0 tsc1 cap counter t')
unfolding plat_time_init
plat_time_init_lem fuel d tsc0 tsc1 cap counter t ready = elim (ℕ_discrete (bit_and d 256) 0) [
  | yes absent ↦
      inl (absent, (let test : (bit_and d 256 == 0) ≡ true = (==_iff _ 0).1 absent in rw test refl))
  | no present ↦
      let r = ready present in
      let (k, ran, first) =
        wait_lem fuel counter (hpet_ticks cap) 1 r.running (omega arith) (omega arith)
          (λ j from to. absurd (omega arith)) (omega (arith, r.enough)) in
      let test : (bit_and d 256 == 0) ≡ false = ground (arith, present) in
      let t' : Tsc = record { tsc_freq = u64 (sub64 tsc1 tsc0 * 1000) / 10; tsc_ok = 0 } in
      inr (
        present,
        t',
        plat_time_init-wait fuel d tsc0 tsc1 cap k counter t r.period ran ∙ rw test refl,
        record { k = k; first = first; waited = ran; tsc_freq = refl; time = λ rdtsc. refl },
      )
]

-- ===== src/Intr/Default.antt =====
-- The default handler of intr.cpp, which prints a message and never returns.
use ckernel.Prelude.{ℕ, zero, suc, ◌≤◌, ◌<◌, ◌≡◌, refl, ◌∙◌, ap, [], ◌∷◌, Option, none, some, ◌>>=◌}
use ckernel.Prelude.Int.{ℤ, pos}
use ckernel.Io.{Io, Formatter, buf_size, cyan, info}
use ckernel.Io.Print.{IsBounded, IsReport, info-IsReport}
use ckernel.Intr.{Interrupts, spin, call_isr, isr_handler}
use ckernel.Prelude.{arith}
use ckernel.Intr.Setup.{IsSetUp}

-- The state `S` of the kernel has a text output, which `io_of` reads and `set_io` puts back; `unhandled` is the
-- address of the format. `forever` is what the endless loop of isr_default_handler makes of the state that it
-- begins with: `spin`, or a function that shows the state.
module _ {S : Type 0} (forever : S → Option S) (io_of : S → Io) (set_io : Io → S → S)
    (vsnprintf : Formatter) (buf fuel unhandled : ℕ) where
  pub handler_default : ℕ → Option S → Option S
  handler_default intr_num state = do
    s ← state
    (_, io') ← info vsnprintf buf fuel unhandled (intr_num ∷ []) (io_of s)
    forever (set_io io' s)

pub spin_lem : {S : Type 0} (n : ℕ) (s : S) → spin n s ≡ none
unfolding spin
spin_lem zero s = refl
spin_lem (suc n) s = spin_lem n s

call_isr-IsSetUp :
    {S : Type 0} (idt_addr : ℕ) (stub : ℕ → ℕ) (handler : ℕ → S → S) (x x' : Interrupts S) (vec : ℕ)
    (s : S)
    → IsSetUp idt_addr stub handler x x'
    → vec < 32
    → call_isr x' vec s ≡ (pos 0, handler vec s)
unfolding call_isr
call_isr-IsSetUp idt_addr stub handler x x' vec s set_up small =
    ground (arith, set_up.defaults vec small)

-- After a complete `init` with the default handler, for a formatter that keeps to its bound and at least as
-- many rounds as the output buffer has bytes, an exception with a vector below 32 goes into the endless
-- loop, whatever that makes of a state, with the state in which the message with the vector's number has been
-- printed in cyan and the output buffer cleared, and in which nothing else is changed. With `spin`, no
-- number of rounds gets it back to the code that it interrupted.
pub isr_handler-IsSetUp :
    {S : Type 0} (forever : S → Option S) (io_of : S → Io) (set_io : Io → S → S)
    (vsnprintf : Formatter) (buf fuel unhandled idt_addr : ℕ) (stub : ℕ → ℕ)
    (x x' : Interrupts (Option S)) (vec err_code : ℕ) (s : S)
    → IsBounded vsnprintf
    → buf_size ≤ fuel
    → IsSetUp idt_addr stub (handler_default forever io_of set_io vsnprintf buf fuel unhandled) x x'
    → vec < 32
    → (ret : ℤ) × (io' : Io) × IsReport vsnprintf buf cyan unhandled
        (vec ∷ [])
        (io_of s)
        (some (ret, io'))
      × (isr_handler x' vec err_code (some s) ≡ forever (set_io io' s))
      × ((n : ℕ) → spin n (set_io io' s) ≡ none)
unfolding handler_default
isr_handler-IsSetUp forever io_of set_io vsnprintf buf fuel unhandled idt_addr stub x x' vec
      err_code s bounded enough set_up small =
    let (ret, io', ran, report) =
      info-IsReport vsnprintf buf bounded fuel unhandled (vec ∷ []) (io_of s) enough in
    let handler = handler_default forever io_of set_io vsnprintf buf fuel unhandled in
    (
      ret,
      io',
      report,
      ap (λ r. r.1) (call_isr-IsSetUp idt_addr stub handler x x' vec (some s) set_up small)
          ∙ ap (λ o. o >>= (λ r. forever (set_io r.1 s))) ran,
      λ n. spin_lem n (set_io io' s),
    )

-- ===== src/Pmm/Booted.antt =====
-- After `PMM::init` of pmm.cpp: the pages of the kernel image and of the boot information stay theirs.
use ckernel.Prelude.{ℕ, ◌+◌, ◌*◌, ◌≤◌, ◌<◌, ◌≡◌, inl, false, List, [], ◌∷◌, arith}
use ckernel.Prelude.{Bool, refl, ltb}
use ckernel.Common.{page_size}
use ckernel.Firstfit.Bitmap.{used}
use ckernel.Firstfit.Count.{count, count-fill, count-false}
use ckernel.Firstfit.Ledger.{Block, owners, pages_of, IsHeld, other-IsHeld}
use ckernel.Firstfit.Disjoint.{IsDisjoint}
use ckernel.Pmm.{Pmm, Machine}
use ckernel.Pmm.Boot.{IsBooted}
use ckernel.Pmm.History.{State, Reach, block, IsKernelBlock}
use ckernel.Pmm.Consistent.{IsConsistent, kernel_apart}
use ckernel.Pmm.Reachable.{Reach-IsConsistent}
use ckernel.Pmm.Held.{held-IsDisjoint}

-- The kernel image and, behind it, the boot information.
abbrev pub boot_blocks : ℕ → ℕ → ℕ → List Block
boot_blocks start k n = block start k ∷ block (start + page_size * k) n ∷ []

-- The manager as `init` leaves it: no client has got a block.
abbrev pub new_state : Pmm → State
new_state p = record { pmm = p; live = [] }

count-ltb : (f : ℕ → Bool) (m n : ℕ) → ((j : ℕ) → f j ≡ ltb j m) → m ≤ n → count f n ≡ m
count-ltb f m n fill fits =
    let none_set = count-false (λ j. false) n (λ j. refl) in
    let filled =
      count-fill (λ j. false) f 0 m n (λ j p q. refl) (λ j. ground (arith, fill j)) (omega arith) in
    omega (arith, filled, none_set)

module _ (start k n : ℕ) (s s' : Machine) (some_image : 0 < k) (some_info : 0 < n)
    (fits : k + n ≤ 2048) (b : IsBooted start k n s s') where
  image : IsKernelBlock s'.pmm (block start k)
  image = record {
    idx = 0;
    at = omega (arith, b.at);
    some_pages = some_image;
    inside = omega (arith, b.kernel_total);
  }

  info : IsKernelBlock s'.pmm (block (start + page_size * k) n)
  info = record {
    idx = k;
    at = omega (arith, b.at);
    some_pages = some_info;
    inside = omega (arith, b.kernel_total);
  }

  kernel_held :
      IsHeld s'.pmm.kernel_space_start s'.pmm.kernel_space_allocator.allocator_length
        (boot_blocks start k n)
        s'.pmm.kernel_space_allocator
  unfolding owners
  kernel_held = record {
    valid = b.valid.kernel.valid;
    at = b.valid.kernel.at;
    total_pages = refl;
    owned = λ j p. ground (arith, b.kernel_use j, b.at);
  }

  none_held :
      IsHeld s'.pmm.non_kernel_space_start s'.pmm.allocator.allocator_length [] s'.pmm.allocator
  unfolding owners
  none_held = record {
    valid = b.valid.other.valid;
    at = b.valid.other.at;
    total_pages = refl;
    owned = λ j p. ground (arith, b.other_use j);
  }

  other_held :
      IsHeld s'.pmm.non_kernel_space_start s'.pmm.allocator.allocator_length
        (boot_blocks start k n)
        s'.pmm.allocator
  other_held =
      let v = b.valid in
      other-IsHeld
        (other-IsHeld none_held (block (start + page_size * k) n)
          (inl (kernel_apart s'.pmm [] v (block (start + page_size * k) n) info)))
        (block start k) (inl (kernel_apart s'.pmm [] v (block start k) image))

  booted-counter :
      s'.pmm.kernel_space_allocator.allocator_used_count + s'.pmm.allocator.allocator_used_count
      ≡ pages_of (boot_blocks start k n)
  unfolding pages_of
  booted-counter =
      let v = b.valid.kernel.valid in
      let w = b.valid.other.valid in
      let used_kernel =
        count-ltb (used s'.pmm.kernel_space_allocator) (k + n)
          s'.pmm.kernel_space_allocator.allocator_length b.kernel_use
          (omega (arith, b.kernel_total)) in
      let used_other =
        count-false (used s'.pmm.allocator) s'.pmm.allocator.allocator_length b.other_use in
      omega (arith, v.counted, w.counted, used_kernel, used_other)

  pub booted-IsConsistent : IsConsistent s'.pmm (boot_blocks start k n) (new_state s'.pmm)
  booted-IsConsistent = record {
    spaces = record {
      kernel_start = refl;
      kernel_length = refl;
      other_start = refl;
      other_length = refl;
    };
    kernel = kernel_held;
    other = other_held;
    placed = tt;
    counted = booted-counter;
  }

-- After a boot that left a nonempty kernel image of `k` pages and `n` pages of boot information in use,
-- which together fit in the kernel's space, every sequence of steps of the clients leads to a manager that is
-- consistent with these blocks kept for good; no client ever holds a page of them, and no two clients hold
-- the same page.
pub Reach-IsBooted :
    (start k n : ℕ) (s s' : Machine) (t : State)
    → 0 < k
    → 0 < n
    → k + n ≤ 2048
    → IsBooted start k n s s'
    → Reach (new_state s'.pmm) t
    → IsConsistent s'.pmm (boot_blocks start k n) t
      × IsDisjoint (block start k ∷ block (start + page_size * k) n ∷ t.live)
Reach-IsBooted start k n s s' t some_image some_info fits b r =
    let p = s'.pmm in
    let kept = boot_blocks start k n in
    let c =
      Reach-IsConsistent p kept b.valid (new_state p) t
        (booted-IsConsistent start k n s s' some_image some_info fits b) r in
    (
      c,
      held-IsDisjoint p kept t
          (
            inl (image start k n s s' some_image some_info fits b),
            (inl (info start k n s s' some_image some_info fits b), tt),
          )
          c,
    )

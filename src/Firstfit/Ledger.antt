-- ===== src/Firstfit/Ledger.antt =====
-- Who holds the pages of firstfit.cpp: the blocks that were handed out, against the pages in use.
use ckernel.Prelude.{ℕ, ◌+◌, ◌*◌, ◌≤◌, ◌<◌, ◌≡◌, Bool, true, false, List, [], ◌∷◌, ◌++◌}
use ckernel.Prelude.{some, arith, if◌then◌else◌, leb, ltb, ◌&&◌, ◌⊎◌}
use ckernel.Common.{page_size}
use ckernel.Firstfit.{Firstfit, free}
use ckernel.Firstfit.Bitmap.{used}
use ckernel.Firstfit.Find.{IsRun}
use ckernel.Firstfit.Range.{within}
use ckernel.Firstfit.Alloc.{IsValid, IsTaken}
use ckernel.Firstfit.Free.{free_at}

-- The `pages` pages from `addr` on.
pub record Block : Type 0 where
  pub addr : ℕ
  pub pages : ℕ

-- The address behind the block.
abbrev pub stop : Block → ℕ
stop b = b.addr + b.pages * page_size

-- The byte at `x` belongs to the block.
abbrev pub covers : Block → ℕ → Bool
covers b x = leb b.addr x && ltb x (stop b)

-- How many of the blocks the byte at `x` belongs to.
unfoldable pub owners : List Block → ℕ → ℕ
owners [] x = 0
owners (b ∷ bs) x = if covers b x then owners bs x + 1 else owners bs x

unfoldable pub pages_of : List Block → ℕ
pages_of [] = 0
pages_of (b ∷ bs) = b.pages + pages_of bs

-- A nonempty block of pages of the area of `total` pages at `start`.
pub record IsPlaced (start total : ℕ) (b : Block) : Type 0 where
  pub idx : ℕ
  pub at : b.addr ≡ start + page_size * idx
  pub some_pages : 0 < b.pages
  pub inside : idx + b.pages ≤ total

-- The allocator is over the area of `total` pages at `start`; each of them belongs to one of the blocks if
-- it is in use, and to none if it is free.
pub record IsHeld (start total : ℕ) (blocks : List Block) (a : Firstfit) : Type 0 where
  pub valid : IsValid a
  pub at : a.allocator_start_addr ≡ start
  pub total_pages : a.allocator_length ≡ total
  pub owned :
      (j : ℕ) → j < total → owners blocks (start + page_size * j) ≡ (if used a j then 1 else 0)

owners-append : (xs ys : List Block) (x : ℕ) → owners (xs ++ ys) x ≡ owners xs x + owners ys x
unfolding owners
owners-append [] ys x = omega arith
owners-append (b ∷ xs) ys x = ground (arith, owners-append xs ys x)

pages_of-append : (xs ys : List Block) → pages_of (xs ++ ys) ≡ pages_of xs + pages_of ys
unfolding pages_of
pages_of-append [] ys = omega arith
pages_of-append (b ∷ xs) ys = omega (arith, pages_of-append xs ys)

-- The place of a block in the list does not matter.
pub owners-middle :
    (ks xs ys : List Block) (b : Block) (x : ℕ)
    → owners (ks ++ (xs ++ b ∷ ys)) x ≡ owners (b ∷ (ks ++ (xs ++ ys))) x
unfolding owners
owners-middle ks xs ys b x =
    rw
      (
        owners-append ks (xs ++ b ∷ ys) x,
        owners-append xs (b ∷ ys) x,
        owners-append ks (xs ++ ys) x,
        owners-append xs ys x,
      )
      (ground arith)

pub pages_of-middle :
    (ks xs ys : List Block) (b : Block)
    → pages_of (ks ++ (xs ++ b ∷ ys)) ≡ pages_of (b ∷ (ks ++ (xs ++ ys)))
unfolding pages_of
pages_of-middle ks xs ys b =
    rw
      (
        pages_of-append ks (xs ++ b ∷ ys),
        pages_of-append xs (b ∷ ys),
        pages_of-append ks (xs ++ ys),
        pages_of-append xs ys,
      )
      (omega arith)

module _ {start total : ℕ} {a : Firstfit} (ks xs ys : List Block) (b : Block) where
  pub IsHeld-front :
      IsHeld start total (ks ++ (xs ++ b ∷ ys)) a → IsHeld start total (b ∷ (ks ++ (xs ++ ys))) a
  IsHeld-front h = record {
    valid = h.valid;
    at = h.at;
    total_pages = h.total_pages;
    owned = λ j p. rw (← owners-middle ks xs ys b (start + page_size * j)) (h.owned j p);
  }

  pub IsHeld-middle :
      IsHeld start total (b ∷ (ks ++ (xs ++ ys))) a → IsHeld start total (ks ++ (xs ++ b ∷ ys)) a
  IsHeld-middle h = record {
    valid = h.valid;
    at = h.at;
    total_pages = h.total_pages;
    owned = λ j p. rw (owners-middle ks xs ys b (start + page_size * j)) (h.owned j p);
  }

-- The page `j` of the area belongs to the block that starts at page `idx` exactly if it is one of its pages.
covers-page :
    (start idx pages j : ℕ)
    → covers (record { addr = start + page_size * idx; pages = pages }) (start + page_size * j)
      ≡ within idx pages j
covers-page start idx pages j = ground arith

module _ {start total : ℕ} {blocks : List Block} {a : Firstfit}
    (h : IsHeld start total blocks a) where
  -- A block that was free and has been taken into use.
  pub take-IsHeld :
      (idx len : ℕ) (a' : Firstfit)
      → IsRun a len false idx
      → IsTaken a idx len a'
      → IsValid a'
      → IsHeld start total (record { addr = start + page_size * idx; pages = len } ∷ blocks) a'
  unfolding owners
  take-IsHeld idx len a' run taken valid = record {
    valid = valid;
    at = omega (arith, taken.start, h.at);
    total_pages = omega (arith, taken.total, h.total_pages);
    owned =
        λ j p. ground (arith, covers-page start idx len j, taken.pages j, run.same j, h.owned j p);
  }

  -- A block of another area.
  pub other-IsHeld :
      (b : Block)
      → (stop b ≤ start) ⊎ (start + total * page_size ≤ b.addr)
      → IsHeld start total (b ∷ blocks) a
  unfolding owners
  other-IsHeld b apart = record {
    valid = h.valid;
    at = h.at;
    total_pages = h.total_pages;
    owned = λ j p. ground (arith, h.owned j p);
  }

module _ {start total : ℕ} {blocks : List Block} {a : Firstfit} (b : Block)
    (h : IsHeld start total (b ∷ blocks) a) where
  pub without_other-IsHeld :
      (stop b ≤ start) ⊎ (start + total * page_size ≤ b.addr) → IsHeld start total blocks a
  unfolding owners
  without_other-IsHeld apart = record {
    valid = h.valid;
    at = h.at;
    total_pages = h.total_pages;
    owned = λ j p. ground (arith, h.owned j p);
  }

  -- A block of the area can be given back, and then nobody holds it.
  pub give-IsHeld :
      IsPlaced start total b
      → (a' : Firstfit) × (free a b.addr b.pages ≡ some a')
        × IsHeld start total blocks a'
        × (a'.allocator_used_count + b.pages ≡ a.allocator_used_count)
  unfolding owners
  give-IsHeld placed =
      let run : IsRun a b.pages true placed.idx = record {
        inside = omega (arith, h.total_pages, placed.inside);
        same = λ j p q.
            ground
              (arith, covers-page start placed.idx b.pages j, placed.at, placed.inside, h.owned j);
      } in
      let (a', ran, released, valid) =
        free_at a b.addr placed.idx b.pages h.valid
          (
            omega (arith, h.at, placed.at),
            omega (arith, h.at, placed.at, h.total_pages, placed.inside, placed.some_pages),
          )
          (omega (arith, h.at, placed.at)) run in
      (
        a',
        ran,
        record {
          valid = valid;
          at = omega (arith, released.start, h.at);
          total_pages = omega (arith, released.total, h.total_pages);
          owned = λ j p. ground (
            arith,
            covers-page start placed.idx b.pages j,
            placed.at,
            released.pages j,
            h.owned j p,
          );
        },
        released.counter,
      )

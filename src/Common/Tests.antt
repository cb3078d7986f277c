-- ===== src/Common/Tests.antt =====
-- The alignments at concrete numbers.
use ckernel.Prelude.{◌≡◌, refl}
use ckernel.Common.{page_size, align, align32}

aligned :
    (align 0x100001 page_size ≡ 0x101000)
    × (align 0x100000 page_size ≡ 0x100000)
    × (align32 9 8 ≡ 16)
unfolding align align32
aligned = (refl, refl, refl)

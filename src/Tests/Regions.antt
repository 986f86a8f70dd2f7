-- ===== src/Tests/Regions.antt =====
-- Runs of kernel/memory/mem.c.
use sesh_os.Base.{List, [], ◌∷◌}
use sesh_os.Base.Memory.{Memory}
use sesh_os.Mem.{MemmapEntry}
use sesh_os.Tests.{text}

abbrev words : Memory
words = text 8 (b'a' ∷ b'b' ∷ b'c' ∷ 0 ∷ b'a' ∷ b'b' ∷ b'd' ∷ 0 ∷ [])

abbrev two_regions : List MemmapEntry
two_regions =
    record { base = 0; typ = 0; length = 0x9f000 }
    ∷ record { base = 0; typ = 0; length = 0x7ee0000 }
    ∷ []

abbrev small_regions : List MemmapEntry
small_regions =
    record { base = 0; typ = 0; length = 0x9f000 }
    ∷ record { base = 0; typ = 0; length = 0x3ff000 }
    ∷ []

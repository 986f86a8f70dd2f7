-- ===== src/Tests/Strings.antt =====
-- Runs of kernel/string.c.
use sesh_os.Base.{ℕ, ◌≡◌, refl, List, [], ◌∷◌, arith, replicate}
use sesh_os.Base.Run.{done}
use sesh_os.Base.Memory.{Memory, CStr}
use sesh_os.Str.{strstr}
use sesh_os.Str.Search.{strstr-first_occurrence, first_occurrence, address_of}
use sesh_os.Str.Split.{TwoStrings, strsplit}
use sesh_os.Str.Split.Parts.{strsplit-before-after, bytes_of, before, after}
use sesh_os.Tests.{text}

abbrev path : List ℕ
path = b'a' ∷ b'/' ∷ b'b' ∷ []

abbrev number : List ℕ
number = b'4' ∷ b'7' ∷ []

abbrev tail : List ℕ
tail = b'/' ∷ b'b' ∷ []

-- "a/b" at 8, "47" at 12 and "/b" at 15
abbrev words : Memory
words = text 8 (b'a' ∷ b'/' ∷ b'b' ∷ 0 ∷ b'4' ∷ b'7' ∷ 0 ∷ b'/' ∷ b'b' ∷ 0 ∷ [])

path-CStr : CStr words 8 path
path-CStr = (refl, (λ e. omega arith), (refl, (λ e. omega arith), (refl, (λ e. omega arith), refl)))

number-CStr : CStr words 12 number
number-CStr = (refl, (λ e. omega arith), (refl, (λ e. omega arith), refl))

tail-CStr : CStr words 15 tail
tail-CStr = (refl, (λ e. omega arith), (refl, (λ e. omega arith), refl))

strstr-first_occurrence_example :
    strstr 4 words 8 15 ≡ done (address_of 8 (first_occurrence tail path))
strstr-first_occurrence_example =
    strstr-first_occurrence 4 words 8 15 path tail path-CStr tail-CStr (omega arith) (omega arith)
      (omega arith)

abbrev junk : List ℕ
junk = replicate 128 7

strsplit-before-after_example :
    (r : TwoStrings) × (strsplit 4 junk junk words 8 b'/' ≡ done r)
    × CStr (bytes_of r.a) 0 (before b'/' path)
    × CStr (bytes_of r.b) 0 (after b'/' path)
strsplit-before-after_example =
    strsplit-before-after 4 junk junk words 8 b'/' path refl refl path-CStr (omega arith)
      (omega arith) (omega arith) (omega arith)

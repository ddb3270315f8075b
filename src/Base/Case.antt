-- ===== src/Base/Case.antt =====
-- Lower case as far as prefixes in ASCII need it, and the bytes of a text in UTF-8.
use Prim.Native.Nat.{ℕ, ◌+◌, ◌-◌}
use mathlib.Core.Bool.{◌&&◌}
use mathlib.Core.List.{[], ◌∷◌}
use csar_notify.Base.Tests.{leb, ltb, ◌==◌, if◌then◌else◌}
use csar_notify.Base.Strings.{Text}

-- strings.ToLower on a code point, where that gives an ASCII letter.
unfoldable pub lower : ℕ → ℕ
lower c =
    if leb 65 c && leb c 90
    then c + 32
    else if c == 0x130
    then 0x69
    else if c == 0x212A
    then 0x6B
    else c

-- The number of bytes of a code point.
unfoldable pub utf8_width : ℕ → ℕ
utf8_width c = if ltb c 0x80 then 1 else if ltb c 0x800 then 2 else if ltb c 0x10000 then 3 else 4

-- s[n:], where n bytes are a number of whole code points.
unfoldable pub drop_bytes : ℕ → Text → Text
drop_bytes n [] = []
drop_bytes n (c ∷ s) = let rest = drop_bytes (n - utf8_width c) s in if n == 0 then c ∷ s else rest

-- ===== src/Common/Find.antt =====
-- Texts inside of texts, and lower case.
use Prim.Native.Nat.{ℕ, ◌+◌}
use mathlib.Core.Bool.{Bool, true, false, ◌&&◌, ◌||◌}
use mathlib.Core.Option.{Option, none, some}
use mathlib.Core.List.{[], ◌∷◌}
use marmot_cli.Common.Tests.{leb, ◌==◌, if◌then◌else◌}
use marmot_cli.Common.Text.{Bytes, strip_prefix}

starts : Option Bytes → Bool
starts none = false
starts (some rest) = true

-- `strings.Contains(s, word)`
unfoldable pub contains : Bytes → Bytes → Bool
unfolding starts strip_prefix
contains word [] = starts (strip_prefix word [])
contains word (c ∷ s) = starts (strip_prefix word (c ∷ s)) || contains word s

unfoldable pub lower_byte : ℕ → ℕ
lower_byte c = if leb b'A' c && leb c b'Z' then c + 32 else c

-- `strings.ToLower`, on ASCII and on the letter U+0130, whose lower case is an `i`. No text that is looked
-- for has a byte of another letter's lower case.
unfoldable pub to_lower : Bytes → Bytes
unfolding lower_byte
to_lower [] = []
to_lower (a ∷ []) = lower_byte a ∷ []
to_lower (a ∷ b ∷ s) =
    let behind = to_lower s in
    let next = to_lower (b ∷ s) in
    if a == 0xc4 && b == 0xb0 then b'i' ∷ behind else lower_byte a ∷ next

-- ===== src/Common/Text.antt =====
-- `String.prototype.trim`, where white space and line terminators are dropped at both ends, and
-- tests on optional texts.
use Prim.Native.Char.{code}
use Prim.Native.String.{String}
use ai_agent_tool.Common.Tests.{if◌then◌else◌, ◌==◌, leb, str_eq}
use Prim.Native.Nat.{ℕ}
use mathlib.Core.Bool.{Bool, true, false, not, ◌&&◌, ◌||◌}
use mathlib.Core.Option.{Option, none, some}

abbrev pub is_empty : String → Bool
is_empty String.[] = true
is_empty (String.◌∷◌ c s) = false

-- The WhiteSpace and LineTerminator characters of ECMAScript.
unfoldable pub is_white_space : ℕ → Bool
is_white_space c =
    (leb 9 c && leb c 13)
    || (c == 32)
    || (c == 160)
    || (c == 0x1680)
    || (leb 0x2000 c && leb c 0x200a)
    || (c == 0x2028)
    || (c == 0x2029)
    || (c == 0x202f)
    || (c == 0x205f)
    || (c == 0x3000)
    || (c == 0xfeff)

unfoldable pub trim_start : String → String
unfolding is_white_space
trim_start String.[] = String.[]
trim_start (String.◌∷◌ c s) =
    let rest = trim_start s in if is_white_space (code c) then rest else String.◌∷◌ c s

unfoldable pub trim_end : String → String
unfolding is_white_space
trim_end String.[] = String.[]
trim_end (String.◌∷◌ c s) =
    let rest = trim_end s in
    if is_empty rest && is_white_space (code c) then String.[] else String.◌∷◌ c rest

unfoldable pub trim : String → String
unfolding trim_start trim_end
trim s = trim_end (trim_start s)

-- Whether an optional text counts as true: it is there and not empty.
abbrev pub is_given : Option String → Bool
is_given none = false
is_given (some s) = not (is_empty s)

-- `===` on optional texts.
abbrev pub same : Option String → Option String → Bool
same none none = true
same none (some t) = false
same (some s) none = false
same (some s) (some t) = str_eq s t

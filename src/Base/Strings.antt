-- ===== src/Base/Strings.antt =====
-- `strings.TrimSpace` and `strconv.ParseInt(s, 10, 64)` of Go's standard library.
use Prim.Native.Nat.{ℕ, ◌+◌, ◌-◌, ◌*◌}
use Prim.Native.Char.{Char, code}
use Prim.Native.String.{String, [], ◌∷◌}
use mathlib.Core.Bool.{Bool, ◌&&◌, ◌||◌}
use mathlib.Core.Option.{Option, none, some}
use douyin_mall.Base.Tests.{ltb, leb, ◌==◌, if◌then◌else◌}
use douyin_mall.Base.Words.{Int64, half64, mod64}

-- `unicode.IsSpace`
unfoldable pub is_space : Char → Bool
is_space c =
    let n = code c in
    (leb 9 n && leb n 13)
    || (n == 32)
    || (n == 133)
    || (n == 160)
    || (n == 5760)
    || (leb 8192 n && leb n 8202)
    || (n == 8232)
    || (n == 8233)
    || (n == 8239)
    || (n == 8287)
    || (n == 12288)

abbrev trim_left : String → String
trim_left [] = []
trim_left (c ∷ s) = let rest = trim_left s in if is_space c then rest else c ∷ s

-- A text of spaces alone has nothing left; a space at the end goes with what follows it.
abbrev cons_trimmed : Char → String → String
cons_trimmed c [] = if is_space c then [] else c ∷ []
cons_trimmed c (d ∷ s) = c ∷ d ∷ s

abbrev trim_right : String → String
trim_right [] = []
trim_right (c ∷ s) = cons_trimmed c (trim_right s)

unfoldable pub trim_space : String → String
unfolding is_space
trim_space s = trim_right (trim_left s)

-- The digits from left to right, after `n`; a text without digits is refused by the caller.
abbrev digits : ℕ → String → Option ℕ
digits n [] = some n
digits n (c ∷ s) =
    let rest = digits (n * 10 + (code c - 48)) s in
    if leb 48 (code c) && leb (code c) 57 then rest else none

abbrev natural : String → Option ℕ
natural [] = none
natural (c ∷ s) = digits 0 (c ∷ s)

abbrev positive : Option ℕ → Option Int64
positive none = none
positive (some n) = if ltb n half64 then some n else none

abbrev negative : Option ℕ → Option Int64
negative none = none
negative (some n) = if n == 0 then some 0 else if leb n half64 then some (mod64 - n) else none

unfoldable pub parse_int64 : String → Option Int64
parse_int64 [] = none
parse_int64 (c ∷ s) =
    if code c == 45
    then negative (natural s)
    else if code c == 43
    then positive (natural s)
    else positive (natural (c ∷ s))

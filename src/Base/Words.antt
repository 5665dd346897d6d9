-- ===== src/Base/Words.antt =====
-- Go's int64 and int32 as bit patterns: a number below 2^64 (2^32) that stands for itself below the
-- half, and for itself less the modulus from there on. The operations wrap as Go's do.
use Prim.Native.Nat.{ℕ, ◌+◌, ◌-◌, ◌*◌, ◌/◌, ◌%◌}
use mathlib.Core.Bool.{Bool, true, false, not}
use mathlib.Core.Option.{Option, none, some}
use douyin_mall.Base.Tests.{ltb, leb, if◌then◌else◌}

abbrev pub Int64 : Type 0
Int64 = ℕ

abbrev pub Int32 : Type 0
Int32 = ℕ

abbrev pub half64 : ℕ
half64 = 9_223_372_036_854_775_808

abbrev pub mod64 : ℕ
mod64 = 18_446_744_073_709_551_616

abbrev pub half32 : ℕ
half32 = 2_147_483_648

abbrev pub mod32 : ℕ
mod32 = 4_294_967_296

abbrev pub differ : Bool → Bool → Bool
differ true b = not b
differ false b = b

abbrev pub add64 : Int64 → Int64 → Int64
add64 a b = (a + b) % mod64

abbrev pub neg64 : Int64 → Int64
neg64 a = (mod64 - a) % mod64

abbrev pub sub64 : Int64 → Int64 → Int64
sub64 a b = (a + (mod64 - b)) % mod64

abbrev pub mul64 : Int64 → Int64 → Int64
mul64 a b = (a * b) % mod64

abbrev pub lt64 : Int64 → Int64 → Bool
lt64 a b = ltb ((a + half64) % mod64) ((b + half64) % mod64)

abbrev pub le64 : Int64 → Int64 → Bool
le64 a b = leb ((a + half64) % mod64) ((b + half64) % mod64)

abbrev pub is_neg64 : Int64 → Bool
is_neg64 a = leb half64 a

abbrev pub abs64 : Int64 → Int64
abs64 a = if is_neg64 a then neg64 a else a

-- Go's `/`, which truncates towards zero.
abbrev pub quot64 : Int64 → Int64 → Int64
quot64 a b = let q = abs64 a / abs64 b in if differ (is_neg64 a) (is_neg64 b) then neg64 q else q

abbrev pub neg32 : Int32 → Int32
neg32 a = (mod32 - a) % mod32

abbrev pub add32 : Int32 → Int32 → Int32
add32 a b = (a + b) % mod32

-- `int32(x)` of an int64.
abbrev pub to_int32 : Int64 → Int32
to_int32 a = a % mod32

-- `int64(x)` of an int32.
abbrev pub to_int64 : Int32 → Int64
to_int64 a = if ltb a half32 then a else a + (mod64 - mod32)

-- `a + b` on a BIGINT column: the statement is refused where the sum leaves the column's range.
abbrev pub sql_add : Int64 → Int64 → Option Int64
sql_add a b =
    let s = add64 a b in
    if differ (is_neg64 a) (is_neg64 b)
    then some s
    else if differ (is_neg64 a) (is_neg64 s)
    then none
    else some s

abbrev pub lt32 : Int32 → Int32 → Bool
lt32 a b = ltb ((a + half32) % mod32) ((b + half32) % mod32)

abbrev pub le32 : Int32 → Int32 → Bool
le32 a b = leb ((a + half32) % mod32) ((b + half32) % mod32)

abbrev pub is_neg32 : Int32 → Bool
is_neg32 a = leb half32 a

-- The same on an INT column.
abbrev pub sql_add32 : Int32 → Int32 → Option Int32
sql_add32 a b =
    let s = add32 a b in
    if differ (is_neg32 a) (is_neg32 b)
    then some s
    else if differ (is_neg32 a) (is_neg32 s)
    then none
    else some s

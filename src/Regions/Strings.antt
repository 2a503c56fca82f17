-- ===== src/Regions/Strings.antt =====
-- util.c: the functions on strings, with `sprintf` and `sscanf` as they are used there.
use Prim.Native.Char.{code}
use Prim.Native.String.{String, [], ◌∷◌, ◌++◌, len, slice}
use shmsock.Base.{ℕ, zero, suc, ◌+◌, ◌-◌, ◌*◌, ◌/◌, ◌%◌, if◌then◌else◌, ◌&&◌, leb, ltb}
use shmsock.Machine.Cmd.{ok, fault, Cmd}

-- Two strings put together in an array of 0x100 bytes; past its end is a fault.
unfoldable pub straddstr : String → String → Cmd String
straddstr a b s = if ltb (len a + len b) 0x100 then ok (a ++ b) s else fault

-- A digit, by `sprintf`.
abbrev pub digit : ℕ → String
digit n = slice "0123456789" n (n + 1)

-- Each step takes a digit off, so that as many steps as the number says are enough.
unfoldable pub decimal : ℕ → ℕ → String
decimal zero n = digit n
decimal (suc fuel) n = if ltb n 10 then digit n else decimal fuel (n / 10) ++ digit (n % 10)

unfoldable pub straddnum : String → ℕ → Cmd String
straddnum str num = straddstr str (decimal num num)

-- The digits that a text begins with, by `sscanf`. A text that begins with none leaves the variable
-- as it was, without a value, which is taken for a fault. Signs and blanks are not modelled.
abbrev pub scan_digits : ℕ → String → ℕ
scan_digits n [] = n
scan_digits n (ch ∷ rest) =
    let c = code ch in
    let next = scan_digits (n * 10 + (c - 48)) rest in if leb 48 c && leb c 57 then next else n

unfoldable pub scan_int : String → Cmd ℕ
scan_int [] s = fault
scan_int (ch ∷ rest) s =
    let c = code ch in if leb 48 c && leb c 57 then ok (scan_digits 0 (ch ∷ rest)) s else fault

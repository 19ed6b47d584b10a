-- ===== src/Value.antt =====
-- Values of the compiled program as the compiler holds them (dbcc-type.c, `dbcc_typed_value_*`):
-- a list of bytes, lowest byte first, which is the order of the hosts that the code runs on.
-- C's integer arithmetic is that of a host whose `int` has 32 bits and whose signed integers are
-- in two's complement; a conversion to a narrower signed type wraps around.
pub mod Bytes
mod Tests
pub mod Words
pub mod Floats
pub mod Integer
pub mod Bitwise
pub mod Access
pub mod Cast
pub mod Compare
use dbcc.Base.{
  ℕ, zero, suc, ◌+◌, ◌-◌, ◌*◌, ◌/◌, ◌%◌, ◌^◌, Bool, true, false, not, ◌&&◌, ◌||◌, List, [], ◌∷◌,
  ltb, leb, ◌==◌, if◌then◌else◌, ℤ, pos, negsuc, Run, ok, fault, ◌>>=◌, length, take, out_of_bounds,
  undefined, assertion,
}
use dbcc.CType.{CType, Metatype, metatype}

abbrev pub Value : Type 0
Value = List ℕ

-- The number that bytes stand for.
unfoldable pub word : Value → ℕ
word [] = 0
word (b ∷ bs) = b + 256 * word bs

unfoldable pub bytes : ℕ → ℕ → Value
bytes zero n = []
bytes (suc w) n = n % 256 ∷ bytes w (n / 256)

-- A read of an unsigned integer of `w` bytes.
unfoldable pub load : ℕ → Value → Run ℕ
unfolding word
load w v = if ltb (length v) w then fault out_of_bounds else ok (word (take w v))

-- Two's complement.
unfoldable pub to_signed : ℕ → ℕ → ℤ
to_signed w n = if ltb (2 * n) (256 ^ w) then pos n else negsuc (256 ^ w - 1 - n)

-- A conversion to an unsigned integer of `w` bytes.
unfoldable pub convert : ℕ → ℤ → ℕ
convert w (pos n) = n % 256 ^ w
convert w (negsuc n) = 256 ^ w - 1 - n % 256 ^ w

unfoldable pub store : ℕ → ℤ → Value
unfolding convert bytes
store w z = bytes w (convert w z)

-- A read of an integer of `w` bytes.
unfoldable pub load_int : ℕ → Bool → Value → Run ℤ
unfolding load to_signed
load_int w is_signed v = load w v >>= λ n. ok (if is_signed then to_signed w n else pos n)

-- C computes in `int` on what is narrower than it.
abbrev pub promoted_size : ℕ → ℕ
promoted_size w = if ltb w 4 then 4 else w

abbrev pub promoted_signed : ℕ → Bool → Bool
promoted_signed w is_signed = is_signed || ltb w 4

-- `z` is in the range of a signed integer of `w` bytes.
unfoldable pub fits : ℕ → ℤ → Bool
fits w (pos n) = ltb (2 * n) (256 ^ w)
fits w (negsuc n) = ltb (2 * n) (256 ^ w)

-- The result of an arithmetic operator on operands of `w` bytes.
unfoldable pub arithmetic : ℕ → Bool → ℤ → Run ℤ
unfolding convert fits
arithmetic w is_signed z =
    if promoted_signed w is_signed
    then if fits (promoted_size w) z then ok z else fault undefined
    else ok (pos (convert w z))

-- The `switch` on the size.
abbrev pub is_size : ℕ → Bool
is_size w = (w == 1) || (w == 2) || (w == 4) || (w == 8)

abbrev pub by_size {ℓ} : {A : Type ℓ} → ℕ → (ℕ → Run A) → Run A
by_size w f = if is_size w then f w else fault assertion

-- `metatype == INT || metatype == ENUM`
abbrev pub int_or_enum : CType → Bool
int_or_enum t = elim (metatype t) [ Metatype.int ↦ true | Metatype.enum ↦ true | _ ↦ false ]

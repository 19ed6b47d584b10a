-- ===== src/Value/Bitwise.antt =====
-- The bitwise operations of dbcc-type.c, byte by byte. The loops' counter is `unsigned`, of 32 bits.
pub mod Complement
use Prim.Native.Nat.{bit_and, bit_or, bit_xor}
use dbcc.Base.{ℕ, zero, suc, ◌-◌, ◌%◌, ◌^◌, [], ◌∷◌, Run, ok, fault, ◌>>=◌, out_of_bounds}
use dbcc.CType.{CType, sizeof}
use dbcc.Value.{Value}

abbrev pub counter : CType → ℕ
counter type = sizeof type % 2 ^ 32

-- `while (N--) *oo++ = *aa++ op *bb++;`
unfoldable pub bytewise : ℕ → (ℕ → ℕ → ℕ) → Value → Value → Run Value
bytewise zero op a b = ok []
bytewise (suc n) op [] b = fault out_of_bounds
bytewise (suc n) op (x ∷ a) [] = fault out_of_bounds
bytewise (suc n) op (x ∷ a) (y ∷ b) = bytewise n op a b >>= λ out. ok (op x y ∷ out)

unfoldable pub typed_value_bitwise_and : CType → Value → Value → Run Value
unfolding bytewise
typed_value_bitwise_and type a b = bytewise (counter type) bit_and a b

unfoldable pub typed_value_bitwise_or : CType → Value → Value → Run Value
unfolding bytewise
typed_value_bitwise_or type a b = bytewise (counter type) bit_or a b

unfoldable pub typed_value_bitwise_xor : CType → Value → Value → Run Value
unfolding bytewise
typed_value_bitwise_xor type a b = bytewise (counter type) bit_xor a b

-- `while (N--) *oo++ = ~(*ii++);`
unfoldable pub complement : ℕ → Value → Run Value
complement zero a = ok []
complement (suc n) [] = fault out_of_bounds
complement (suc n) (x ∷ a) = complement n a >>= λ out. ok ((255 - x) ∷ out)

unfoldable pub typed_value_bitwise_not : CType → Value → Run Value
unfolding complement
typed_value_bitwise_not type a = complement (counter type) a

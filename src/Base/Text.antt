-- ===== src/Base/Text.antt =====
-- Python's `str` of a number.
use openpine.Base.{true, false, Bool}
use Prim.Native.Char.{code}
use Prim.Native.Nat.{ℕ, zero, suc, ◌/◌, ◌%◌}
use Prim.Native.String.{[], ◌∷◌, String, ◌++◌}
use Prim.Native.Nat.{compare, Ordering}
use mathlib.Core.Path.{◌≡◌, refl}

digit : ℕ → String
digit zero = "0"
digit (suc zero) = "1"
digit (suc (suc zero)) = "2"
digit (suc (suc (suc zero))) = "3"
digit (suc (suc (suc (suc zero)))) = "4"
digit (suc (suc (suc (suc (suc zero))))) = "5"
digit (suc (suc (suc (suc (suc (suc zero)))))) = "6"
digit (suc (suc (suc (suc (suc (suc (suc zero))))))) = "7"
digit (suc (suc (suc (suc (suc (suc (suc (suc zero)))))))) = "8"
digit _ = "9"

-- Each round writes the last digit in front; `n` rounds are enough, since 10 divides out of `n`
-- fewer times.
show_digits : ℕ → ℕ → String → String
show_digits zero n out = out
show_digits (suc fuel) n out =
    let out' = digit (n % 10) ++ out in
    elim (compare n 10) [ Ordering.lt ↦ out' | _ ↦ show_digits fuel (n / 10) out' ]

unfoldable pub show_nat : ℕ → String
unfolding digit show_digits
show_nat n = show_digits (suc n) n ""

show_nat_4096 : show_nat 4096 ≡ "4096"
unfolding show_nat
show_nat_4096 = refl

-- `s < t` on Python texts: by code points, the first difference decides
abbrev pub text_lt : String → String → Bool
text_lt [] [] = false
text_lt [] (_ ∷ _) = true
text_lt (_ ∷ _) [] = false
text_lt (c ∷ s) (d ∷ t) = elim (compare (code c) (code d)) [
  | Ordering.lt ↦ true
  | Ordering.eq ↦ text_lt s t
  | Ordering.gt ↦ false
]

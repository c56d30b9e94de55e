-- ===== src/Prelude/Float64.antt =====
-- `float64`. A finite value is a whole multiple of 2⁻¹⁰⁷⁴, the smallest positive value: `finite z`
-- is z · 2⁻¹⁰⁷⁴. Comparison is IEEE 754's: nothing compares with a NaN, and -0 is 0.
use Prim.Native.Nat.{ℕ, zero, suc, ◌*◌, ◌/◌, ◌%◌, ◌^◌}
use mathlib.Core.Path.{◌≡◌, refl}
use mathlib.Core.Bool.{Bool, true, false, ◌&&◌, ◌||◌, not}
use adro.Prelude.Tests.{ltb, ◌==◌, if◌then◌else◌}
use adro.Prelude.Int.{ℤ, pos, negsuc, ltb_ℤ, eqb_ℤ}

pub data Float64 : Type 0 where
  finite : ℤ → Float64
  pos_inf neg_inf nan : Float64

unfoldable pub feq : Float64 → Float64 → Bool
feq (finite a) (finite b) = eqb_ℤ a b
feq pos_inf pos_inf = true
feq neg_inf neg_inf = true
feq _ _ = false

unfoldable pub flt : Float64 → Float64 → Bool
flt (finite a) (finite b) = ltb_ℤ a b
flt (finite a) pos_inf = true
flt neg_inf (finite b) = true
flt neg_inf pos_inf = true
flt _ _ = false

unfoldable pub fle : Float64 → Float64 → Bool
unfolding flt feq
fle a b = flt a b || feq a b

-- The number of low bits that do not fit the 53 of the significand.
excess : ℕ → ℕ → ℕ
excess zero n = 0
excess (suc fuel) n = let more = suc (excess fuel (n / 2)) in if ltb n (2 ^ 53) then 0 else more

-- `n` rounded to 53 significant bits, to even on a tie. Eleven rounds serve a 64-bit integer.
round53 : ℕ → ℕ
unfolding excess
round53 n =
    let k = excess 11 n in
    let low = n % 2 ^ k in
    let high = n / 2 ^ k in
    let up = ltb (2 ^ k) (2 * low) || (2 * low == 2 ^ k && high % 2 == 1 && not (k == 0)) in
    (if up then suc high else high) * 2 ^ k

-- `float64(n)` for an `int` or `int64`.
unfoldable pub of_int : ℤ → Float64
unfolding round53
of_int (pos n) = finite (pos (round53 n * 2 ^ 1074))
of_int (negsuc n) = finite (elim (round53 (suc n) * 2 ^ 1074) [ zero ↦ pos 0 | suc m ↦ negsuc m ])

unfoldable pub fzero : Float64
fzero = finite (pos 0)

-- 2⁵³ + 1 is the least integer that is rounded.
rounds : feq (of_int (pos 9007199254740993)) (of_int (pos 9007199254740992)) ≡ true
unfolding of_int feq
rounds = refl

keeps : feq (of_int (pos 9007199254740994)) (of_int (pos 9007199254740992)) ≡ false
unfolding of_int feq
keeps = refl

-- ===== src/Json/Number.antt =====
-- Go's comparisons of float64, on bit patterns: 1 sign bit, 11 exponent bits, 52 fraction bits.
use webhook_mind.Prelude.{
  Bool, arith, false, leb, ltb, not, ℕ, ◌%◌, ◌&&◌, ◌*◌, ◌<◌, ◌==◌, ◌||◌, ◌≡◌,
}

-- 2 ^ 63: the sign bit.
abbrev pub sign_bit : ℕ
sign_bit = 9223372036854775808

-- The pattern of +Inf; a larger magnitude is a NaN.
abbrev pub infinity : ℕ
infinity = 9218868437227405312

abbrev pub magnitude : ℕ → ℕ
magnitude b = b % sign_bit

abbrev pub is_negative : ℕ → Bool
is_negative b = leb sign_bit b

abbrev pub is_nan : ℕ → Bool
is_nan b = ltb infinity (magnitude b)

-- `a < b`: false if either is a NaN; the two zeros are equal.
unfoldable pub float_lt : ℕ → ℕ → Bool
float_lt a b =
    not (is_nan a)
    && not (is_nan b)
    && ((is_negative a && not (is_negative b) && not (magnitude a == 0 && magnitude b == 0))
        || (not (is_negative a) && not (is_negative b) && ltb (magnitude a) (magnitude b))
        || (is_negative a && is_negative b && ltb (magnitude b) (magnitude a)))

-- `a == b`: false if either is a NaN; the two zeros are equal.
unfoldable pub float_eq : ℕ → ℕ → Bool
float_eq a b =
    not (is_nan a) && not (is_nan b) && ((magnitude a == 0 && magnitude b == 0) || a == b)

-- `a <= b`
unfoldable pub float_le : ℕ → ℕ → Bool
unfolding float_lt float_eq
float_le a b = float_lt a b || float_eq a b

-- Between numbers that are no NaN exactly one of `<`, `==` and `>` holds.
pub float_trichotomy :
    (a b : ℕ)
    → is_nan a ≡ false
    → is_nan b ≡ false
    → a < 2 * sign_bit
    → b < 2 * sign_bit
    → float_le a b ≡ not (float_lt b a)
unfolding float_le
float_trichotomy a b h k p q = ground arith

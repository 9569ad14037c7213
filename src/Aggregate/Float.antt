-- ===== src/Aggregate/Float.antt =====
-- The comparisons of float64 that the aggregate makes, on IEEE 754 bit patterns: the sign bit, then
-- the magnitude, whose numeric order is the order of the values it stands for.
use rick_driven_development.Prelude.{
  ℕ, ◌%◌, ◌^◌, Bool, not, ◌&&◌, leb, ltb, eqb, if◌then◌else◌, true,
}
use rick_driven_development.Event.Payload.{Float64}

abbrev pub is_negative : Float64 → Bool
is_negative x = leb (2 ^ 63) x

abbrev pub magnitude : Float64 → ℕ
magnitude x = x % 2 ^ 63

abbrev pub is_nan : Float64 → Bool
is_nan x = ltb 0x7ff0000000000000 (magnitude x)

unfoldable pub less_equal : Float64 → Float64 → Bool
less_equal a b =
    not (is_nan a)
    && not (is_nan b)
    && (if is_negative a
        then (if is_negative b then leb (magnitude b) (magnitude a) else true)
        else (if is_negative b
            then eqb (magnitude a) 0 && eqb (magnitude b) 0
            else leb (magnitude a) (magnitude b)))

-- x > 0
unfoldable pub is_positive : Float64 → Bool
is_positive x = not (is_nan x) && not (is_negative x) && ltb 0 (magnitude x)

-- ===== src/Limiter.antt =====
-- include/recordlab/common/rate_limiter.h: how often the messages of a type are let through. The clock and
-- the conversion of a floating timestamp are arguments, and so is the interval that the constructor
-- computes. A difference of two times that leaves the 64 bits of int64_t has no result.
pub mod Spacing
mod Tests
use xreal_bsp_rgb_tool.Prelude.{
  Bool, true, false, List, [], ◌∷◌, Option, none, some, String, if◌then◌else◌, not, ◌==◌, ltb, ◌^◌,
}
use xreal_bsp_rgb_tool.Prelude.Int.{ℤ, pos, negsuc, ltb_ℤ, ◌-ℤ◌}
use xreal_bsp_rgb_tool.Platform.{JsonLib}
use xreal_bsp_rgb_tool.Manager.Fields.{Fields, value_int}
use xreal_bsp_rgb_tool.Prelude.Maps.{lookup}

unfoldable pub same : ℤ → ℤ → Bool
same (pos m) (pos n) = m == n
same (negsuc m) (negsuc n) = m == n
same _ _ = false

-- `lastTimestampNs_`, by the message's type.
pub record RateLimiter : Type 0 where
  pub limited : Bool
  pub interval_ns : ℤ
  pub last_timestamp_ns : List (ℤ × ℤ)

-- `operator[]`: a type that has no time yet gets 0.
unfoldable pub last_of : ℤ → List (ℤ × ℤ) → ℤ
last_of type [] = pos 0
last_of type ((k, t) ∷ rest) = if same k type then t else last_of type rest

unfoldable pub set_last : ℤ → ℤ → List (ℤ × ℤ) → List (ℤ × ℤ)
set_last type time [] = (type, time) ∷ []
set_last type time ((k, t) ∷ rest) =
    if same k type then (type, time) ∷ rest else (k, t) ∷ set_last type time rest

-- The test of check behind the reading of the message.
unfoldable pub admit : ℤ → ℤ → RateLimiter → RateLimiter × Bool
unfolding set_last
admit type time x =
    if ltb_ℤ (time -ℤ last_of type x.last_timestamp_ns) x.interval_ns
    then (x, false)
    else (record x { last_timestamp_ns = set_last type time x.last_timestamp_ns }, true)

-- Whether an integer is one of int64_t.
unfoldable pub fits_int64 : ℤ → Bool
fits_int64 (pos n) = ltb n (2 ^ 63)
fits_int64 (negsuc n) = ltb n (2 ^ 63)

-- check by the type and the time that were read; nothing where the difference overflows.
unfoldable pub check_read : Option (ℤ × ℤ) → RateLimiter → Option (RateLimiter × Bool)
unfolding admit fits_int64
check_read none x = none
check_read (some (type, time)) x =
    if fits_int64 (time -ℤ last_of type x.last_timestamp_ns) then some (admit type time x) else none

-- reset
unfoldable pub reset : RateLimiter → RateLimiter
reset x = record x { last_timestamp_ns = [] }

module _ (J : JsonLib) (float_ns : J.Json → Option ℤ) where
  -- The time of a message: its own in nanoseconds, its own in seconds, or the clock's.
  unfoldable pub time_of : ℤ → Fields J → ℤ
  time_of now fields =
      let other : ℤ = elim (lookup "timestamp" fields) [
        | none ↦ now
        | some v ↦ elim (float_ns v) [ none ↦ now | some t ↦ t ]
      ] in
      elim (lookup "timestamp_ns" fields) [
        | none ↦ other
        | some v ↦ elim (J.as_int v) [ none ↦ other | some t ↦ t ]
      ]

  -- The type and the time of a message; nothing where reading the type throws.
  unfoldable pub read_message : ℤ → J.Json → Option (ℤ × ℤ)
  unfolding time_of value_int
  read_message now data_value = elim (J.as_object data_value) [
    | none ↦ some (pos 0, now)
    | some fields ↦ elim (value_int J "type" (pos 0) fields) [
      | none ↦ none
      | some type ↦ some (type, time_of now fields)
    ]
  ]

  -- check; nothing where it throws or overflows.
  unfoldable pub check : ℤ → J.Json → RateLimiter → Option (RateLimiter × Bool)
  unfolding check_read read_message
  check now data_value x =
      if x.limited then check_read (read_message now data_value) x else some (x, true)

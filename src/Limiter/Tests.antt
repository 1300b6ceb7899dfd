-- ===== src/Limiter/Tests.antt =====
-- Concrete messages, and the spacing of those that a limiter lets through.
use xreal_bsp_rgb_tool.Prelude.{◌≡◌, refl, true, false, List, [], ◌∷◌, Option, none, some, String}
use xreal_bsp_rgb_tool.Prelude.Int.{ℤ, pos, ◌-ℤ◌}
use xreal_bsp_rgb_tool.Platform.{JsonLib}
use xreal_bsp_rgb_tool.Limiter.{RateLimiter, same, last_of, read_message, check}
use xreal_bsp_rgb_tool.Limiter.Spacing.{Spaced, admitted_times, admitted_times-Spaced}

-- Numbers, and objects that hold only a time in nanoseconds.
pub data Document : Type 0 where
  number : ℤ → Document
  stamped : ℤ → Document

number_of : Document → Option ℤ
number_of (number z) = some z
number_of (stamped z) = none

fields_of : Document → Option (List (String × Document))
fields_of (number z) = none
fields_of (stamped z) = some (("timestamp_ns", number z) ∷ [])

abbrev documents : JsonLib
documents = record {
  Json = Document;
  find = λ key d. none;
  as_string = λ d. none;
  as_bool = λ d. none;
  as_int = number_of;
  as_array = λ d. none;
  as_object = fields_of;
  as_float_text = λ d. none;
  parse = λ s. none;
  dump = λ d. "";
  get_int = number_of;
  is_empty = λ d. false;
  null = number (pos 0);
  of_text = λ s. number (pos 0);
  of_bool = λ b. number (pos 0);
  of_int = number;
  of_texts = λ ss. number (pos 0);
  of_fields = λ fs. number (pos 0);
  value_bool = λ d key b. some b;
}

abbrev limiter : RateLimiter
limiter = record { limited = true; interval_ns = pos 10; last_timestamp_ns = [] }

-- Three stamped messages and one that has the clock's time.
abbrev messages : List (ℤ × Document)
messages =
    (pos 1, stamped (pos 12))
    ∷ (pos 2, stamped (pos 15))
    ∷ (pos 30, number (pos 0))
    ∷ (pos 31, stamped (pos 41))
    ∷ []

admitted_times-Spaced_example :
    Spaced
      (pos 10)
      (last_of (pos 0) limiter.last_timestamp_ns)
      (admitted_times documents number_of (pos 0) messages limiter)
admitted_times-Spaced_example =
    admitted_times-Spaced documents number_of (pos 0) messages limiter refl

-- The second message comes too early.
three_admitted :
    admitted_times documents number_of (pos 0) messages limiter ≡ pos 12 ∷ pos 30 ∷ pos 41 ∷ []
unfolding admitted_times check read_message last_of number_of fields_of ◌-ℤ◌ same
three_admitted = refl

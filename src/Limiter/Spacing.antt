-- ===== src/Limiter/Spacing.antt =====
-- The times of the messages that a limiter lets through.
use Prim.{tt}
use xreal_bsp_rgb_tool.Prelude.{
  ◌≡◌, refl, sym, subst, ap, ap₂, ◌∙◌, Bool, true, false, List, [], ◌∷◌, Option, none, some,
  if◌then◌else◌, Bool-cases, inl, inr, arith, if_both,
}
use mathlib.Core.Bool.{false≢true}
use xreal_bsp_rgb_tool.Prelude.Int.{ℤ, pos, negsuc, ltb_ℤ, ◌-ℤ◌}
use xreal_bsp_rgb_tool.Platform.{JsonLib}
use xreal_bsp_rgb_tool.Limiter.{
  RateLimiter, same, last_of, set_last, admit, read_message, check_read, fits_int64, check,
}

-- Each time is at least the interval behind the one before it, the first behind `last`.
abbrev pub Spaced : ℤ → ℤ → List ℤ → Type 0
Spaced interval last [] = Unit {0}
Spaced interval last (t ∷ ts) = (ltb_ℤ (t -ℤ last) interval ≡ false) × Spaced interval t ts

same_refl : (a : ℤ) → same a a ≡ true
unfolding same
same_refl (pos n) = ground arith
same_refl (negsuc n) = ground arith

same_equal : (a b : ℤ) → same a b ≡ true → a ≡ b
unfolding same
same_equal (pos m) (pos n) h = ap pos (ground (arith, h))
same_equal (negsuc m) (negsuc n) h = ap negsuc (ground (arith, h))
same_equal (pos m) (negsuc n) h = cc
same_equal (negsuc m) (pos n) h = cc

same_left : (k type other : ℤ) → same k type ≡ true → same k other ≡ same type other
same_left k type other e = ap (λ a. same a other) (same_equal k type e)

different : (k type other : ℤ) → same k type ≡ false → same k other ≡ true → same type other ≡ false
different k type other e f = elim (Bool-cases (same type other)) [
  | inl g ↦
      let a = same_equal k other f in
      let b = same_equal type other g in
      let c = same_refl other in absurd (false≢true (sym e ∙ ap₂ same a b ∙ c))
  | inr g ↦ g
]

last_of-set_last :
    (type other time : ℤ) (times : List (ℤ × ℤ))
    → last_of other (set_last type time times)
      ≡ (if same type other then time else last_of other times)
unfolding last_of set_last same
last_of-set_last type other time [] = refl
last_of-set_last type other time ((k, t) ∷ rest) = elim (Bool-cases (same k type)) [
  | inl e ↦ elim (Bool-cases (same type other)) [
    | inl f ↦ rw e (rw f refl)
    | inr f ↦ rw e (rw f (rw (same_left k type other e ∙ f) refl))
  ]
  | inr e ↦ elim (Bool-cases (same k other)) [
    | inl f ↦ rw e (rw (f, different k type other e f) refl)
    | inr f ↦ rw e (rw f (last_of-set_last type other time rest))
  ]
]

-- The times behind a message: what was read of it, what check made of it, and the later ones, if the
-- difference did not overflow.
unfoldable pub note_times :
    ℤ → Option (ℤ × ℤ) → Option (RateLimiter × Bool) → RateLimiter → (RateLimiter → List ℤ) → List ℤ
note_times type none none x next = next x
note_times type none (some (y, b)) x next = next y
note_times type (some (k, t)) none x next = []
note_times type (some (k, t)) (some (y, true)) x next = if same k type then t ∷ next y else next y
note_times type (some (k, t)) (some (y, false)) x next = next y

-- The same of a message whose difference fits.
admit-Spaced :
    (type kind t : ℤ) (x : RateLimiter) (next : RateLimiter → List ℤ)
    → ((times : List (ℤ × ℤ))
        → Spaced x.interval_ns (last_of type times) (next (record x { last_timestamp_ns = times })))
    → Spaced x.interval_ns
        (last_of type x.last_timestamp_ns)
        (note_times type (some (kind, t)) (some (admit kind t x)) x next)
unfolding note_times admit
admit-Spaced type kind t x next k =
    elim (Bool-cases (ltb_ℤ (t -ℤ last_of kind x.last_timestamp_ns) x.interval_ns)) [
      | inl e ↦ rw (e, admit) (k x.last_timestamp_ns)
      | inr e ↦
          let times = set_last kind t x.last_timestamp_ns in
          elim (Bool-cases (same kind type)) [
            | inl f ↦
                rw (e, admit)
                  (rw f (
                    subst (λ a. ltb_ℤ (t -ℤ last_of a x.last_timestamp_ns) x.interval_ns ≡ false)
                        (same_equal kind type f) e,
                    subst
                        (λ a.
                          Spaced x.interval_ns a (next (record x { last_timestamp_ns = times })))
                        (last_of-set_last kind type t x.last_timestamp_ns ∙ rw f refl) (k times),
                  ))
            | inr f ↦
                rw (e, admit)
                  (rw f (
                    subst
                      (λ a. Spaced x.interval_ns a (next (record x { last_timestamp_ns = times })))
                      (last_of-set_last kind type t x.last_timestamp_ns ∙ rw f refl) (k times)))
          ]
    ]

-- The later times, of every limiter with the same interval, have the property.
step-Spaced :
    (type : ℤ) (read : Option (ℤ × ℤ)) (x : RateLimiter) (next : RateLimiter → List ℤ)
    → ((times : List (ℤ × ℤ))
        → Spaced x.interval_ns (last_of type times) (next (record x { last_timestamp_ns = times })))
    → Spaced x.interval_ns
        (last_of type x.last_timestamp_ns)
        (note_times type read (check_read read x) x next)
unfolding note_times check_read admit
step-Spaced type none x next k = k x.last_timestamp_ns
step-Spaced type (some (kind, t)) x next k =
    if_both
      (λ r.
        Spaced x.interval_ns (last_of type x.last_timestamp_ns)
          (note_times type (some (kind, t)) r x next))
      (fits_int64 (t -ℤ last_of kind x.last_timestamp_ns)) (admit-Spaced type kind t x next k) tt

module _ (J : JsonLib) (float_ns : J.Json → Option ℤ) where
  -- The times of the messages of a type that are let through, in the order of their arrival, each
  -- message with the clock's time; one at which check throws is not. They end in front of the first
  -- message whose difference overflows, if there is one.
  unfoldable pub admitted_times : ℤ → List (ℤ × J.Json) → RateLimiter → List ℤ
  unfolding note_times
  admitted_times type [] x = []
  admitted_times type ((now, m) ∷ ms) x =
      note_times type (read_message J float_ns now m) (check J float_ns now m x) x
        (admitted_times type ms)

  check_limited :
      (now : ℤ) (m : J.Json) (x : RateLimiter)
      → x.limited ≡ true
      → check J float_ns now m x ≡ check_read (read_message J float_ns now m) x
  unfolding check
  check_limited now m x h =
      ap (λ b. if b then check_read (read_message J float_ns now m) x else some (x, true)) h

  -- The messages of one type that a limiter with a positive frequency lets through, whatever messages of
  -- whatever types arrive in whatever order, with their own times or the clock's, up to the first one, if
  -- any, whose time less the last of its type overflows 64 bits: the time of each is at least the interval
  -- behind the time of the one before it, and the first behind the last time that the limiter has of the
  -- type, or 0.
  pub admitted_times-Spaced :
      (type : ℤ) (messages : List (ℤ × J.Json)) (x : RateLimiter)
      → x.limited ≡ true
      → Spaced x.interval_ns (last_of type x.last_timestamp_ns) (admitted_times type messages x)
  unfolding admitted_times
  admitted_times-Spaced type [] x h = tt
  admitted_times-Spaced type ((now, m) ∷ ms) x h =
      subst
        (λ r.
          Spaced x.interval_ns (last_of type x.last_timestamp_ns)
            (note_times type (read_message J float_ns now m) r x (admitted_times type ms)))
        (sym (check_limited now m x h))
        (step-Spaced type (read_message J float_ns now m) x (admitted_times type ms)
          (λ times. admitted_times-Spaced type ms (record x { last_timestamp_ns = times }) h))

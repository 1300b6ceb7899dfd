-- ===== src/Guide/Percent.antt =====
-- The two percentages of the guide.
use xreal_bsp_rgb_tool.Prelude.{
  ℕ, suc, ◌+◌, ◌*◌, ◌/◌, ◌≤◌, ◌<◌, ◌≡◌, refl, ◌↔◌, List, [], ◌∷◌, length, arith,
}
use native.Mathlib.Nat.{le-div_iff_mul-le, div-mul-le_self, div-lt_iff_lt-mul}
use Prim.{tt}
use xreal_bsp_rgb_tool.Prelude.{if◌then◌else◌, ◌&&◌}
use xreal_bsp_rgb_tool.Guide.{
  GuideCapabilityState, missing, scaffolded, ready, GuideCapabilityItem, structural_score,
  operational_score, total_score, average_percent, structural_percent, operational_percent, Assets,
  SdkInfo, evaluate,
}

-- Every item is ready.
abbrev pub AllReady : List GuideCapabilityItem → Type 0
AllReady [] = Unit {0}
AllReady (item ∷ items) = (item.state ≡ ready) × AllReady items

score_bounds :
    (s : GuideCapabilityState)
    → (operational_score s ≤ structural_score s) × (structural_score s ≤ 100)
unfolding operational_score structural_score
score_bounds missing = (omega arith, omega arith)
score_bounds scaffolded = (omega arith, omega arith)
score_bounds ready = (omega arith, omega arith)

total_bounds :
    (items : List GuideCapabilityItem)
    → (total_score operational_score items ≤ total_score structural_score items)
      × (total_score structural_score items ≤ 100 * length items)
unfolding total_score
total_bounds [] = (omega arith, omega arith)
total_bounds (item ∷ items) =
    let h = score_bounds item.state in
    let t = total_bounds items in (omega (arith, h.0, t.0), omega (arith, h.1, t.1))

div_mono : (a b n : ℕ) → 0 < n → a ≤ b → a / n ≤ b / n
div_mono a b n z h = (le-div_iff_mul-le z).1 (omega (arith, h, div-mul-le_self a n))

-- The operational percentage of a report is at most the structural one, which is at most 100.
pub percent_bounds :
    (items : List GuideCapabilityItem)
    → (operational_percent items ≤ structural_percent items) × (structural_percent items ≤ 100)
unfolding operational_percent structural_percent average_percent
percent_bounds [] = (omega arith, omega arith)
percent_bounds (item ∷ items) =
    let t = total_bounds (item ∷ items) in
    let n = length (item ∷ items) in
    let a = total_score operational_score (item ∷ items) in
    let b = total_score structural_score (item ∷ items) in
    (
      div_mono a b n (omega arith) t.0,
      lt_101 (b / n) ((div-lt_iff_lt-mul (omega arith)).1 (omega (arith, t.1))),
    )
  where
    lt_101 : (x : ℕ) → x < 101 → x ≤ 100
    lt_101 x h = omega arith

-- No sum of scores is full unless each of them is.
full_score :
    (s : GuideCapabilityState) (total n : ℕ)
    → total ≤ 100 * n
    → 100 * suc n ≤ operational_score s + total
    → (s ≡ ready) × (100 * n ≤ total)
unfolding operational_score
full_score ready total n t h = (refl, omega arith)
full_score missing total n t h = absurd (omega arith)
full_score scaffolded total n t h = absurd (omega arith)

ready_of_total :
    (items : List GuideCapabilityItem)
    → 100 * length items ≤ total_score operational_score items
    → AllReady items
unfolding total_score operational_score
ready_of_total [] h = tt
ready_of_total (item ∷ items) h =
    let t = total_bounds items in
    let s =
      full_score item.state (total_score operational_score items) (length items)
        (omega (arith, t.0, t.1)) h in
    (s.0, ready_of_total items s.1)

total_of_ready :
    (items : List GuideCapabilityItem)
    → AllReady items
    → total_score operational_score items ≡ 100 * length items
unfolding total_score operational_score
total_of_ready [] h = omega arith
total_of_ready (item ∷ items) h = ground (arith, total_of_ready items h.1, h.0)

full_div : (n : ℕ) {total : ℕ} → 0 < n → total ≡ 100 * n → total / n ≡ 100
full_div n {total} z e = omega (
  arith,
  (le-div_iff_mul-le {x = 100} {y = total} z).1 (omega (arith, e)),
  (div-lt_iff_lt-mul {x = total} {y = 101} z).1 (omega (arith, e)),
)

-- A report that has items is fully operational exactly if every item is ready.
pub operational_percent_full :
    (item : GuideCapabilityItem) (items : List GuideCapabilityItem)
    → (operational_percent (item ∷ items) ≡ 100) ↔ AllReady (item ∷ items)
unfolding operational_percent average_percent
operational_percent_full item items = (
  λ e. ready_of_total (item ∷ items) ((le-div_iff_mul-le (omega arith)).0 (omega (arith, e))),
  λ r. full_div (length (item ∷ items)) (omega arith) (total_of_ready (item ∷ items) r),
)

-- What `evaluate` reports as operational: two thirds if the SDK files are complete and the runtime fits,
-- a third if only one of them holds, and nothing otherwise. It never reports the guide as fully operational.
pub evaluate_percent :
    (assets : Assets) (sdk : SdkInfo)
    → operational_percent (evaluate assets sdk) ≡ (
        if assets.vendored_wheel_available && assets.vendored_pyi_available
        then (if sdk.runtime_qt_compatible then 66 else 33)
        else (if sdk.runtime_qt_compatible then 33 else 0))
unfolding evaluate operational_percent average_percent total_score operational_score
evaluate_percent assets sdk = ground arith

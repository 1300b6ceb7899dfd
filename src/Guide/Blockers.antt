-- ===== src/Guide/Blockers.antt =====
-- The blocking items of the guide.
use xreal_bsp_rgb_tool.Prelude.{
  ℕ, zero, suc, ◌+◌, ◌≡◌, refl, sym, ◌∙◌, false, not, ◌&&◌, List, [], ◌∷◌, ◌++◌, String,
  if◌then◌else◌, length, take, arith, length-append,
}
use mathlib.Core.List.{append_assoc, append-nil}
use xreal_bsp_rgb_tool.Prelude.Int.{ℤ, pos, negsuc, positive, pos_part}
use xreal_bsp_rgb_tool.Guide.{
  GuideCapabilityItem, Message, is_ready, collect_blockers, blocking_items,
}

-- All items that block and are not ready, in the report's order.
unfoldable pub blockers : List GuideCapabilityItem → List (String × Message)
blockers [] = []
blockers (item ∷ items) =
    if item.blocking && not (is_ready item.state)
    then (item.title, item.detail) ∷ blockers items
    else blockers items

collect_all :
    (limit : ℤ) (acc : List (String × Message)) (items : List GuideCapabilityItem)
    → positive limit ≡ false
    → collect_blockers limit acc items ≡ acc ++ blockers items
unfolding collect_blockers blockers
collect_all limit acc [] h = sym (append-nil acc)
collect_all limit acc (item ∷ items) h = ground (
  arith,
  collect_all limit acc items h,
  collect_all limit (acc ++ (item.title, item.detail) ∷ []) items h,
  append_assoc acc ((item.title, item.detail) ∷ []) (blockers items),
)

collect_some :
    (n k : ℕ) (acc : List (String × Message)) (items : List GuideCapabilityItem)
    → length acc + suc k ≡ n
    → collect_blockers (pos n) acc items ≡ acc ++ take (suc k) (blockers items)
unfolding collect_blockers blockers
collect_some n k acc [] h = sym (append-nil acc)
collect_some n zero acc (item ∷ items) h = ground (
  arith,
  collect_some n 0 acc items h,
  length-append acc ((item.title, item.detail) ∷ []),
  append-nil acc,
)
collect_some n (suc k) acc (item ∷ items) h = ground (
  arith,
  collect_some n (suc k) acc items h,
  collect_some n k (acc ++ (item.title, item.detail) ∷ []) items,
  length-append acc ((item.title, item.detail) ∷ []),
  append_assoc acc ((item.title, item.detail) ∷ []) (take (suc k) (blockers items)),
)

-- With a limit above 0, blockingItems gives that many of the first items that block and are not ready,
-- or all of them if there are fewer; with a limit of 0 or below it gives all of them.
pub blocking_items-take :
    (items : List GuideCapabilityItem) (limit : ℤ)
    → blocking_items items limit
      ≡ (if positive limit then take (pos_part limit) (blockers items) else blockers items)
unfolding blocking_items
blocking_items-take items (pos zero) = collect_all (pos 0) [] items refl
blocking_items-take items (pos (suc k)) =
    collect_some (suc k) k [] items (omega arith) ∙ ground arith
blocking_items-take items (negsuc k) = collect_all (negsuc k) [] items refl

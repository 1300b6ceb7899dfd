-- ===== src/Script/History.antt =====
-- The answers that a dialog field remembers: dialogHistoryKey aside, loadDialogHistory and
-- saveDialogHistory over QSettings, a dictionary of lists of texts.
use text.Mathlib.Text.{◌==◌}
use xreal_bsp_rgb_tool.Prelude.{
  ℕ, zero, suc, Bool, true, false, ◌||◌, List, [], ◌∷◌, Option, none, some, String, ltb,
  if◌then◌else◌, length,
}
use xreal_bsp_rgb_tool.Prelude.Maps.{lookup, insert}
use xreal_bsp_rgb_tool.Platform.{Text}

-- `kDialogHistoryLimit`.
abbrev pub dialog_history_limit : ℕ
dialog_history_limit = 5

abbrev pub Settings : Type 0
Settings = List (String × List String)

-- QStringList::contains, removeAll, removeDuplicates (which keeps the first of equal texts) and
-- removeLast.
unfoldable pub has : String → List String → Bool
has s [] = false
has s (x ∷ xs) = x == s || has s xs

unfoldable pub remove_all : String → List String → List String
remove_all s [] = []
remove_all s (x ∷ xs) = let rest = remove_all s xs in if x == s then rest else x ∷ rest

unfoldable pub remove_duplicates : List String → List String
unfolding remove_all
remove_duplicates [] = []
remove_duplicates (x ∷ xs) = x ∷ remove_all x (remove_duplicates xs)

unfoldable pub remove_last : List String → List String
remove_last [] = []
remove_last (x ∷ []) = []
remove_last (x ∷ y ∷ ys) = x ∷ remove_last (y ∷ ys)

-- `while (values.size() > kDialogHistoryLimit) values.removeLast();` with a round for each value.
unfoldable pub limit_rounds : ℕ → List String → List String
unfolding remove_last
limit_rounds zero values = values
limit_rounds (suc rounds) values = elim (ltb dialog_history_limit (length values)) [
  | true ↦ limit_rounds rounds (remove_last values)
  | false ↦ values
]

unfoldable pub limit_history : List String → List String
unfolding limit_rounds
limit_history values = limit_rounds (length values) values

unfoldable pub stored : Option (List String) → List String
stored none = []
stored (some values) = values

unfoldable pub load_dialog_history : String → Settings → List String
unfolding limit_history remove_duplicates remove_all stored
load_dialog_history key settings =
    limit_history (remove_duplicates (remove_all "" (stored (lookup key settings))))

unfoldable pub save_dialog_history : Text → String → String → Settings → Settings
save_dialog_history q key value settings =
    let trimmed = q.trimmed value in
    if trimmed == ""
    then settings
    else let values = remove_all trimmed (load_dialog_history key settings) in
      insert key (limit_history (trimmed ∷ values)) settings

-- ===== src/Script/Recall.antt =====
-- What a dialog's history gives back.
use Prim.{tt}
use text.Mathlib.Text.{◌==◌}
use xreal_bsp_rgb_tool.Prelude.{
  ℕ, zero, suc, ◌≤◌, ◌≡◌, refl, sym, ap, ◌∙◌, false, List, [], ◌∷◌, some, String, ltb, ltb→lt, ◌-◌,
  ◌<◌, if◌then◌else◌, length, take, arith, eq_iff, eq_refl, Bool-cases, inl, inr,
}
use xreal_bsp_rgb_tool.Prelude.Maps.{lookup, insert, lookup-insert}
use xreal_bsp_rgb_tool.Platform.{Text}
use xreal_bsp_rgb_tool.Script.History.{
  dialog_history_limit, Settings, has, remove_all, remove_duplicates, remove_last, limit_rounds,
  limit_history, stored, load_dialog_history, save_dialog_history,
}

-- No text stands twice.
abbrev pub Distinct : List String → Type 0
Distinct [] = Unit {0}
Distinct (x ∷ xs) = (has x xs ≡ false) × Distinct xs

-- What the program relies on of a history: few, different texts, none empty.
pub record IsHistory (values : List String) : Type 0 where
  pub few : length values ≤ dialog_history_limit
  pub filled : has "" values ≡ false
  pub distinct : Distinct values

take_whole : (n : ℕ) (xs : List String) → length xs ≤ n → take n xs ≡ xs
take_whole zero [] h = refl
take_whole zero (x ∷ xs) h = absurd (omega arith)
take_whole (suc n) [] h = refl
take_whole (suc n) (x ∷ xs) h = ap (◌∷◌ x) (take_whole n xs (omega arith))

length-remove_last : (xs : List String) → length (remove_last xs) ≡ length xs - 1
unfolding remove_last
length-remove_last [] = refl
length-remove_last (x ∷ []) = refl
length-remove_last (x ∷ y ∷ ys) = omega (arith, length-remove_last (y ∷ ys))

take-remove_last : (n : ℕ) (xs : List String) → n < length xs → take n (remove_last xs) ≡ take n xs
unfolding remove_last
take-remove_last zero xs h = refl
take-remove_last (suc n) [] h = absurd (omega arith)
take-remove_last (suc n) (x ∷ []) h = absurd (omega arith)
take-remove_last (suc n) (x ∷ y ∷ ys) h = ap (◌∷◌ x) (take-remove_last n (y ∷ ys) (omega arith))

-- removeLast as long as there are too many keeps the first five.
limit_rounds-take :
    (n : ℕ) (values : List String) → length values ≤ n → limit_rounds n values ≡ take 5 values
unfolding limit_rounds
limit_rounds-take zero values h = sym (take_whole 5 values (omega arith))
limit_rounds-take (suc n) values h = elim (Bool-cases (ltb 5 (length values))) [
  | inl more ↦
      rw (more, limit_rounds)
        (limit_rounds-take n (remove_last values)
            (omega (arith, length-remove_last values, ltb→lt 5 (length values) more))
          ∙ take-remove_last 5 values (ltb→lt 5 (length values) more))
  | inr few ↦ rw (few, limit_rounds) (sym (take_whole 5 values (ground arith)))
]

limit_history-take : (values : List String) → limit_history values ≡ take 5 values
unfolding limit_history
limit_history-take values = limit_rounds-take (length values) values (omega arith)

has-remove_all :
    (a s : String) (xs : List String)
    → has a (remove_all s xs) ≡ (if s == a then false else has a xs)
unfolding has remove_all
has-remove_all a s [] = ground arith
has-remove_all a s (x ∷ xs) =
    ground (arith, eq_iff x s, eq_iff x a, eq_iff s a, has-remove_all a s xs)

remove_all-Distinct : (s : String) (xs : List String) → Distinct xs → Distinct (remove_all s xs)
unfolding remove_all
remove_all-Distinct s [] d = d
remove_all-Distinct s (x ∷ xs) d =
    ground (arith, remove_all-Distinct s xs d.1, has-remove_all x s xs)

remove_all-absent : (s : String) (xs : List String) → has s xs ≡ false → remove_all s xs ≡ xs
unfolding remove_all has
remove_all-absent s [] h = refl
remove_all-absent s (x ∷ xs) h = ground (arith, remove_all-absent s xs)

remove_duplicates-Distinct : (xs : List String) → Distinct (remove_duplicates xs)
unfolding remove_duplicates
remove_duplicates-Distinct [] = tt
remove_duplicates-Distinct (x ∷ xs) = (
  has-remove_all x x (remove_duplicates xs) ∙ rw (eq_refl x) refl,
  remove_all-Distinct x _ (remove_duplicates-Distinct xs),
)

has-remove_duplicates : (a : String) (xs : List String) → has a (remove_duplicates xs) ≡ has a xs
unfolding remove_duplicates has
has-remove_duplicates a [] = refl
has-remove_duplicates a (x ∷ xs) =
    ground (arith, has-remove_all a x (remove_duplicates xs), has-remove_duplicates a xs)

remove_duplicates-id : (xs : List String) → Distinct xs → remove_duplicates xs ≡ xs
unfolding remove_duplicates
remove_duplicates-id [] d = refl
remove_duplicates-id (x ∷ xs) d =
    ap (◌∷◌ x) (ap (remove_all x) (remove_duplicates-id xs d.1) ∙ remove_all-absent x xs d.0)

has-take : (a : String) (n : ℕ) (xs : List String) → has a xs ≡ false → has a (take n xs) ≡ false
unfolding has
has-take a zero xs h = refl
has-take a (suc n) [] h = refl
has-take a (suc n) (x ∷ xs) h = ground (arith, has-take a n xs)

take-Distinct : (n : ℕ) (xs : List String) → Distinct xs → Distinct (take n xs)
take-Distinct zero xs d = tt
take-Distinct (suc n) [] d = tt
take-Distinct (suc n) (x ∷ xs) d = (has-take x n xs d.0, take-Distinct n xs d.1)

length-take-le : (n : ℕ) (xs : List String) → length (take n xs) ≤ n
length-take-le zero xs = omega arith
length-take-le (suc n) [] = omega arith
length-take-le (suc n) (x ∷ xs) = omega (arith, length-take-le n xs)

-- A history that is loaded holds at most five texts, all different and none empty, whatever stands
-- in the settings.
pub load_dialog_history-IsHistory :
    (key : String) (settings : Settings) → IsHistory (load_dialog_history key settings)
unfolding load_dialog_history
load_dialog_history-IsHistory key settings =
    let all = remove_all "" (stored (lookup key settings)) in
    rw (limit_history-take (remove_duplicates all)) (record {
      few = length-take-le 5 (remove_duplicates all);
      filled =
          has-take "" 5 (remove_duplicates all)
            (has-remove_duplicates "" all ∙ has-remove_all "" "" (stored (lookup key settings)));
      distinct = take-Distinct 5 (remove_duplicates all) (remove_duplicates-Distinct all);
    })

-- Loading changes nothing of a list that is a history.
load_id :
    (key : String) (settings : Settings) (values : List String)
    → lookup key settings ≡ some values
    → IsHistory values
    → load_dialog_history key settings ≡ values
unfolding load_dialog_history stored
load_id key settings values e h = rw e (
    rw (remove_all-absent "" values h.filled) (
      rw (remove_duplicates-id values h.distinct)
        (limit_history-take values ∙ take_whole 5 values h.few)))

-- A saved list is a history.
saved_IsHistory :
    (t : String) (old : List String)
    → (t == "") ≡ false
    → IsHistory old
    → IsHistory (take 5 (t ∷ remove_all t old))
unfolding has
saved_IsHistory t old n h = record {
  few = length-take-le 5 (t ∷ remove_all t old);
  filled = ground (arith, has-take "" 4 (remove_all t old), has-remove_all "" t old, h.filled);
  distinct =
      take-Distinct 5 (t ∷ remove_all t old)
        (has-remove_all t t old ∙ rw (eq_refl t) refl, remove_all-Distinct t old h.distinct);
}

load_cong :
    (key : String) (s r : Settings)
    → lookup key s ≡ lookup key r
    → load_dialog_history key s ≡ load_dialog_history key r
unfolding load_dialog_history
load_cong key s r e = rw e refl

load_inserted :
    (key other : String) (values : List String) (settings : Settings)
    → IsHistory values
    → load_dialog_history other (insert key values settings)
      ≡ (if key == other then values else load_dialog_history other settings)
load_inserted key other values settings h = elim (Bool-cases (key == other)) [
  | inl e ↦ rw e (
      load_id other (insert key values settings) values
        (lookup-insert key other values settings ∙ rw e refl) h)
  | inr e ↦ rw e (
      load_cong other (insert key values settings) settings
        (lookup-insert key other values settings ∙ rw e refl))
]

-- The key of the answer that is saved is another's or the same.
load_same :
    (key other : String) (settings : Settings)
    → load_dialog_history other settings ≡ (
        if key == other
        then load_dialog_history key settings
        else load_dialog_history other settings)
load_same key other settings = elim (Bool-cases (key == other)) [
  | inl e ↦ rw e (ap (λ k. load_dialog_history k settings) (sym ((eq_iff key other).0 e)))
  | inr e ↦ rw e refl
]

-- After an answer is saved, the field's history starts with it, trimmed, followed by the former
-- answers without it, five in all at most; an answer that is empty when trimmed changes nothing. The histories of
-- other fields stay.
pub load_dialog_history-save :
    (q : Text) (key other value : String) (settings : Settings)
    → load_dialog_history other (save_dialog_history q key value settings) ≡ (
        if key == other
        then (if q.trimmed value == ""
            then load_dialog_history key settings
            else take 5
                (q.trimmed value ∷ remove_all (q.trimmed value) (load_dialog_history key settings)))
        else load_dialog_history other settings)
unfolding save_dialog_history
load_dialog_history-save q key other value settings =
    let t = q.trimmed value in
    let old = load_dialog_history key settings in
    elim (Bool-cases (t == "")) [
      | inl e ↦ rw (e, save_dialog_history) (load_same key other settings)
      | inr e ↦
          rw (e, save_dialog_history)
            (rw (limit_history-take (t ∷ remove_all t old)) (
              load_inserted key other (take 5 (t ∷ remove_all t old)) settings
                (saved_IsHistory t old e (load_dialog_history-IsHistory key settings))))
    ]

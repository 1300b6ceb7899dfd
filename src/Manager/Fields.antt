-- ===== src/Manager/Fields.antt =====
-- JSON objects that the manager builds or takes apart, as the lists of their fields.
use xreal_bsp_rgb_tool.Prelude.{Bool, false, List, [], ◌∷◌, Option, none, some, String}
use xreal_bsp_rgb_tool.Prelude.Int.{ℤ}
use xreal_bsp_rgb_tool.Prelude.Maps.{lookup}
use xreal_bsp_rgb_tool.Platform.{JsonLib}

-- What follows a step that may have thrown.
infixl 5 ◌>>=◌
abbrev pub ◌>>=◌ {ℓ κ} : {A : Type ℓ} {B : Type κ} → Option A → (A → Option B) → Option B
none >>= f = none
some a >>= f = f a

module _ (J : JsonLib) where
  open J use {Json, as_string, get_int, as_bool, as_object, of_fields, of_bool, of_text}

  abbrev pub Fields : Type 0
  Fields = List (String × Json)

  -- `object.value(key, default)` of a text, a number, a Boolean and any JSON; none where it throws.
  unfoldable pub value_text : String → String → Fields → Option String
  value_text key default fields = elim (lookup key fields) [
    | none ↦ some default
    | some v ↦ as_string v
  ]

  unfoldable pub value_int : String → ℤ → Fields → Option ℤ
  value_int key default fields = elim (lookup key fields) [
    | none ↦ some default
    | some v ↦ get_int v
  ]

  unfoldable pub value_flag : String → Bool → Fields → Option Bool
  value_flag key default fields = elim (lookup key fields) [
    | none ↦ some default
    | some v ↦ as_bool v
  ]

  unfoldable pub value_json : String → Fields → Json
  value_json key fields = elim (lookup key fields) [ none ↦ of_fields [] | some v ↦ v ]

  -- The results {"success", …} and {"success", "message" or "error"}.
  abbrev pub done : Bool → Fields → Fields
  done b rest = ("success", of_bool b) ∷ rest

  abbrev pub with_message : Bool → String → Fields
  with_message b m = done b (("message", of_text m) ∷ [])

  abbrev pub with_error : String → Fields
  with_error e = ("success", of_bool false) ∷ ("error", of_text e) ∷ []

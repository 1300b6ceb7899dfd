-- ===== src/Prelude/Maps.antt =====
-- Dictionaries keyed by text, as association lists: the std::unordered_map, QHash and QMap of the
-- program, wherever only lookup, insertion, removal and presence are observed.
use Prim.Native.String.{String}
use mathlib.Core.Path.{◌≡◌, refl}
use mathlib.Core.Bool.{Bool, true, false}
use mathlib.Core.Option.{Option, none, some}
use mathlib.Core.List.{List, [], ◌∷◌}
use native.Mathlib.Omega.{arith}
use text.Mathlib.Text.{◌==◌}
use text.Mathlib.TextEquality.{eq_iff}
use xreal_bsp_rgb_tool.Prelude.{if◌then◌else◌}

module _ {ℓ} {V : Type ℓ} where
  abbrev pub lookup : String → List (String × V) → Option V
  lookup key [] = none
  lookup key ((name, value) ∷ rest) = if name == key then some value else lookup key rest

  -- `m.erase(k)`.
  abbrev pub erase : String → List (String × V) → List (String × V)
  erase key [] = []
  erase key ((name, value) ∷ rest) =
      if name == key then erase key rest else (name, value) ∷ erase key rest

  abbrev pub contains : String → List (String × V) → Bool
  contains key [] = false
  contains key ((name, value) ∷ rest) = if name == key then true else contains key rest

  -- `m[k] = v`: an entry of the key is replaced where it stands.
  abbrev pub insert : String → V → List (String × V) → List (String × V)
  insert key new [] = (key, new) ∷ []
  insert key new ((name, value) ∷ rest) =
      if name == key then (key, new) ∷ rest else (name, value) ∷ insert key new rest

  pub lookup-erase :
      (key other : String) (entries : List (String × V))
      → lookup other (erase key entries) ≡ (if key == other then none else lookup other entries)
  lookup-erase key other [] = ground arith
  lookup-erase key other ((name, value) ∷ rest) =
      ground
        (lookup-erase key other rest, eq_iff name other, eq_iff name key, eq_iff key other, arith)

  pub lookup-insert :
      (key other : String) (new : V) (entries : List (String × V))
      → lookup other (insert key new entries)
        ≡ (if key == other then some new else lookup other entries)
  lookup-insert key other new [] = refl
  lookup-insert key other new ((name, value) ∷ rest) = ground (
    lookup-insert key other new rest,
    eq_iff name other,
    eq_iff name key,
    eq_iff key other,
    arith,
  )

-- ===== src/Prelude/Tables.antt =====
-- Dictionaries keyed by numbers, as functions: the std::map and std::unordered_map by goal id and by
-- port, of which only lookup, insertion and removal are observed.
use xreal_bsp_rgb_tool.Prelude.{ℕ, Bool, true, false, Option, none, some, ◌==◌, if◌then◌else◌}

abbrev pub Table {ℓ} : Type ℓ → Type ℓ
Table V = ℕ → Option V

module _ {ℓ} {V : Type ℓ} where
  abbrev pub blank : Table V
  blank k = none

  -- `m[k] = v`.
  abbrev pub put : ℕ → V → Table V → Table V
  put k v t j = if k == j then some v else t j

  -- `m.erase(k)`.
  abbrev pub remove : ℕ → Table V → Table V
  remove k t j = if k == j then none else t j

  -- `m.count(k) > 0`.
  abbrev pub has : ℕ → Table V → Bool
  has k t = elim (t k) [ none ↦ false | some v ↦ true ]

  -- `m.emplace(k, v)`: an entry that is there stays.
  abbrev pub emplace : ℕ → V → Table V → Table V
  emplace k v t = if has k t then t else put k v t

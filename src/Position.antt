-- ===== src/Position.antt =====
-- pkg/position/service.go: the layers by name. The map is an association list; the order in which Go
-- ranges over it is not determined, so what ranges takes that order as an argument.
pub mod Layers
pub mod Book
pub mod Manager
use text.Mathlib.Text.{◌==◌}
use stablecoin_mmm.Base.{String, List, [], ◌∷◌, map, Option, none, some, if◌then◌else◌}
use stablecoin_mmm.Base.Int.{ℤ}
use stablecoin_mmm.Base.Float.{Float}
use stablecoin_mmm.Base.Act.{GoError, message, Result, value, error}

pub record Layer (F : Type 0) : Type 0 where
  pub name : String
  pub ratio : F
  pub tick_lower : ℤ
  pub tick_upper : ℤ
  pub position_id : Option ℤ
  pub liquidity : Option ℤ

abbrev pub Positions : Type 0 → Type 0
Positions F = List (String × Layer F)

-- The ways in which the runtime may range over the map.
abbrev pub Order : Type 0 → Type 0
Order F = Positions F → Positions F

module _ {F : Type 0} where
  unfoldable pub new_position_service : Positions F
  new_position_service = []

  -- `positions[name] = layer`
  unfoldable pub put_layer : String → Layer F → Positions F → Positions F
  put_layer k v [] = (k, v) ∷ []
  put_layer k v ((j, w) ∷ m) = if j == k then (k, v) ∷ m else (j, w) ∷ put_layer k v m

  unfoldable pub find_layer : String → Positions F → Option (Layer F)
  find_layer k [] = none
  find_layer k ((j, v) ∷ m) = if j == k then some v else find_layer k m

  unfoldable pub add_layer : String → F → ℤ → ℤ → Option ℤ → Positions F → Positions F
  add_layer name ratio tick_lower tick_upper pos_id s =
      put_layer name
        (record {
          name = name;
          ratio = ratio;
          tick_lower = tick_lower;
          tick_upper = tick_upper;
          position_id = pos_id;
          liquidity = none;
        })
        s

  unfoldable pub get_layers : Order F → Positions F → List (Layer F)
  get_layers order s = map (λ entry. entry.1) (order s)

  abbrev pub found_or_error : Option (Layer F) → Result (Layer F)
  found_or_error (some layer) = value layer
  found_or_error none = error (message "layer not found")

  unfoldable pub get_layer_by_name : String → Positions F → Result (Layer F)
  get_layer_by_name name s = found_or_error (find_layer name s)

module _ {F : Type 0} ⦃f : Float F⦄ where
  -- The loop of `GetTotalRatio`.
  unfoldable pub add_ratios : F → Positions F → F
  add_ratios total [] = total
  add_ratios total ((_, layer) ∷ rest) = add_ratios (f.add total layer.ratio) rest

  unfoldable pub get_total_ratio : Order F → Positions F → F
  unfolding add_ratios
  get_total_ratio order s = add_ratios (f.dec 0 0) (order s)

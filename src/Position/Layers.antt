-- ===== src/Position/Layers.antt =====
-- The map of layers of pkg/position/service.go.
use text.Mathlib.Text.{◌==◌}
use text.Mathlib.TextEquality.{eq_iff}
use stablecoin_mmm.Base.{String, ◌≡◌, refl, [], ◌∷◌, Option, none, some, arith, if◌then◌else◌}
use stablecoin_mmm.Base.Int.{ℤ}
use stablecoin_mmm.Base.Act.{value}
use stablecoin_mmm.Position.{Layer, Positions, put_layer, find_layer, add_layer, get_layer_by_name}

module _ {F : Type 0} where
  pub find_layer-put_layer :
      (k j : String) (v : Layer F) (m : Positions F)
      → find_layer j (put_layer k v m) ≡ (if k == j then some v else find_layer j m)
  unfolding find_layer put_layer
  find_layer-put_layer k j v [] = refl
  find_layer-put_layer k j v ((i, w) ∷ m) =
      ground (arith, eq_iff k j, eq_iff i k, eq_iff i j, find_layer-put_layer k j v m)

  -- After a layer is added, its name yields it and every other name what it yielded before, an error
  -- included.
  pub get_layer_by_name-add_layer :
      (name other : String) (ratio : F) (lower upper : ℤ) (id : Option ℤ) (s : Positions F)
      → get_layer_by_name other (add_layer name ratio lower upper id s) ≡ (
          if name == other
          then value (record {
            name = name;
            ratio = ratio;
            tick_lower = lower;
            tick_upper = upper;
            position_id = id;
            liquidity = none;
          })
          else get_layer_by_name other s)
  unfolding get_layer_by_name add_layer
  get_layer_by_name-add_layer name other ratio lower upper id s =
      rw (find_layer-put_layer name other _ s) (ground arith)

-- Each layer stands under its own name, and no name stands twice.
abbrev pub IsKeyed : {F : Type 0} → Positions F → Type 0
IsKeyed [] = Unit
IsKeyed ((k, layer) ∷ m) = (layer.name ≡ k) × (find_layer k m ≡ none) × IsKeyed m

module _ {F : Type 0} where
  put_layer-IsKeyed :
      (k : String) (v : Layer F) (m : Positions F)
      → v.name ≡ k
      → IsKeyed m
      → IsKeyed (put_layer k v m)
  unfolding put_layer find_layer
  put_layer-IsKeyed k v [] e h = (e, refl, tt)
  put_layer-IsKeyed k v ((j, w) ∷ m) e h =
      ground
        (arith, eq_iff j k, eq_iff k j, find_layer-put_layer k j v m, put_layer-IsKeyed k v m e h.2)

  -- Adding a layer keeps the map keyed by the layers' own names, each once.
  pub add_layer-IsKeyed :
      (name : String) (ratio : F) (lower upper : ℤ) (id : Option ℤ) (s : Positions F)
      → IsKeyed s
      → IsKeyed (add_layer name ratio lower upper id s)
  unfolding add_layer
  add_layer-IsKeyed name ratio lower upper id s h = put_layer-IsKeyed name _ s refl h

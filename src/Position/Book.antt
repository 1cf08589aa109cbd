-- ===== src/Position/Book.antt =====
-- The layers of pkg/position/service.go as a book: the map without the order of its entries.
use mathlib.Core.Quot
use mathlib.Core.Quot.{Quot, Quot-set}
use text.Mathlib.Text.{◌==◌}
use text.Mathlib.TextEquality.{eq_iff}
use stablecoin_mmm.Base.{
  String, ◌≡◌, refl, true, false, Bool-cases, inl, inr, Option, none, some, arith, if◌then◌else◌,
}
use stablecoin_mmm.Base.Int.{ℤ}
use stablecoin_mmm.Position.{Layer, Positions, find_layer, add_layer}
use stablecoin_mmm.Position.Layers.{find_layer-put_layer}

module _ {F : Type 0} where
  -- Two maps that no lookup tells apart.
  abbrev SameLayers : Positions F → Positions F → Type 0
  SameLayers s t = (k : String) → find_layer k s ≡ find_layer k t

-- What `AddLayer` is given.
pub record Added (F : Type 0) : Type 0 where
  pub name : String
  pub ratio : F
  pub tick_lower : ℤ
  pub tick_upper : ℤ
  pub position_id : Option ℤ

abbrev pub Book : Type 0 → Type 0
Book F = Quot (SameLayers {F = F})

abbrev pub layer_of : {F : Type 0} → Added F → Layer F
layer_of a = record {
  name = a.name;
  ratio = a.ratio;
  tick_lower = a.tick_lower;
  tick_upper = a.tick_upper;
  position_id = a.position_id;
  liquidity = none;
}

abbrev pub added : {F : Type 0} → Added F → Positions F → Positions F
added a = add_layer a.name a.ratio a.tick_lower a.tick_upper a.position_id

module _ {F : Type 0} where
  pub find_layer-added :
      (a : Added F) (k : String) (s : Positions F)
      → find_layer k (added a s) ≡ (if a.name == k then some (layer_of a) else find_layer k s)
  unfolding add_layer
  find_layer-added a k s = find_layer-put_layer a.name k (layer_of a) s

  pub added-SameLayers :
      (a : Added F) (s t : Positions F) → SameLayers s t → SameLayers (added a s) (added a t)
  added-SameLayers a s t h k = rw (find_layer-added a k s, find_layer-added a k t, h k) refl

  unfoldable pub add_to_book : Added F → Book F → Book F
  add_to_book a =
      Quot.lift Quot-set (λ s. Quot.mk (added a s)) (λ s t h. Quot.sound (added-SameLayers a s t h))

  -- Two layers of different names.
  commutes :
      (a c : Added F) (s : Positions F)
      → a.name == c.name ≡ false
      → SameLayers (added a (added c s)) (added c (added a s))
  commutes a c s apart k =
      rw
        (
          find_layer-added a k (added c s),
          find_layer-added c k s,
          find_layer-added c k (added a s),
          find_layer-added a k s,
        )
        (ground (arith, eq_iff a.name k, eq_iff c.name k, eq_iff a.name c.name, apart))

  overwrites :
      (a c : Added F) (s : Positions F)
      → a.name == c.name ≡ true
      → SameLayers (added a (added c s)) (added a s)
  overwrites a c s same k =
      rw (find_layer-added a k (added c s), find_layer-added c k s, find_layer-added a k s)
        (ground (arith, eq_iff a.name k, eq_iff c.name k, eq_iff a.name c.name, same))

  -- As a book, the layers do not depend on the order in which layers of different names are added,
  -- and of two layers of one name only the later one stays.
  pub add_to_book_order :
      (a c : Added F) (s : Book F)
      → add_to_book a (add_to_book c s)
        ≡ (if a.name == c.name then add_to_book a s else add_to_book c (add_to_book a s))
  unfolding add_to_book
  add_to_book_order a c =
      Quot.ind (λ s. Quot-set _ _)
        λ s. elim (Bool-cases (a.name == c.name)) [
          | inl same ↦ rw same (Quot.sound (overwrites a c s same))
          | inr apart ↦ rw apart (Quot.sound (commutes a c s apart))
        ]

  -- A lookup does not tell apart what the book does not.
  unfoldable pub find_in_book : IsSet (Option (Layer F)) → String → Book F → Option (Layer F)
  find_in_book set k = Quot.lift set (find_layer k) (λ s t h. h k)

  pub find_in_book-add_to_book :
      (set : IsSet (Option (Layer F))) (a : Added F) (k : String) (s : Book F)
      → find_in_book set k (add_to_book a s)
        ≡ (if a.name == k then some (layer_of a) else find_in_book set k s)
  unfolding find_in_book add_to_book
  find_in_book-add_to_book set a k = Quot.ind (λ s. set _ _) (find_layer-added a k)

-- ===== src/Storage.antt =====
-- `LocalStorageService` of libs/local_storage/src/local_storage.service.ts over node-persist, which
-- is a parameter with what it documents.
pub mod Laws
use trash.Prelude.{
  ℕ, zero, suc, ◌≡◌, Bool, true, false, not, Option, none, some, List, [], ◌∷◌, Text, text_eq,
  if◌then◌else◌,
}

-- A stored value, as far as its truth goes.
pub data Value : Type 0 where
  null undefined nan : Value
  boolean : Bool → Value
  number : ℕ → Value
  string : Text → Value
  -- an object, by what it is printed as
  object : Text → Value

abbrev pub truthy : Value → Bool
truthy null = false
truthy undefined = false
truthy nan = false
truthy (boolean b) = b
truthy (number zero) = false
truthy (number (suc n)) = true
truthy (string []) = false
truthy (string (c ∷ s)) = true
truthy (object s) = true

-- node-persist, of items with no lifetime: `get_item` is `undefined` where there is none.
pub record Persist : Type 1 where
  pub Items : Type 0
  pub set_item : Text → Value → Items → Items
  pub get_item : Text → Items → Value
  pub keys : Items → List Text
  pub remove_item : Text → Items → Items
  pub clear : Items → Items
  pub get-set :
      (j k : Text) (v : Value) (s : Items)
      → get_item j (set_item k v s) ≡ (if text_eq k j then v else get_item j s)
  pub get-remove :
      (j k : Text) (s : Items)
      → get_item j (remove_item k s) ≡ (if text_eq k j then undefined else get_item j s)
  pub get-clear : (j : Text) (s : Items) → get_item j (clear s) ≡ undefined

module _ (storage : Persist) where
  unfoldable pub set : Text → Value → storage.Items → storage.Items
  set key value s = storage.set_item key value s

  -- `if (!item) { return null; }`
  abbrev or_null : Value → Value
  or_null item = if not (truthy item) then null else item

  unfoldable pub get : Text → storage.Items → Value
  get key s = or_null (storage.get_item key s)

  unfoldable pub get_keys : storage.Items → List Text
  get_keys s = storage.keys s

  unfoldable pub remove : Text → storage.Items → storage.Items
  remove key s = storage.remove_item key s

  unfoldable pub clear : storage.Items → storage.Items
  clear s = storage.clear s

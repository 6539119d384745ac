-- ===== src/Storage/Laws.antt =====
-- What `LocalStorageService` reads after a write, a removal or a clear.
use trash.Prelude.{◌≡◌, Text, text_eq, arith, if◌then◌else◌}
use trash.Storage.{Value, null, Persist, truthy, set, get, remove, clear}

module _ (storage : Persist) where
  -- A value that was set is read back if it is truthy, and as null if it is not, so that `0`,
  -- `false` and the empty string are lost; any other key reads as before. After its removal a key
  -- reads as null and any other as before, and after a clear every key reads as null.
  pub storage_lem :
      (j k : Text) (v : Value) (s : storage.Items)
      → (get storage j (set storage k v s)
          ≡ (if text_eq k j then (if truthy v then v else null) else get storage j s))
        × (get storage j (remove storage k s) ≡ (if text_eq k j then null else get storage j s))
        × (get storage j (clear storage s) ≡ null)
  unfolding get set remove clear
  storage_lem j k v s = (
    ground (arith, storage.get-set j k v s),
    ground (arith, storage.get-remove j k s),
    ground (arith, storage.get-clear j s),
  )

-- ===== src/Secrets/Tests.antt =====
-- The theorems about rotation at concrete inputs.
use ai_agent_tool.Common.{◌≢◌, ◌≡◌, sym, refl, true, false, none, some, [], ◌∷◌, arith}
use ai_agent_tool.Common.Map
use ai_agent_tool.Secrets.Store.{SecretsStore, metadata_key, ok, clamp_retain}
use ai_agent_tool.Secrets.Keys.{metadata_key≢key}
use ai_agent_tool.Secrets.Manager.{
  RotateOptions, new_manager, rotate, VersionInfo, load, read_metadata, metadata_of,
  prune_expired_versions, rotate_from, delete_removed,
}
use ai_agent_tool.Secrets.Rotation.{AllOrNothing}
use ai_agent_tool.Secrets.Current.{IsRead, rotate-get_current_value}
use ai_agent_tool.Secrets.Versions.{get_current_value}
use ai_agent_tool.Secrets.Atomic.{rotate-AllOrNothing}
use ai_agent_tool.Secrets.Codec.{json, json-IsFaithful}

-- The secret's new value cannot be stored: the fourth call of the store fails.
abbrev store : SecretsStore
store = record { entries = ("k", "old") ∷ []; faults = false ∷ false ∷ false ∷ true ∷ [] }

abbrev options : RotateOptions
options = record { labels = none; retain = some 2 }

other_key : "k" ≢ metadata_key "k"
other_key e = metadata_key≢key "k" (sym e)

rotate-AllOrNothing_example :
    AllOrNothing
      (new_manager json none none)
      "k"
      "new"
      (record { id = "v1"; created_at = some 70; labels = none })
      "k"
      store.entries
      (rotate (new_manager json none none) store "k" "new" options 60 70 "v1")
unfolding Map.get
rotate-AllOrNothing_example =
    rotate-AllOrNothing json json-IsFaithful none store "k" "new" options 60 70 "v1" "k" other_key
      (omega arith) refl

program : Unit {0}
unfolding rotate load read_metadata metadata_of prune_expired_versions rotate_from delete_removed
    new_manager clamp_retain Map.get Map.set
program = tt

-- Here every call of the rotation goes well, and the one after it fails.
abbrev good_store : SecretsStore
good_store = record {
  entries = ("k", "old") ∷ [];
  faults = false ∷ false ∷ false ∷ false ∷ true ∷ [];
}

abbrev info : VersionInfo
info = record {
  version = record { id = "v1"; created_at = some 70; labels = none };
  is_current = true;
}

returned : (rotate (new_manager json none none) good_store "k" "new" options 60 70 "v1").1 ≡ ok info
unfolding program
returned = refl

rotate-get_current_value_example :
    let m = new_manager json none none in
    let s' = (rotate m good_store "k" "new" options 60 70 "v1").0 in
    IsRead "new" "v1" (get_current_value m (record { entries = s'.entries; faults = [] }) "k" 90).1
unfolding program
rotate-get_current_value_example =
    rotate-get_current_value json json-IsFaithful none good_store "k" "new" options 60 70 90 "v1"
      info refl (omega arith) refl returned

-- ===== src/Secrets/Current.antt =====
-- What is read after a rotation.
use ai_agent_tool.Common.{ℕ, ◌≡◌, refl, sym, false, Option, none, some, [], String, arith, inl, inr}
use ai_agent_tool.Common.Map
use ai_agent_tool.Common.Map.{Map}
use ai_agent_tool.Common.Text.{is_empty}
use ai_agent_tool.Secrets.Store.{SecretsStore, Result, ok, version_key, Json, IsFaithful}
use ai_agent_tool.Secrets.Manager.{new_manager, RotateOptions, VersionInfo, CurrentSecret, rotate}
use ai_agent_tool.Secrets.Versions.{get_current_value, find_version}
use ai_agent_tool.Secrets.Keys.{metadata_key≢key}
use ai_agent_tool.Secrets.Commit.{FailsOnce}
use ai_agent_tool.Secrets.Rotation.{IsDone}
use ai_agent_tool.Secrets.Atomic.{rotate-AllOrNothing, load-reads}

-- The current secret is read as this value and version.
abbrev pub IsRead : (value id : String) → Result (Option CurrentSecret) → Type 0
IsRead value id r = (c : CurrentSecret) × (r ≡ ok (some c)) × (c.value ≡ value) × (c.version ≡ id)

done-IsRead :
    (json : Json) (retain : Option ℕ) (key value id : String) (s : SecretsStore) (later : ℕ)
    → is_empty id ≡ false
    → IsDone (new_manager json retain none) key value id s
    → IsRead value id
        (get_current_value
          (new_manager json retain none)
          (record { entries = s.entries; faults = [] })
          key
          later).1
unfolding get_current_value
done-IsRead json retain key value id s later given (stored, version, (x, read, current)) =
    let opened = load-reads json retain s.entries [] key later refl in
    (
      record {
        value = value;
        version = id;
        created_at = elim (find_version x id) [ none ↦ none | some v ↦ v.created_at ];
        labels = elim (find_version x id) [ none ↦ none | some v ↦ v.labels ];
      },
      rw (opened, read, current, given, stored) refl,
      refl,
      refl,
    )

-- A rotation that returns is seen by the next read. Take JSON that parses what it printed as the
-- same value, with a text that is not empty. Let at most one of the store's calls fail during
-- `rotate`, the new version's id be not empty and not in use, and the manager have no retention
-- window. If `rotate` returns a version, `getCurrentValue`, where the store does not
-- fail, returns the new value and the new version's id.
pub rotate-get_current_value :
    (json : Json) (laws : IsFaithful json) (retain : Option ℕ) (s : SecretsStore)
    (key value : String) (options : RotateOptions) (now created later : ℕ) (id : String)
    (info : VersionInfo)
    → is_empty id ≡ false
    → FailsOnce s.faults
    → Map.get (version_key key id) s.entries ≡ none
    → (rotate (new_manager json retain none) s key value options now created id).1 ≡ ok info
    → let m = new_manager json retain none in
      let s' = (rotate m s key value options now created id).0 in
      IsRead value id
        (get_current_value m (record { entries = s'.entries; faults = [] }) key later).1
rotate-get_current_value json laws retain s key value options now created later id info given once
      fresh returned =
    elim (rotate-AllOrNothing json laws retain s key value options now created id key
      (λ e. metadata_key≢key key (sym e)) once fresh) [
        | inl (r, done) ↦
            done-IsRead json retain key value id
              (rotate (new_manager json retain none) s key value options now created id).0 later
              given done
        | inr ((e, r), undone) ↦ ground (arith, returned, r)
      ]

-- ===== src/Secrets/Versions.antt =====
-- Promotion, queries and removal of versions in
-- services/orchestrator/src/auth/VersionedSecretsManager.ts.
use ai_agent_tool.Common.{
  ℕ, not, Option, none, some, List, ◌∷◌, String, if◌then◌else◌, str_eq, filter, find, map,
}
use ai_agent_tool.Common.Text.{is_given}
use ai_agent_tool.Secrets.Store.{
  SecretsStore, version_not_found, value_missing, Result, ok, thrown, get, set, after,
  StoredVersion, StoredMetadata, metadata_key, version_key,
}
use ai_agent_tool.Secrets.Manager.{
  Manager, VersionInfo, CurrentSecret, write_metadata, load, to_version_info, try_delete,
  delete_removed,
}

abbrev pub find_version : StoredMetadata → String → Option StoredVersion
find_version x id = find (λ v. str_eq v.id id) x.versions

abbrev pub promoted : StoredVersion → StoredMetadata → StoredMetadata
promoted v x = record x {
  current_version = some v.id;
  versions = v ∷ filter (λ w. not (str_eq w.id v.id)) x.versions;
}

-- The last `try` of `promote`; a failure writes the metadata back.
abbrev pub promote_value :
    Manager
    → String
    → StoredVersion
    → StoredMetadata
    → SecretsStore × Result (Unit {0})
    → SecretsStore × Result VersionInfo
promote_value m key v previous (s, ok u) = (s, ok (to_version_info v (some v.id)))
promote_value m key v previous (s, thrown e) = ((write_metadata m s key previous).0, thrown e)

abbrev pub promote_stored :
    Manager
    → String
    → StoredVersion
    → StoredMetadata
    → SecretsStore
    → Option String
    → SecretsStore × Result VersionInfo
promote_stored m key v x s none = (s, thrown value_missing)
promote_stored m key v x s (some value) =
    after (write_metadata m s key (promoted v x))
      (λ s' u. promote_value m key v x (set s' key value))

abbrev pub promote_found :
    Manager
    → String
    → StoredMetadata
    → SecretsStore
    → Option StoredVersion
    → SecretsStore × Result VersionInfo
promote_found m key x s none = (s, thrown version_not_found)
promote_found m key x s (some v) = after (get s (version_key key v.id)) (promote_stored m key v x)

unfoldable pub promote :
    Manager → SecretsStore → (key version_id : String) (now : ℕ) → SecretsStore × Result VersionInfo
unfolding load
promote m s key version_id now =
    after (load m s key now) (λ s' x. promote_found m key x s' (find_version x version_id))

pub record VersionList : Type 0 where
  pub current_version : Option String
  pub retain : ℕ
  pub versions : List VersionInfo

unfoldable pub list_versions :
    Manager → SecretsStore → (key : String) (now : ℕ) → SecretsStore × Result VersionList
unfolding load
list_versions m s key now = after (load m s key now) (λ s' x. (
  s',
  ok (record {
    current_version = x.current_version;
    retain = x.retain;
    versions = map (λ v. to_version_info v x.current_version) x.versions;
  }),
))

abbrev pub current_secret : StoredMetadata → String → Option String → Option CurrentSecret
current_secret x id none = none
current_secret x id (some value) = some (record {
  value = value;
  version = id;
  created_at = elim (find_version x id) [ none ↦ none | some v ↦ v.created_at ];
  labels = elim (find_version x id) [ none ↦ none | some v ↦ v.labels ];
})

abbrev pub read_current :
    String
    → StoredMetadata
    → SecretsStore
    → Option String
    → SecretsStore × Result (Option CurrentSecret)
read_current key x s none = (s, ok none)
read_current key x s (some id) =
    if is_given (some id)
    then after (get s key) (λ s' raw. (s', ok (current_secret x id raw)))
    else (s, ok none)

unfoldable pub get_current_value :
    Manager → SecretsStore → (key : String) (now : ℕ) → SecretsStore × Result (Option CurrentSecret)
unfolding load
get_current_value m s key now =
    after (load m s key now) (λ s' x. read_current key x s' x.current_version)

abbrev pub read_version :
    String
    → StoredMetadata
    → SecretsStore
    → Option StoredVersion
    → SecretsStore × Result (Option CurrentSecret)
read_version key x s none = (s, ok none)
read_version key x s (some v) =
    after (get s (version_key key v.id)) (λ s' raw. (s', ok (current_secret x v.id raw)))

unfoldable pub get_value :
    Manager
    → SecretsStore
    → (key version_id : String) (now : ℕ) → SecretsStore × Result (Option CurrentSecret)
unfolding load
get_value m s key version_id now =
    after (load m s key now) (λ s' x. read_version key x s' (find_version x version_id))

unfoldable pub clear :
    Manager → SecretsStore → (key : String) (now : ℕ) → SecretsStore × Result (Unit {0})
unfolding load delete_removed
clear m s key now = after (load m s key now) (λ s' x.
    (delete_removed (try_delete (try_delete s' key) (metadata_key key)) key x.versions, ok tt))

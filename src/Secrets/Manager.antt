-- ===== src/Secrets/Manager.antt =====
-- The operations of services/orchestrator/src/auth/VersionedSecretsManager.ts. `this.now()` and
-- `this.createId()` are arguments.
use ai_agent_tool.Common.{
  ℕ, ◌+◌, Bool, true, false, not, Option, none, some, List, [], ◌∷◌, String, if◌then◌else◌, ltb,
  str_eq, contains, filter, take, drop,
}
use ai_agent_tool.Common.Map.{Map}
use ai_agent_tool.Common.Text.{is_empty}
use ai_agent_tool.Secrets.Store.{
  SecretsStore, SecretError, unreadable, Result, ok, thrown, get, set, delete, after, StoredVersion,
  StoredMetadata, RawVersion, RawMetadata, Json, clamp_retain, metadata_key, version_key,
}

pub record Manager : Type 0 where
  pub json : Json
  pub default_retain : ℕ
  pub retention_window : Option ℕ

unfoldable pub new_manager : Json → (retain retention_window : Option ℕ) → Manager
unfolding clamp_retain
new_manager json retain retention_window = record {
  json = json;
  default_retain = clamp_retain retain 5;
  retention_window = elim retention_window [
    | none ↦ none
    | some w ↦ if ltb 0 w then some w else none
  ];
}

pub record VersionInfo : Type 0 where
  pub version : StoredVersion
  pub is_current : Bool

pub record CurrentSecret : Type 0 where
  pub value : String
  pub version : String
  pub created_at : Option ℕ
  pub labels : Option (Map String)

abbrev pub no_metadata : Manager → StoredMetadata
no_metadata m = record { current_version = none; versions = []; retain = m.default_retain }

-- The labels whose value is a string.
abbrev pub text_labels : Map (Option String) → Map String
text_labels [] = []
text_labels ((k, none) ∷ m) = text_labels m
text_labels ((k, some t) ∷ m) = (k, t) ∷ text_labels m

abbrev pub labels_of : Option (Map (Option String)) → Option (Map String)
labels_of none = none
labels_of (some m) = some (text_labels m)

-- An item counts where its `id` and `createdAt` are strings.
abbrev pub with_version :
    Option String
    → Option (Option ℕ)
    → Option (Map (Option String))
    → List StoredVersion
    → List StoredVersion
with_version none created_at labels vs = vs
with_version (some id) none labels vs = vs
with_version (some id) (some created_at) labels vs =
    record { id = id; created_at = created_at; labels = labels_of labels } ∷ vs

abbrev pub checked_versions : List RawVersion → List StoredVersion
checked_versions [] = []
checked_versions (v ∷ vs) = with_version v.id v.created_at v.labels (checked_versions vs)

-- No versions where there is no array.
abbrev pub versions_of : Option (List RawVersion) → List StoredVersion
versions_of none = []
versions_of (some vs) = checked_versions vs

-- The checks of the parsed fields.
unfoldable pub parsed : Manager → Option RawMetadata → Result StoredMetadata
unfolding clamp_retain
parsed m none = thrown unreadable
parsed m (some x) = ok (record {
  current_version = x.current_version;
  versions = versions_of x.versions;
  retain = clamp_retain x.retain m.default_retain;
})

-- What the text under the metadata's key stands for.
unfoldable pub metadata_of : Manager → Option String → Result StoredMetadata
unfolding parsed
metadata_of m none = ok (no_metadata m)
metadata_of m (some raw) = if is_empty raw then ok (no_metadata m) else parsed m (m.json.parse raw)

unfoldable pub read_metadata :
    Manager → SecretsStore → String → SecretsStore × Result StoredMetadata
unfolding metadata_of
read_metadata m s key = after (get s (metadata_key key)) (λ s' raw. (s', metadata_of m raw))

abbrev pub write_metadata :
    Manager → SecretsStore → String → StoredMetadata → SecretsStore × Result (Unit {0})
write_metadata m s key x = set s (metadata_key key) (m.json.print x)

abbrev pub is_id : Option String → String → Bool
is_id none id = false
is_id (some current) id = str_eq current id

abbrev pub is_before : Option ℕ → ℕ → ℕ → Bool
is_before none window now = true
is_before (some created_at) window now = ltb (created_at + window) now

-- Older than the window, or with a date that cannot be read; the current version never is.
abbrev pub is_expired : Option String → ℕ → ℕ → StoredVersion → Bool
is_expired current window now v =
    if is_id current v.id then false else is_before v.created_at window now

-- The deletions, and the ids whose deletion went well.
unfoldable pub delete_expired :
    SecretsStore → String → List StoredVersion → SecretsStore × List String
delete_expired s key [] = (s, [])
delete_expired s key (v ∷ vs) =
    let (s', r) = delete s (version_key key v.id) in
    let (s'', ids) = delete_expired s' key vs in
    (s'', elim r [ ok u ↦ v.id ∷ ids | thrown e ↦ ids ])

abbrev pub without_ids : List String → StoredMetadata → StoredMetadata
without_ids ids x = record x { versions = filter (λ v. not (contains v.id ids)) x.versions }

abbrev pub after_deletions :
    Manager
    → String
    → StoredMetadata
    → SecretsStore
    → List String
    → SecretsStore × Result StoredMetadata
after_deletions m key x s [] = (s, ok x)
after_deletions m key x s (id ∷ ids) =
    after (write_metadata m s key (without_ids (id ∷ ids) x))
      (λ s' u. (s', ok (without_ids (id ∷ ids) x)))

abbrev pub prune_window :
    Manager
    → SecretsStore
    → String
    → ℕ
    → StoredMetadata
    → Option ℕ
    → SecretsStore × Result StoredMetadata
unfolding delete_expired
prune_window m s key now x none = (s, ok x)
prune_window m s key now x (some window) =
    let (s', ids) =
      delete_expired s key (filter (is_expired x.current_version window now) x.versions) in
    after_deletions m key x s' ids

unfoldable pub prune_expired_versions :
    Manager
    → SecretsStore
    → String
    → (now : ℕ) → StoredMetadata
    → SecretsStore × Result StoredMetadata
unfolding prune_window
prune_expired_versions m s key now x = prune_window m s key now x m.retention_window

-- The metadata as every operation begins.
unfoldable pub load :
    Manager → SecretsStore → String → (now : ℕ) → SecretsStore × Result StoredMetadata
unfolding read_metadata prune_expired_versions
load m s key now = after (read_metadata m s key) (λ s' x. prune_expired_versions m s' key now x)

abbrev pub to_version_info : StoredVersion → Option String → VersionInfo
to_version_info v current = record { version = v; is_current = is_id current v.id }

-- A deletion in a `try` that ignores its failure.
abbrev pub try_delete : SecretsStore → String → SecretsStore
try_delete s k = (delete s k).0

-- The inner `catch` of `rotate`: the metadata is written back and the version's value deleted, and
-- the outer `catch` deletes it again if that failed.
abbrev pub undo :
    Manager
    → String
    → (version : String) → StoredMetadata
    → SecretError
    → SecretsStore
    → SecretsStore × Result (Unit {0})
undo m key version previous e s =
    let (s', r) = delete (write_metadata m s key previous).0 version in
    (elim r [ ok u ↦ s' | thrown e' ↦ try_delete s' version ], thrown e)

abbrev pub commit_value :
    Manager
    → String
    → (version : String) → StoredMetadata
    → SecretsStore × Result (Unit {0})
    → SecretsStore × Result (Unit {0})
commit_value m key version previous (s, ok u) = (s, ok u)
commit_value m key version previous (s, thrown e) = undo m key version previous e s

-- The outer `try` of `rotate`.
abbrev pub commit :
    Manager
    → String
    → String
    → (version : String) → StoredMetadata
    → SecretsStore × Result (Unit {0})
    → SecretsStore × Result (Unit {0})
commit m key value version previous (s, ok u) =
    commit_value m key version previous (set s key value)
commit m key value version previous (s, thrown e) = (try_delete s version, thrown e)

unfoldable pub delete_removed : SecretsStore → String → List StoredVersion → SecretsStore
delete_removed s key [] = s
delete_removed s key (v ∷ vs) = delete_removed (try_delete s (version_key key v.id)) key vs

pub record RotateOptions : Type 0 where
  pub labels : Option (Map String)
  pub retain : Option ℕ

abbrev pub retain_of : Manager → Option ℕ → StoredMetadata → ℕ
unfolding clamp_retain
retain_of m none x = clamp_retain (some x.retain) m.default_retain
retain_of m (some n) x = clamp_retain (some n) m.default_retain

-- The versions with the new one first.
abbrev pub merged : StoredVersion → StoredMetadata → List StoredVersion
merged v x = v ∷ filter (λ w. not (str_eq w.id v.id)) x.versions

abbrev pub rotated : StoredVersion → ℕ → StoredMetadata → StoredMetadata
rotated v retain x = record {
  current_version = some v.id;
  versions = take retain (merged v x);
  retain = retain;
}

unfoldable pub rotate_from :
    Manager
    → String
    → String
    → StoredVersion
    → (retain : ℕ) → SecretsStore
    → StoredMetadata
    → SecretsStore × Result VersionInfo
unfolding delete_removed
rotate_from m key value v retain s x = after (set s (version_key key v.id) value) (λ s₁ u₁.
    after
      (commit m key value (version_key key v.id) x (write_metadata m s₁ key (rotated v retain x)))
      (λ s₂ u₂.
        (delete_removed s₂ key (drop retain (merged v x)), ok (to_version_info v (some v.id)))))

unfoldable pub rotate :
    Manager
    → SecretsStore
    → (key value : String) → RotateOptions
    → (now created : ℕ) (id : String) → SecretsStore × Result VersionInfo
unfolding load rotate_from
rotate m s key value options now created id = after (load m s key now) (λ s' x.
    rotate_from m key value (record { id = id; created_at = some created; labels = options.labels })
      (retain_of m options.retain x) s' x)

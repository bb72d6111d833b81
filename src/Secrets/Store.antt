-- ===== src/Secrets/Store.antt =====
-- The store that services/orchestrator/src/auth/VersionedSecretsManager.ts writes to, and the
-- metadata that it keeps there. A call of the store fails or not as the list of faults says; a
-- call that fails changes nothing.
use Prim.Native.String.{◌++◌ as append_str}
use ai_agent_tool.Common.{
  fails, rest, ℕ, ◌≡◌, Bool, false, Option, none, some, List, map, String, if◌then◌else◌, ltb,
}
use ai_agent_tool.Common.Map
use ai_agent_tool.Common.Map.{Map}
use ai_agent_tool.Common.Text.{is_empty}

pub record SecretsStore : Type 0 where
  pub entries : Map String
  -- Whether the next calls fail; after the end of the list none does.
  pub faults : List Bool

pub data SecretError : Type 0 where
  store_failed unreadable version_not_found value_missing : SecretError

pub data Result {ℓ} (A : Type ℓ) : Type ℓ where
  ok : A → Result A
  thrown : SecretError → Result A

abbrev pub called : SecretsStore → SecretsStore
called s = record s { faults = rest s.faults }

abbrev pub get : SecretsStore → String → SecretsStore × Result (Option String)
get s k = (called s, if fails s.faults then thrown store_failed else ok (Map.get k s.entries))

abbrev pub set : SecretsStore → String → String → SecretsStore × Result (Unit {0})
set s k v =
    if fails s.faults
    then (called s, thrown store_failed)
    else (record { entries = Map.set k v s.entries; faults = rest s.faults }, ok tt)

abbrev pub delete : SecretsStore → String → SecretsStore × Result (Unit {0})
delete s k =
    if fails s.faults
    then (called s, thrown store_failed)
    else (record { entries = Map.delete k s.entries; faults = rest s.faults }, ok tt)

-- A call after another: an exception skips it.
abbrev pub after {ℓ κ} :
    {A : Type ℓ} {B : Type κ}
    → SecretsStore × Result A
    → (SecretsStore → A → SecretsStore × Result B)
    → SecretsStore × Result B
after (s, ok a) k = k s a
after (s, thrown e) k = (s, thrown e)

pub record StoredVersion : Type 0 where
  pub id : String
  -- None where the text is not a date.
  pub created_at : Option ℕ
  pub labels : Option (Map String)

pub record StoredMetadata : Type 0 where
  pub current_version : Option String
  pub versions : List StoredVersion
  pub retain : ℕ

-- A version as it is parsed, before its fields are checked: `id` and `created_at` are none where
-- they are no strings, `labels` where it is no object, and a label where it is no string.
pub record RawVersion : Type 0 where
  pub id : Option String
  pub created_at : Option (Option ℕ)
  pub labels : Option (Map (Option String))

-- Metadata as it is parsed: `versions` is none where it is no array, and `retain` where it is no
-- number. A `currentVersion`, which the code does not check, is taken to be a string.
pub record RawMetadata : Type 0 where
  pub current_version : Option String
  pub versions : Option (List RawVersion)
  pub retain : Option ℕ

-- `JSON.stringify` on metadata, and `JSON.parse`, which fails on a text that is not JSON.
pub record Json : Type 0 where
  pub print : StoredMetadata → String
  pub parse : String → Option RawMetadata

-- The JSON value of metadata.
abbrev pub raw_version : StoredVersion → RawVersion
raw_version v = record {
  id = some v.id;
  created_at = some v.created_at;
  labels = elim v.labels [ none ↦ none | some m ↦ some (map (λ e. (e.0, some e.1)) m) ];
}

abbrev pub raw_of : StoredMetadata → RawMetadata
raw_of x = record {
  current_version = x.current_version;
  versions = some (map raw_version x.versions);
  retain = some x.retain;
}

-- What is printed is parsed as the same value, and an object's text is not empty.
pub record IsFaithful (j : Json) : Type 0 where
  pub parse-print : (x : StoredMetadata) → j.parse (j.print x) ≡ some (raw_of x)
  pub print-given : (x : StoredMetadata) → is_empty (j.print x) ≡ false

-- On whole numbers; `none` is undefined.
unfoldable pub clamp_retain : (value : Option ℕ) → (fallback : ℕ) → ℕ
clamp_retain none fallback = if ltb fallback 1 then 5 else fallback
clamp_retain (some value) fallback =
    if ltb value 1 then (if ltb fallback 1 then 5 else fallback) else value

abbrev pub metadata_key : String → String
metadata_key key = append_str "secretmeta:" key

abbrev pub version_key : (key id : String) → String
version_key key id = append_str "secretver:" (append_str key (append_str ":" id))

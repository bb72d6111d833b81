-- ===== src/Context.antt =====
-- `SharedContextManager` of services/orchestrator/src/agents/AgentCommunication.ts: values that agents
-- keep under keys and share. A value's type is a parameter. A method's `now` is the clock's reading.
use ai_agent_tool.Common.{
  ℕ, zero, suc, ◌+◌, ◌⊎◌, inl, inr, Bool, true, false, not, ◌&&◌, ◌||◌, Option, none, some, List,
  [], ◌∷◌, String, if◌then◌else◌, ltb, leb, length, map, filter, contains, any, str_eq,
}
use ai_agent_tool.Common.Map
use ai_agent_tool.Common.Map.{Map}
use ai_agent_tool.Common.Keys.{drop_entries}
use ai_agent_tool.Common.Text.{is_empty, is_given}
pub mod Query
pub mod Calls
pub mod Sizes
pub mod Justified
pub mod Readers
mod Tests

pub data ContextScope : Type 0 where
  global_scope pipeline_scope private_scope shared_scope : ContextScope

abbrev pub same_scope : ContextScope → ContextScope → Bool
same_scope global_scope s = elim s [ global_scope ↦ true | _ ↦ false ]
same_scope pipeline_scope s = elim s [ pipeline_scope ↦ true | _ ↦ false ]
same_scope private_scope s = elim s [ private_scope ↦ true | _ ↦ false ]
same_scope shared_scope s = elim s [ shared_scope ↦ true | _ ↦ false ]

-- Of the metadata only the pipeline's id matters.
pub record ContextEntry (V : Type 0) : Type 0 where
  pub key : String
  pub value : V
  pub scope : ContextScope
  pub owner_id : String
  pub created_at : ℕ
  pub updated_at : ℕ
  pub version : ℕ
  pub ttl : Option ℕ
  pub pipeline_id : Option String

pub record SharedContext (V : Type 0) : Type 0 where
  pub max_entries : ℕ
  pub enable_versioning : Bool
  pub entries : Map (ContextEntry V)
  -- The agents that a key is shared with.
  pub access_control : Map (List String)

pub data ContextError : Type 0 where
  store_full access_denied not_owner key_not_found : ContextError

unfoldable pub new_context :
    {V : Type 0} → (max_entries : ℕ) (enable_versioning : Bool) → SharedContext V
new_context max_entries enable_versioning = record {
  max_entries = max_entries;
  enable_versioning = enable_versioning;
  entries = [];
  access_control = [];
}

abbrev pub is_allowed : Option (List String) → String → Bool
is_allowed none agent = false
is_allowed (some agents) agent = contains agent agents

abbrev pub is_pipeline : Option String → String → Bool
is_pipeline none agent = false
is_pipeline (some id) agent = not (is_empty id) && str_eq id agent

-- A lifetime of 0 is none.
abbrev pub is_over : Option ℕ → ℕ → ℕ → Bool
is_over none updated_at now = false
is_over (some t) updated_at now = ltb 0 t && ltb (updated_at + t) now

-- A `Set` takes an agent once.
abbrev pub add_agent : List String → String → List String
add_agent agents agent = if contains agent agents then agents else agent ∷ agents

abbrev pub add_agents : List String → List String → List String
add_agents agents [] = agents
add_agents agents (a ∷ more) = add_agents (add_agent agents a) more

abbrev pub shared_with : Option (List String) → List String → List String
shared_with none agents = add_agents [] agents
shared_with (some l) agents = add_agents l agents

-- It deletes the expired entries and their access lists.
abbrev pub drop_keys : List String → Map (List String) → Map (List String)
drop_keys [] m = m
drop_keys (k ∷ ks) m = drop_keys ks (Map.delete k m)

module _ {V : Type 0} where
  abbrev pub created_of : ℕ → Option (ContextEntry V) → ℕ
  created_of now none = now
  created_of now (some e) = e.created_at

  abbrev pub next_version : Bool → Option (ContextEntry V) → ℕ
  next_version false existing = 1
  next_version true none = 1
  next_version true (some e) = e.version + 1

  unfoldable pub set_value :
      SharedContext V
      → (now : ℕ) (key : String) (value : V) (owner_id : String) (scope : ContextScope)
        (ttl : Option ℕ)
      → SharedContext V × (ContextError ⊎ Unit {0})
  set_value c now key value owner_id scope ttl =
      if leb c.max_entries (length c.entries)
      then (c, inl store_full)
      else (let existing = Map.get key c.entries in
          let e : ContextEntry V = record {
            key = key;
            value = value;
            scope = scope;
            owner_id = owner_id;
            created_at = created_of now existing;
            updated_at = now;
            version = next_version c.enable_versioning existing;
            ttl = ttl;
            pipeline_id = none;
          } in
          (record c { entries = Map.set key e c.entries }, inr tt))

  abbrev pub is_visible : Map (List String) → ContextEntry V → String → ContextScope → Bool
  is_visible access e agent global_scope = true
  is_visible access e agent private_scope = false
  is_visible access e agent shared_scope = is_allowed (Map.get e.key access) agent
  is_visible access e agent pipeline_scope = is_pipeline e.pipeline_id agent

  abbrev pub has_access : Map (List String) → ContextEntry V → String → Bool
  has_access access e agent = str_eq e.owner_id agent || is_visible access e agent e.scope

  abbrev pub is_expired : ℕ → ContextEntry V → Bool
  is_expired now e = is_over e.ttl e.updated_at now

  abbrev pub remove_key : SharedContext V → String → SharedContext V
  remove_key c key = record c {
    entries = Map.delete key c.entries;
    access_control = Map.delete key c.access_control;
  }

  abbrev pub get_found :
      SharedContext V
      → ℕ
      → String
      → String
      → Option (ContextEntry V)
      → SharedContext V × (ContextError ⊎ Option V)
  get_found c now key agent none = (c, inr none)
  get_found c now key agent (some e) =
      if has_access c.access_control e agent
      then (if is_expired now e then (remove_key c key, inr none) else (c, inr (some e.value)))
      else (c, inl access_denied)

  unfoldable pub get_value :
      SharedContext V
      → (now : ℕ) (key requester_id : String) → SharedContext V × (ContextError ⊎ Option V)
  get_value c now key requester_id = get_found c now key requester_id (Map.get key c.entries)

  abbrev pub delete_found :
      SharedContext V
      → String
      → String
      → Option (ContextEntry V)
      → SharedContext V × (ContextError ⊎ Bool)
  delete_found c key agent none = (c, inr false)
  delete_found c key agent (some e) =
      if str_eq e.owner_id agent then (remove_key c key, inr true) else (c, inl not_owner)

  unfoldable pub delete_value :
      SharedContext V → (key requester_id : String) → SharedContext V × (ContextError ⊎ Bool)
  delete_value c key requester_id = delete_found c key requester_id (Map.get key c.entries)

  abbrev pub share_entry : ℕ → ContextEntry V → ContextEntry V
  share_entry now e =
      if same_scope e.scope shared_scope
      then e
      else record e { scope = shared_scope; updated_at = now }

  abbrev pub share_found :
      SharedContext V
      → ℕ
      → String
      → String
      → List String
      → Option (ContextEntry V)
      → SharedContext V × (ContextError ⊎ Unit {0})
  share_found c now key owner_id agents none = (c, inl key_not_found)
  share_found c now key owner_id agents (some e) =
      if str_eq e.owner_id owner_id
      then (
        record c {
          entries = Map.set key (share_entry now e) c.entries;
          access_control =
              Map.set key (shared_with (Map.get key c.access_control) agents) c.access_control;
        },
        inr tt,
      )
      else (c, inl not_owner)

  unfoldable pub share :
      SharedContext V
      → (now : ℕ) (key owner_id : String) (agents : List String)
      → SharedContext V × (ContextError ⊎ Unit {0})
  share c now key owner_id agents = share_found c now key owner_id agents (Map.get key c.entries)

  unfoldable pub cleanup_expired : SharedContext V → (now : ℕ) → SharedContext V
  cleanup_expired c now = record c {
    entries = drop_entries (is_expired now) c.entries;
    access_control =
        drop_keys (map (λ e. e.0) (filter (λ e. is_expired now e.1) c.entries)) c.access_control;
  }

  unfoldable pub shutdown : SharedContext V → SharedContext V
  shutdown c = record c { entries = []; access_control = [] }

  abbrev pub get_entry_count : SharedContext V → ℕ
  get_entry_count c = length c.entries

  abbrev pub get_keys : SharedContext V → Option ContextScope → List String
  get_keys c none = map (λ e. e.0) c.entries
  get_keys c (some scope) =
      map (λ e. e.key) (filter (λ e. same_scope e.scope scope) (Map.values c.entries))

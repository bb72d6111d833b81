-- ===== src/Context/Justified.antt =====
-- What the shared context of services/orchestrator/src/agents/AgentCommunication.ts holds was set,
-- and was shared by its owner.
use ai_agent_tool.Common.{
  ℕ, ◌≡◌, ◌⊎◌, inl, inr, refl, subst, true, Option, none, some, List, [], ◌∷◌, String, arith,
  eq_iff, eq_refl, All, All-map, ◌++◌, IsIn, contains, str_eq, if-cases, if◌then◌else◌, Bool-cases,
  leb, length,
}
use ai_agent_tool.Common.Map
use ai_agent_tool.Common.Map.{Map}
use ai_agent_tool.Common.Keys.{
  AllEntries, IfFound, get-AllEntries, set-AllEntries, delete-AllEntries,
}
use ai_agent_tool.Context.{
  ContextScope, global_scope, shared_scope, same_scope, ContextEntry, SharedContext, created_of,
  next_version, set_value, get_found, delete_found, remove_key, share_entry, shared_with, add_agent,
  add_agents, share_found, drop_keys, has_access, is_expired, store_full, access_denied, not_owner,
}
use ai_agent_tool.Context.Calls.{ContextCall, set_call, share_call, run}

-- An agent set the value under the key, with the scope.
abbrev pub WasSet :
    {V : Type 0} → List (ContextCall V) → (key owner_id : String) → V → ContextScope → Type 0
WasSet calls key owner_id value scope =
    (now : ℕ) × (ttl : Option ℕ) × IsIn (set_call now key value owner_id scope ttl) calls

-- The agent owns the entry under the key.
abbrev pub IsOwner : {V : Type 0} → SharedContext V → (key owner_id : String) → Type 0
IsOwner {V = V} c key owner_id =
    (e : ContextEntry V) × (Map.get key c.entries ≡ some e) × (e.owner_id ≡ owner_id)

-- After the first calls, the agent that owned the key then shared it with the agent.
abbrev pub WasShared :
    {V : Type 0} → SharedContext V → List (ContextCall V) → (key agent : String) → Type 0
WasShared {V = V} c₀ calls key agent =
    (now : ℕ) × (owner_id : String) × (agents : List String) × (before : List (ContextCall V))
    × (after : List (ContextCall V)) × (calls
        ≡ before ++ share_call now key owner_id agents ∷ after)
    × IsOwner (run c₀ before) key owner_id
    × (contains agent agents ≡ true)

-- The agent set the value itself, or it was set for all, or the key's owner shared it.
abbrev pub IsReader :
    {V : Type 0} → SharedContext V → List (ContextCall V) → (key agent : String) → V → Type 0
IsReader c₀ calls key agent value =
    (owner_id : String) × (scope : ContextScope) × WasSet calls key owner_id value scope
    × ((owner_id ≡ agent) ⊎ ((scope ≡ global_scope) ⊎ WasShared c₀ calls key agent))

later : (x y : String) (xs : List String) → contains y xs ≡ true → contains y (x ∷ xs) ≡ true
later x y xs h = ground (arith, h)

contains_each : (xs : List String) → All (λ x. contains x xs ≡ true) xs
contains_each [] = tt
contains_each (x ∷ xs) =
    (rw (eq_refl x) refl, All-map xs (λ y h. later x y xs h) (contains_each xs))

pub contains-All :
    (P : String → Type 0) (x : String) (xs : List String) → contains x xs ≡ true → All P xs → P x
contains-All P x [] h a = ground (arith, h)
contains-All P x (y ∷ ys) h a = elim (Bool-cases (str_eq y x)) [
  | inl e ↦ subst P ((eq_iff y x).0 e) a.0
  | inr e ↦ contains-All P x ys (ground (arith, h, e)) a.1
]

add_agent-All :
    (P : String → Type 0) (xs : List String) (x : String) → P x → All P xs → All P (add_agent xs x)
add_agent-All P xs x p a = if-cases (All P) (contains x xs) xs (x ∷ xs) (λ b. a) (λ b. (p, a))

add_agents-All :
    (P : String → Type 0) (xs ys : List String) → All P ys → All P xs → All P (add_agents xs ys)
add_agents-All P xs [] h a = a
add_agents-All P xs (y ∷ ys) h a =
    add_agents-All P (add_agent xs y) ys h.1 (add_agent-All P xs y h.0 a)

shared_with-All :
    (P : String → Type 0) (o : Option (List String)) (ys : List String)
    → All P ys
    → IfFound (All P) o
    → All P (shared_with o ys)
shared_with-All P none ys h a = add_agents-All P [] ys h tt
shared_with-All P (some xs) ys h a = add_agents-All P xs ys h a

pub drop_keys-AllEntries :
    (P : String → List String → Type 0) (ks : List String) (m : Map (List String))
    → AllEntries P m
    → AllEntries P (drop_keys ks m)
drop_keys-AllEntries P [] m h = h
drop_keys-AllEntries P (k ∷ ks) m h =
    drop_keys-AllEntries P ks (Map.delete k m) (delete-AllEntries P m k h)

module _ {V : Type 0} (c₀ : SharedContext V) (calls : List (ContextCall V)) where
  unfoldable pub IsSetEntry : String → ContextEntry V → Type 0
  IsSetEntry key e =
      (e.key ≡ key)
      × (e.pipeline_id ≡ none)
      × ((scope : ContextScope) × WasSet calls key e.owner_id e.value scope
          × ((e.scope ≡ scope) ⊎ (e.scope ≡ shared_scope)))

  unfoldable pub IsShared : String → List String → Type 0
  IsShared key agents = All (λ a. WasShared c₀ calls key a) agents

  -- The entries were set and the access lists were shared.
  abbrev pub IsJustified : SharedContext V → Type 0
  IsJustified c = AllEntries IsSetEntry c.entries × AllEntries IsShared c.access_control

  abbrev IsJustifiedAfter : {A : Type 0} → SharedContext V × A → Type 0
  IsJustifiedAfter p = IsJustified p.0

  remove-IsJustified :
      (c : SharedContext V) (key : String) → IsJustified c → IsJustified (remove_key c key)
  remove-IsJustified c key h = (
    delete-AllEntries IsSetEntry c.entries key h.0,
    delete-AllEntries IsShared c.access_control key h.1,
  )

  pub set-IsJustified :
      (c : SharedContext V) (now : ℕ) (key : String) (value : V) (owner_id : String)
      (scope : ContextScope) (ttl : Option ℕ)
      → IsIn (set_call now key value owner_id scope ttl) calls
      → IsJustified c
      → IsJustified (set_value c now key value owner_id scope ttl).0
  unfolding set_value IsSetEntry
  set-IsJustified c now key value owner_id scope ttl i h =
      let existing = Map.get key c.entries in
      let e : ContextEntry V = record {
        key = key;
        value = value;
        scope = scope;
        owner_id = owner_id;
        created_at = created_of now existing;
        updated_at = now;
        version = next_version c.enable_versioning existing;
        ttl = ttl;
        pipeline_id = none;
      } in
      if-cases IsJustifiedAfter (leb c.max_entries (length c.entries)) (c, inl store_full)
        (record c { entries = Map.set key e c.entries }, inr tt) (λ b. h)
        (λ b. (
          set-AllEntries IsSetEntry c.entries key e (refl, refl, (scope, (now, ttl, i), inl refl))
              h.0,
          h.1,
        ))

  pub get-IsJustified :
      (c : SharedContext V) (now : ℕ) (key agent : String) (o : Option (ContextEntry V))
      → IsJustified c
      → IsJustified (get_found c now key agent o).0
  get-IsJustified c now key agent none h = h
  get-IsJustified c now key agent (some e) h =
      if-cases IsJustifiedAfter (has_access c.access_control e agent)
        (if is_expired now e then (remove_key c key, inr none) else (c, inr (some e.value)))
        (c, inl access_denied)
        (λ b.
          if-cases IsJustifiedAfter (is_expired now e) (remove_key c key, inr none)
            (c, inr (some e.value)) (λ b'. remove-IsJustified c key h) (λ b'. h))
        (λ b. h)

  pub delete-IsJustified :
      (c : SharedContext V) (key agent : String) (o : Option (ContextEntry V))
      → IsJustified c
      → IsJustified (delete_found c key agent o).0
  delete-IsJustified c key agent none h = h
  delete-IsJustified c key agent (some e) h =
      if-cases IsJustifiedAfter (str_eq e.owner_id agent) (remove_key c key, inr true)
        (c, inl not_owner) (λ b. remove-IsJustified c key h) (λ b. h)

  shared-IsSetEntry :
      (key : String) (now : ℕ) (e : ContextEntry V)
      → IsSetEntry key e
      → IsSetEntry key (share_entry now e)
  unfolding IsSetEntry
  shared-IsSetEntry key now e (k, p, (scope, w, s)) =
      if-cases (IsSetEntry key) (same_scope e.scope shared_scope) e
        (record e { scope = shared_scope; updated_at = now }) (λ b. (k, p, (scope, w, s)))
        (λ b. (k, p, (scope, w, inr refl)))

  pub share-IsJustified :
      (now : ℕ) (key owner_id : String) (agents : List String) (before : List (ContextCall V))
      (after : List (ContextCall V)) (o : Option (ContextEntry V))
      → calls ≡ before ++ share_call now key owner_id agents ∷ after
      → Map.get key (run c₀ before).entries ≡ o
      → IsJustified (run c₀ before)
      → IsJustified (share_found (run c₀ before) now key owner_id agents o).0
  unfolding IsShared
  share-IsJustified now key owner_id agents before after none i s h = h
  share-IsJustified now key owner_id agents before after (some e) i s h =
      let c = run c₀ before in
      let agents' = shared_with (Map.get key c.access_control) agents in
      let is_set : IsSetEntry key e =
        subst (IfFound (IsSetEntry key)) s (get-AllEntries IsSetEntry c.entries key h.0) in
      if-cases IsJustifiedAfter (str_eq e.owner_id owner_id)
        (
          record c {
            entries = Map.set key (share_entry now e) c.entries;
            access_control = Map.set key agents' c.access_control;
          },
          inr tt,
        )
        (c, inl not_owner)
        (λ b.
          let own : IsOwner c key owner_id = (e, s, (eq_iff e.owner_id owner_id).0 b) in
          let given =
            All-map agents (λ a p. (now, owner_id, agents, before, after, i, own, p))
              (contains_each agents) in
          let allowed =
            shared_with-All (λ a. WasShared c₀ calls key a) (Map.get key c.access_control) agents
              given (get-AllEntries IsShared c.access_control key h.1) in
          (
            set-AllEntries IsSetEntry c.entries key (share_entry now e)
                (shared-IsSetEntry key now e is_set) h.0,
            set-AllEntries IsShared c.access_control key agents' allowed h.1,
          ))
        (λ b. h)

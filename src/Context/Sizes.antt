-- ===== src/Context/Sizes.antt =====
-- The shared context of services/orchestrator/src/agents/AgentCommunication.ts never has more entries
-- than it may.
use ai_agent_tool.Common.{
  ℕ, ◌≤◌, ◌≡◌, inl, inr, refl, Bool, true, if◌then◌else◌, Option, none, some, List, [], ◌∷◌, String,
  arith, length, length-filter-le, if-cases, leb, str_eq, not,
}
use ai_agent_tool.Common.Map
use ai_agent_tool.Common.Map.{Map}
use ai_agent_tool.Common.Keys.{length-set_key-le, length-set_key, length-delete-le}
use ai_agent_tool.Context.{
  ContextScope, ContextEntry, SharedContext, new_context, created_of, next_version, set_value,
  get_found, get_value, delete_found, delete_value, remove_key, share_entry, shared_with,
  share_found, share, cleanup_expired, shutdown, has_access, is_expired, store_full, access_denied,
  not_owner,
}
use ai_agent_tool.Context.Calls.{
  ContextCall, set_call, get_call, delete_call, share_call, cleanup_call, shutdown_call, handle,
  run,
}

module _ {V : Type 0} (n : ℕ) where
  abbrev IsBounded : SharedContext V → Type 0
  IsBounded c = (length c.entries ≤ n) × (c.max_entries ≡ n)

  abbrev IsBoundedAfter : {A : Type 0} → SharedContext V × A → Type 0
  IsBoundedAfter p = IsBounded p.0

  remove-IsBounded :
      (c : SharedContext V) (key : String) → IsBounded c → IsBounded (remove_key c key)
  remove-IsBounded c key h = let l = length-delete-le c.entries key in (omega (arith, l, h.0), h.1)

  set-IsBounded :
      (c : SharedContext V) (now : ℕ) (key : String) (value : V) (owner_id : String)
      (scope : ContextScope) (ttl : Option ℕ)
      → IsBounded c
      → IsBounded (set_value c now key value owner_id scope ttl).0
  unfolding set_value
  set-IsBounded c now key value owner_id scope ttl h =
      let existing = Map.get key c.entries in
      let e : ContextEntry V = record {
        key = key;
        value = value;
        scope = scope;
        owner_id = owner_id;
        created_at = created_of now existing;
        updated_at = now;
        version = next_version c.enable_versioning existing;
        ttl = ttl;
        pipeline_id = none;
      } in
      let l = length-set_key-le c.entries key e in
      if-cases IsBoundedAfter (leb c.max_entries (length c.entries)) (c, inl store_full)
        (record c { entries = Map.set key e c.entries }, inr tt) (λ b. h)
        (λ b. (ground (arith, b, h, l), h.1))

  get-IsBounded :
      (c : SharedContext V) (now : ℕ) (key agent : String) (o : Option (ContextEntry V))
      → IsBounded c
      → IsBounded (get_found c now key agent o).0
  get-IsBounded c now key agent none h = h
  get-IsBounded c now key agent (some e) h =
      if-cases IsBoundedAfter (has_access c.access_control e agent)
        (if is_expired now e then (remove_key c key, inr none) else (c, inr (some e.value)))
        (c, inl access_denied)
        (λ b.
          if-cases IsBoundedAfter (is_expired now e) (remove_key c key, inr none)
            (c, inr (some e.value)) (λ b'. remove-IsBounded c key h) (λ b'. h))
        (λ b. h)

  delete-IsBounded :
      (c : SharedContext V) (key agent : String) (o : Option (ContextEntry V))
      → IsBounded c
      → IsBounded (delete_found c key agent o).0
  delete-IsBounded c key agent none h = h
  delete-IsBounded c key agent (some e) h =
      if-cases IsBoundedAfter (str_eq e.owner_id agent) (remove_key c key, inr true)
        (c, inl not_owner) (λ b. remove-IsBounded c key h) (λ b. h)

  share-IsBounded :
      (c : SharedContext V) (now : ℕ) (key owner_id : String) (agents : List String)
      (o : Option (ContextEntry V))
      → Map.get key c.entries ≡ o
      → IsBounded c
      → IsBounded (share_found c now key owner_id agents o).0
  share-IsBounded c now key owner_id agents none found h = h
  share-IsBounded c now key owner_id agents (some e) found h =
      let l = length-set_key c.entries key (share_entry now e) e found in
      if-cases IsBoundedAfter (str_eq e.owner_id owner_id)
        (
          record c {
            entries = Map.set key (share_entry now e) c.entries;
            access_control =
                Map.set key (shared_with (Map.get key c.access_control) agents) c.access_control;
          },
          inr tt,
        )
        (c, inl not_owner) (λ b. (omega (arith, l, h.0), h.1)) (λ b. h)

  handle-IsBounded :
      (c : SharedContext V) (call : ContextCall V) → IsBounded c → IsBounded (handle c call)
  unfolding handle get_value delete_value share cleanup_expired shutdown
  handle-IsBounded c (set_call now key value owner_id scope ttl) h =
      set-IsBounded c now key value owner_id scope ttl h
  handle-IsBounded c (get_call now key agent) h =
      get-IsBounded c now key agent (Map.get key c.entries) h
  handle-IsBounded c (delete_call key agent) h =
      delete-IsBounded c key agent (Map.get key c.entries) h
  handle-IsBounded c (share_call now key owner_id agents) h =
      share-IsBounded c now key owner_id agents (Map.get key c.entries) refl h
  handle-IsBounded c (cleanup_call now) h =
      let l = length-filter-le (λ e. not (is_expired now e.1)) c.entries in
      (omega (arith, l, h.0), h.1)
  handle-IsBounded c shutdown_call h = (omega arith, h.1)

  run-IsBounded :
      (c : SharedContext V) (calls : List (ContextCall V)) → IsBounded c → IsBounded (run c calls)
  unfolding run
  run-IsBounded c [] h = h
  run-IsBounded c (call ∷ calls) h = run-IsBounded (handle c call) calls (handle-IsBounded c call h)

-- The shared context never has more entries than its limit, whatever its methods are called with,
-- from an empty one on.
pub run-le-max_entries :
    {V : Type 0} (max_entries : ℕ) (enable_versioning : Bool) (calls : List (ContextCall V))
    → length (run (new_context max_entries enable_versioning) calls).entries ≤ max_entries
unfolding new_context
run-le-max_entries max_entries enable_versioning calls =
    (run-IsBounded max_entries (new_context max_entries enable_versioning) calls
      (omega arith, refl)).0

-- ===== src/Context/Readers.antt =====
-- Where a value that is read comes from, in the shared context of
-- services/orchestrator/src/agents/AgentCommunication.ts.
use ai_agent_tool.Common.{
  ℕ, ◌≡◌, ◌⊎◌, inl, inr, refl, subst, Bool, true, Option, none, some, List, [], ◌∷◌, String, arith,
  eq_iff, IsIn, ◌++◌, ap, sym, ◌∙◌, str_eq, Bool-cases, map, filter,
}
use ai_agent_tool.Common.Map
use ai_agent_tool.Common.Map.{Map}
use ai_agent_tool.Common.Keys.{AllEntries, IfFound, get-AllEntries, drop-AllEntries}
use ai_agent_tool.Context.{
  ContextScope, global_scope, pipeline_scope, private_scope, shared_scope, ContextEntry,
  SharedContext, new_context, get_found, get_value, delete_value, share, cleanup_expired, shutdown,
  has_access, is_visible, is_allowed, is_pipeline, is_expired,
}
use ai_agent_tool.Context.Calls.{
  ContextCall, set_call, get_call, delete_call, share_call, cleanup_call, shutdown_call, handle,
  run,
}
use ai_agent_tool.Context.Justified.{
  WasShared, IsReader, contains-All, drop_keys-AllEntries, IsSetEntry, IsShared, IsJustified,
  set-IsJustified, get-IsJustified, delete-IsJustified, share-IsJustified,
}

-- The runs of the first calls, one call longer.
run-snoc :
    {V : Type 0} (c : SharedContext V) (before : List (ContextCall V)) (call : ContextCall V)
    → run c (before ++ call ∷ []) ≡ handle (run c before) call
unfolding run
run-snoc c [] call = refl
run-snoc c (x ∷ before) call = run-snoc (handle c x) before call

snoc-append : {A : Type 0} (xs : List A) (y : A) (ys : List A) → (xs ++ y ∷ []) ++ ys ≡ xs ++ y ∷ ys
snoc-append [] y ys = refl
snoc-append (x ∷ xs) y ys = ap (λ l. x ∷ l) (snoc-append xs y ys)

append-nil : {A : Type 0} (xs : List A) → xs ++ [] ≡ xs
append-nil [] = refl
append-nil (x ∷ xs) = ap (λ l. x ∷ l) (append-nil xs)

IsIn-middle : {A : Type 0} (xs : List A) (y : A) (ys : List A) → IsIn y (xs ++ y ∷ ys)
IsIn-middle [] y ys = inl refl
IsIn-middle (x ∷ xs) y ys = inr (IsIn-middle xs y ys)

module _ {V : Type 0} (c₀ : SharedContext V) (calls : List (ContextCall V)) where
  handle-IsJustified :
      (before after : List (ContextCall V)) (call : ContextCall V)
      → calls ≡ before ++ call ∷ after
      → IsJustified c₀ calls (run c₀ before)
      → IsJustified c₀ calls (handle (run c₀ before) call)
  unfolding handle get_value delete_value share cleanup_expired shutdown
  handle-IsJustified before after (set_call now key value owner_id scope ttl) i h =
      set-IsJustified c₀ calls (run c₀ before) now key value owner_id scope ttl
        (subst (IsIn (set_call now key value owner_id scope ttl)) (sym i)
          (IsIn-middle before (set_call now key value owner_id scope ttl) after))
        h
  handle-IsJustified before after (get_call now key agent) i h =
      get-IsJustified c₀ calls (run c₀ before) now key agent (Map.get key (run c₀ before).entries) h
  handle-IsJustified before after (delete_call key agent) i h =
      delete-IsJustified c₀ calls (run c₀ before) key agent (Map.get key (run c₀ before).entries) h
  handle-IsJustified before after (share_call now key owner_id agents) i h =
      share-IsJustified c₀ calls now key owner_id agents before after
        (Map.get key (run c₀ before).entries) i refl h
  handle-IsJustified before after (cleanup_call now) i h =
      let c = run c₀ before in
      (
        drop-AllEntries (IsSetEntry c₀ calls) (is_expired now) c.entries h.0,
        drop_keys-AllEntries (IsShared c₀ calls)
            (map (λ e. e.0) (filter (λ e. is_expired now e.1) c.entries)) c.access_control h.1,
      )
  handle-IsJustified before after shutdown_call i h = (tt, tt)

  run-IsJustified :
      (before after : List (ContextCall V))
      → calls ≡ before ++ after
      → IsJustified c₀ calls (run c₀ before)
      → IsJustified c₀ calls (run c₀ calls)
  run-IsJustified before [] i h =
      subst (λ l. IsJustified c₀ calls (run c₀ l)) (sym (i ∙ append-nil before)) h
  run-IsJustified before (call ∷ after) i h =
      run-IsJustified (before ++ call ∷ []) after (i ∙ sym (snoc-append before call after)) (
        subst (IsJustified c₀ calls) (sym (run-snoc c₀ before call))
          (handle-IsJustified before after call i h))

  allowed-WasShared :
      (key agent : String) (o : Option (List String))
      → IfFound (IsShared c₀ calls key) o
      → is_allowed o agent ≡ true
      → WasShared c₀ calls key agent
  unfolding IsShared
  allowed-WasShared key agent none s b = ground (arith, b)
  allowed-WasShared key agent (some agents) s b =
      contains-All (λ a. WasShared c₀ calls key a) agent agents b s

  visible-WasShared :
      (access : Map (List String)) (e : ContextEntry V) (key agent : String)
      → AllEntries (IsShared c₀ calls) access
      → e.key ≡ key
      → is_visible access e agent shared_scope ≡ true
      → WasShared c₀ calls key agent
  visible-WasShared access e key agent s k b =
      allowed-WasShared key agent (Map.get key access)
        (get-AllEntries (IsShared c₀ calls) access key s)
        (subst (λ i. is_allowed (Map.get i access) agent ≡ true) k b)

  -- Why an agent that is not the owner sees an entry.
  visible_why :
      (access : Map (List String)) (e : ContextEntry V) (key agent : String) (scope : ContextScope)
      → AllEntries (IsShared c₀ calls) access
      → e.key ≡ key
      → e.pipeline_id ≡ none
      → is_visible access e agent scope ≡ true
      → (scope ≡ global_scope) ⊎ WasShared c₀ calls key agent
  visible_why access e key agent global_scope s k p b = inl refl
  visible_why access e key agent private_scope s k p b = ground (arith, b)
  visible_why access e key agent pipeline_scope s k p b =
      let none_sees : is_pipeline none agent ≡ true = subst (λ o. is_pipeline o agent ≡ true) p b in
      ground (arith, none_sees)
  visible_why access e key agent shared_scope s k p b =
      inr (visible-WasShared access e key agent s k b)

  access-IsReader :
      (access : Map (List String)) (e : ContextEntry V) (key agent : String)
      → AllEntries (IsShared c₀ calls) access
      → IsSetEntry c₀ calls key e
      → has_access access e agent ≡ true
      → IsReader c₀ calls key agent e.value
  unfolding IsSetEntry
  access-IsReader access e key agent s (k, p, (scope, w, sc)) b =
      elim (Bool-cases (str_eq e.owner_id agent)) [
        | inl own ↦ (e.owner_id, scope, w, inl ((eq_iff e.owner_id agent).0 own))
        | inr other ↦
            let seen : is_visible access e agent e.scope ≡ true = ground (arith, b, other) in
            let why : (scope ≡ global_scope) ⊎ WasShared c₀ calls key agent = elim sc [
              | inl same ↦
                  visible_why access e key agent scope s k p
                    (subst (λ x. is_visible access e agent x ≡ true) same seen)
              | inr shared ↦ inr (
                  visible-WasShared access e key agent s k
                    (subst (λ x. is_visible access e agent x ≡ true) shared seen))
            ] in
            (e.owner_id, scope, w, inr why)
      ]

  found-IsReader :
      (c : SharedContext V) (now : ℕ) (key agent : String) (value : V) (o : Option (ContextEntry V))
      → IfFound (IsSetEntry c₀ calls key) o
      → AllEntries (IsShared c₀ calls) c.access_control
      → (get_found c now key agent o).1 ≡ inr (some value)
      → IsReader c₀ calls key agent value
  found-IsReader c now key agent value none s a e = ground (arith, e)
  found-IsReader c now key agent value (some x) s a e =
      elim (Bool-cases (has_access c.access_control x agent)) [
        | inl b ↦
            let given : x.value ≡ value = ground (arith, e, b) in
            subst (IsReader c₀ calls key agent) given
              (access-IsReader c.access_control x key agent a s b)
        | inr b ↦ ground (arith, e, b)
      ]

-- Where a value that an agent reads in the shared context comes from. Begin with an empty context
-- and take any calls. If an agent then gets a value under a key, an agent has set this value under
-- this key, and it was the reader itself, or it set the value for all, or some call shared the key
-- with the reader that came from the agent that owned the entry under the key at that moment. (That
-- entry may be an earlier one than the value: an access list outlives it.)
pub get_value-IsReader :
    {V : Type 0} (max_entries : ℕ) (enable_versioning : Bool) (calls : List (ContextCall V))
    (now : ℕ) (key agent : String) (value : V)
    → (get_value (run (new_context max_entries enable_versioning) calls) now key agent).1
      ≡ inr (some value)
    → IsReader (new_context max_entries enable_versioning) calls key agent value
unfolding get_value new_context run
get_value-IsReader max_entries enable_versioning calls now key agent value e =
    let c₀ = new_context max_entries enable_versioning in
    let c = run c₀ calls in
    let h = run-IsJustified c₀ calls [] calls refl (tt, tt) in
    found-IsReader c₀ calls c now key agent value (Map.get key c.entries)
      (get-AllEntries (IsSetEntry c₀ calls) c.entries key h.0) h.1 e

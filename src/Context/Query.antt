-- ===== src/Context/Query.antt =====
-- `query` of the shared context is a page of what the agent may see.
use ai_agent_tool.Common.{
  ℕ, ◌+◌, Bool, true, false, not, ◌&&◌, Option, none, some, List, [], ◌∷◌, String, if◌then◌else◌,
  ltb, leb, any, str_eq, take,
}
use ai_agent_tool.Common.Map
use ai_agent_tool.Common.Map.{Map}
use ai_agent_tool.Common.Text.{is_empty}
use ai_agent_tool.Plans.Service.{starts_with}
use ai_agent_tool.Context.{
  ContextScope, ContextEntry, SharedContext, same_scope, has_access, is_expired,
}

-- A regular expression is the test it makes of a text.
pub record ContextQueryOptions : Type 0 where
  pub scope : Option (List ContextScope)
  pub owner_id : Option String
  pub prefix : Option String
  -- `RegExp.test`, for a pattern without the flags g and y, with which it is stateful.
  pub pattern : Option (String → Bool)
  pub limit : Option ℕ
  pub offset : Option ℕ

abbrev pub is_in_scope : Option (List ContextScope) → ContextScope → Bool
is_in_scope none s = true
is_in_scope (some scopes) s = any (λ x. same_scope x s) scopes

-- An empty text is no condition.
abbrev pub is_owner : Option String → String → Bool
is_owner none s = true
is_owner (some id) s = if is_empty id then true else str_eq s id

unfoldable pub has_prefix : Option String → String → Bool
has_prefix none s = true
has_prefix (some p) s = if is_empty p then true else starts_with p s

abbrev pub is_match : Option (String → Bool) → String → Bool
is_match none s = true
is_match (some test) s = test s

abbrev pub is_reached : Option ℕ → ℕ → Bool
is_reached none taken = false
is_reached (some limit) taken = leb limit taken

abbrev pub offset_of : Option ℕ → ℕ
offset_of none = 0
offset_of (some n) = n

module _ {V : Type 0} where
  -- The entry is of the query's answer, if the page reaches it.
  abbrev pub is_listed :
      Map (List String) → ContextQueryOptions → (agent : String) → ℕ → ContextEntry V → Bool
  unfolding has_prefix
  is_listed access o agent now e =
      has_access access e agent
      && not (is_expired now e)
      && is_in_scope o.scope e.scope
      && is_owner o.owner_id e.owner_id
      && has_prefix o.prefix e.key
      && is_match o.pattern e.key

  -- The loop over the entries, with the entries skipped and taken so far.
  unfoldable pub query_from :
      (listed : ContextEntry V → Bool) (limit : Option ℕ) (offset skipped taken : ℕ)
      → List (ContextEntry V)
      → List (ContextEntry V)
  query_from listed limit offset skipped taken [] = []
  query_from listed limit offset skipped taken (e ∷ es) = elim (is_reached limit taken) [
    | true ↦ []
    | false ↦ elim (listed e) [
      | false ↦ query_from listed limit offset skipped taken es
      | true ↦ elim (ltb skipped offset) [
        | true ↦ query_from listed limit offset (skipped + 1) taken es
        | false ↦ e ∷ query_from listed limit offset skipped (taken + 1) es
      ]
    ]
  ]

  unfoldable pub query :
      SharedContext V
      → (now : ℕ) → ContextQueryOptions
      → (requester_id : String) → List (ContextEntry V)
  unfolding query_from is_listed
  query c now o requester_id =
      query_from (is_listed c.access_control o requester_id now) o.limit (offset_of o.offset) 0 0
        (Map.values c.entries)

-- A page of a list.
abbrev pub page {ℓ} : {A : Type ℓ} → Option ℕ → List A → List A
page none l = l
page (some limit) l = take limit l

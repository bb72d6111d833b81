-- ===== src/Secrets/Rotation.antt =====
-- A rotation is done or undone as a whole, even if the store fails once.
use text.Mathlib.TextLemmas.{append_cancel_left}
use ai_agent_tool.Common.{
  ℕ, ◌≤◌, ◌≡◌, ◌≢◌, ◌⊎◌, inl, inr, refl, sym, ap, ◌∙◌, subst, Bool, true, false, not, Option, none,
  some, List, [], ◌∷◌, String, arith, str_eq, eq_iff, eq_refl, Bool-cases, All, drop, filter, zero,
  suc, str_eq-cases,
}
use ai_agent_tool.Common.Map
use ai_agent_tool.Common.Map.{Map}
use ai_agent_tool.Secrets.Store.{
  SecretsStore, SecretError, store_failed, Result, ok, thrown, metadata_key, version_key,
  StoredVersion, StoredMetadata, Json, IsFaithful, after,
}
use ai_agent_tool.Secrets.Manager.{
  Manager, new_manager, metadata_of, delete_removed, VersionInfo, rotate_from, rotated, merged,
  to_version_info,
}
use ai_agent_tool.Secrets.Keys.{metadata_key≢key, version_key≢key, metadata_key≢version_key}
use ai_agent_tool.Secrets.Commit.{
  FailsOnce, Committed, commit-Committed, get-delete_removed, metadata_of-retain, metadata_of-print,
}

-- The rotation took place: the secret and its new version have the value, and the metadata names
-- the version as the current one.
abbrev pub IsDone : Manager → (key value id : String) → SecretsStore → Type 0
IsDone m key value id s =
    (Map.get key s.entries ≡ some value)
    × (Map.get (version_key key id) s.entries ≡ some value)
    × ((x : StoredMetadata) × (metadata_of m (Map.get (metadata_key key) s.entries) ≡ ok x)
        × (x.current_version ≡ some id))

-- It did not, seen at a key: it has what it had, and the metadata is read as before.
abbrev pub IsUndone : Manager → (key seen : String) → (before after : Map String) → Type 0
IsUndone m key k E E' =
    (Map.get k E' ≡ Map.get k E)
    × (metadata_of m (Map.get (metadata_key key) E') ≡ metadata_of m (Map.get (metadata_key key) E))

abbrev pub AllOrNothing :
    Manager
    → (key value : String) → StoredVersion
    → (seen : String) → Map String
    → SecretsStore × Result VersionInfo
    → Type 0
AllOrNothing m key value v k E (s, r) =
    ((r ≡ ok (record { version = v; is_current = true })) × IsDone m key value v.id s)
    ⊎ (((e : SecretError) × (r ≡ thrown e)) × IsUndone m key k E s.entries)

≢→str_eq : (s t : String) → s ≢ t → str_eq s t ≡ false
≢→str_eq s t h = elim (str_eq-cases s t) [ inl e ↦ ground (arith, h e) | inr ne ↦ ne.0 ]

All-drop :
    (P : StoredVersion → Type 0) (n : ℕ) (vs : List StoredVersion) → All P vs → All P (drop n vs)
All-drop P zero vs h = h
All-drop P (suc n) [] h = h
All-drop P (suc n) (v ∷ vs) h = All-drop P n vs h.1

All-others :
    (P : StoredVersion → Type 0) (id : String) (vs : List StoredVersion)
    → ((w : StoredVersion) → str_eq w.id id ≡ false → P w)
    → All P (filter (λ w. not (str_eq w.id id)) vs)
All-others P id [] f = tt
All-others P id (w ∷ vs) f =
    let rest = All-others P id vs f in
    elim (Bool-cases (str_eq w.id id)) [ inl e ↦ rw e rest | inr e ↦ rw e (f w e, rest) ]

All-removed :
    (P : StoredVersion → Type 0) (n : ℕ) (v : StoredVersion) (x : StoredMetadata)
    → 1 ≤ n
    → ((w : StoredVersion) → str_eq w.id v.id ≡ false → P w)
    → All P (drop n (merged v x))
All-removed P zero v x h f = ground arith
All-removed P (suc n) v x h f =
    All-drop P n (filter (λ w. not (str_eq w.id v.id)) x.versions) (All-others P v.id x.versions f)

version_key-injective : (key i j : String) → version_key key i ≡ version_key key j → i ≡ j
version_key-injective key i j e =
    append_cancel_left ":" i j (append_cancel_left key _ _ (append_cancel_left "secretver:" _ _ e))

-- A version of another id is stored apart.
other-version :
    (key : String) (w v : StoredVersion)
    → str_eq w.id v.id ≡ false
    → version_key key w.id ≢ version_key key v.id
other-version key w v e k =
    let same_id = version_key-injective key w.id v.id k in ground (arith, eq_iff w.id v.id)

module _ (json : Json) (laws : IsFaithful json) (retain : Option ℕ) (key value : String)
    (v : StoredVersion) (n : ℕ) (n≥1 : 1 ≤ n) (E : Map String) (x : StoredMetadata)
    (fresh : Map.get (version_key key v.id) E ≡ none)
    (old : metadata_of (new_manager json retain none) (Map.get (metadata_key key) E) ≡ ok x)
    (k : String) (k≢mk : k ≢ metadata_key key) where
  abbrev m : Manager
  m = new_manager json retain none

  abbrev vk : String
  vk = version_key key v.id

  -- The entries once the version's value is stored.
  abbrev E₁ : Map String
  E₁ = Map.set vk value E

  removed-kept :
      (s : SecretsStore) (j : String)
      → ((w : StoredVersion) → str_eq w.id v.id ≡ false → version_key key w.id ≢ j)
      → Map.get j (delete_removed s key (drop n (merged v x))).entries ≡ Map.get j s.entries
  removed-kept s j f =
      get-delete_removed (drop n (merged v x)) s key j
        (All-removed (λ w. version_key key w.id ≢ j) n v x n≥1 f)

  abbrev mk : String
  mk = metadata_key key

  finish-IsDone :
      (s : SecretsStore)
      → s.entries ≡ Map.set key value (Map.set mk (json.print (rotated v n x)) E₁)
      → IsDone m key value v.id (delete_removed s key (drop n (merged v x)))
  finish-IsDone s e =
      let print = json.print (rotated v n x) in
      (
        removed-kept s key (λ w ne. version_key≢key key w.id)
            ∙ ap (Map.get key) e
            ∙ Map.get-set_self key value (Map.set mk print E₁),
        removed-kept s vk (λ w. other-version key w v)
            ∙ ap (Map.get vk) e
            ∙ Map.get-set_ne key vk value (Map.set mk print E₁)
                (≢→str_eq key vk (λ p. version_key≢key key v.id (sym p)))
            ∙ Map.get-set_ne mk vk print E₁ (≢→str_eq mk vk (metadata_key≢version_key key v.id))
            ∙ Map.get-set_self vk value E,
        (
          rotated v n x,
          ap (metadata_of m) (
                removed-kept s mk (λ w ne p. metadata_key≢version_key key w.id (sym p))
                ∙ ap (Map.get mk) e
                ∙ Map.get-set_ne key mk value (Map.set mk print E₁)
                    (≢→str_eq key mk (λ p. metadata_key≢key key (sym p)))
                ∙ Map.get-set_self mk print E₁)
              ∙ metadata_of-print json laws retain (rotated v n x) n≥1,
          refl,
        ),
      )

  -- The version's value is gone again.
  get-taken_back :
      (k : String) (D : Map String)
      → Map.get k D ≡ Map.get k E₁
      → Map.get k (Map.delete vk D) ≡ Map.get k E
  get-taken_back k D e = elim (str_eq-cases vk k) [
    | inl same_key ↦
        subst (λ j. Map.get j (Map.delete vk D) ≡ Map.get j E) same_key
          (Map.get-delete_self vk D ∙ sym fresh)
    | inr ne ↦ Map.get-delete_ne vk k D ne.0 ∙ e ∙ Map.get-set_ne vk k value E ne.0
  ]

  undo-early : (E' : Map String) → E' ≡ Map.delete vk E₁ → IsUndone m key k E E'
  undo-early E' e = (
    ap (Map.get k) e ∙ get-taken_back k E₁ refl,
    ap (metadata_of m) (ap (Map.get mk) e ∙ get-taken_back mk E₁ refl),
  )

  undo-late :
      (E' : Map String)
      → E' ≡ Map.delete vk (Map.set mk (json.print x) (Map.set mk (json.print (rotated v n x)) E₁))
      → IsUndone m key k E E'
  undo-late E' e =
      let print = json.print (rotated v n x) in
      let vk≢mk = ≢→str_eq vk mk (λ p. metadata_key≢version_key key v.id (sym p)) in
      (
        let differ = ≢→str_eq mk k (λ p. k≢mk (sym p)) in
            ap (Map.get k) e
            ∙ get-taken_back k (Map.set mk (json.print x) (Map.set mk print E₁)) (
                Map.get-set_ne mk k (json.print x) (Map.set mk print E₁) differ
                ∙ Map.get-set_ne mk k print E₁ differ),
        ap (metadata_of m) (
              ap (Map.get mk) e
              ∙ Map.get-delete_ne vk mk (Map.set mk (json.print x) (Map.set mk print E₁)) vk≢mk
              ∙ Map.get-set_self mk (json.print x) (Map.set mk print E₁))
            ∙ metadata_of-print json laws retain x
                (metadata_of-retain json retain (Map.get mk E) x old)
            ∙ sym old,
      )

  finish :
      (p : SecretsStore × Result (Unit {0}))
      → Committed m E₁ key value vk x (rotated v n x) p
      → AllOrNothing m key value v k E (
          after p (λ s u.
            (delete_removed s key (drop n (merged v x)), ok (to_version_info v (some v.id)))))
  unfolding new_manager
  finish (s, ok u) (inl (r, e)) = inl (rw (eq_refl v.id) refl, finish-IsDone s e)
  finish (s, ok u) (inr (r, e)) = ground (arith, r)
  finish (s, thrown f) (inl (r, e)) = ground (arith, r)
  finish (s, thrown f) (inr (r, inl e)) = inr ((f, refl), undo-early s.entries e)
  finish (s, thrown f) (inr (r, inr e)) = inr ((f, refl), undo-late s.entries e)

  pub rotate_from-AllOrNothing :
      (faults : List Bool)
      → FailsOnce faults
      → AllOrNothing m key value v k E
          (rotate_from m key value v n (record { entries = E; faults = faults }) x)
  unfolding rotate_from
  rotate_from-AllOrNothing [] h =
      finish _ (commit-Committed m E₁ [] key value vk x (rotated v n x) h)
  rotate_from-AllOrNothing (false ∷ F) h =
      finish _ (commit-Committed m E₁ F key value vk x (rotated v n x) h)
  rotate_from-AllOrNothing (true ∷ F) h = inr ((store_failed, refl), (refl, refl))

-- ===== src/Secrets/Commit.antt =====
-- The writes of a rotation under at most one fault of the store.
use ai_agent_tool.Common.{
  fails, ℕ, ◌≤◌, ◌≡◌, ◌≢◌, ◌⊎◌, inl, inr, refl, Bool, true, false, Option, none, some, List, [],
  ◌∷◌, String, arith, eq_iff, Bool-cases, count_if, ltb, All, map, ap, ◌∙◌,
}
use ai_agent_tool.Common.Map
use ai_agent_tool.Common.Map.{Map}
use ai_agent_tool.Secrets.Store.{
  SecretsStore, SecretError, store_failed, Result, ok, thrown, metadata_key, version_key,
  StoredVersion, StoredMetadata, RawMetadata, raw_version, raw_of, Json, IsFaithful, clamp_retain,
}
use ai_agent_tool.Secrets.Manager.{
  Manager, new_manager, metadata_of, write_metadata, commit, delete_removed, try_delete, parsed,
  text_labels, with_version, checked_versions,
}
use ai_agent_tool.Common.Text.{is_empty}

-- At most one of the next calls of the store fails.
abbrev pub FailsOnce : List Bool → Type 0
FailsOnce faults = count_if (λ b. b) faults ≤ 1

abbrev pub IsThrown {ℓ} : {A : Type ℓ} → Result A → Type ℓ
IsThrown {A = A} r = (e : SecretError) × (r ≡ thrown e)

-- What the writes of a rotation leave, where `E` was there before.
abbrev pub Committed :
    Manager
    → Map String
    → (key value version : String) (before after : StoredMetadata)
    → SecretsStore × Result (Unit {0})
    → Type 0
Committed m E key value version x y (s, r) =
    ((r ≡ ok tt) × (s.entries ≡ Map.set key value (Map.set (metadata_key key) (m.json.print y) E)))
    ⊎ ((r ≡ thrown store_failed)
        × ((s.entries ≡ Map.delete version E)
            ⊎ (s.entries
                ≡ Map.delete version (
                    Map.set (metadata_key key) (m.json.print x)
                      (Map.set (metadata_key key) (m.json.print y) E)))))

pub commit-Committed :
    (m : Manager) (E : Map String) (faults : List Bool) (key value version : String)
    (x y : StoredMetadata)
    → FailsOnce faults
    → Committed m E key value version x y (
        commit m key value version x
          (write_metadata m (record { entries = E; faults = faults }) key y))
commit-Committed m E [] key value version x y h = inl (refl, refl)
commit-Committed m E (true ∷ []) key value version x y h = inr (refl, inl refl)
commit-Committed m E (true ∷ true ∷ F) key value version x y h = ground arith
commit-Committed m E (true ∷ false ∷ F) key value version x y h = inr (refl, inl refl)
commit-Committed m E (false ∷ []) key value version x y h = inl (refl, refl)
commit-Committed m E (false ∷ false ∷ F) key value version x y h = inl (refl, refl)
commit-Committed m E (false ∷ true ∷ []) key value version x y h = inr (refl, inr refl)
commit-Committed m E (false ∷ true ∷ true ∷ F) key value version x y h = ground arith
commit-Committed m E (false ∷ true ∷ false ∷ []) key value version x y h = inr (refl, inr refl)
commit-Committed m E (false ∷ true ∷ false ∷ true ∷ F) key value version x y h = ground arith
commit-Committed m E (false ∷ true ∷ false ∷ false ∷ F) key value version x y h =
    inr (refl, inr refl)

-- The clean-up after a rotation touches the removed versions only.
pub get-delete_removed :
    (vs : List StoredVersion) (s : SecretsStore) (key k : String)
    → All (λ v. version_key key v.id ≢ k) vs
    → Map.get k (delete_removed s key vs).entries ≡ Map.get k s.entries
unfolding delete_removed
get-delete_removed [] s key k h = refl
get-delete_removed (v ∷ vs) s key k h =
    let rest = get-delete_removed vs (try_delete s (version_key key v.id)) key k h.1 in
    let kept = Map.get-delete (version_key key v.id) k s.entries in
    elim (Bool-cases (fails s.faults)) [
      | inl e ↦ ground (arith, rest)
      | inr e ↦ ground (arith, rest, kept, eq_iff (version_key key v.id) k, h.0)
    ]

clamp_retain-pos : (o : Option ℕ) (n : ℕ) → 1 ≤ clamp_retain o n
unfolding clamp_retain
clamp_retain-pos none n = ground arith
clamp_retain-pos (some v) n = ground arith

parsed-retain :
    (m : Manager) (o : Option RawMetadata) (x : StoredMetadata) → parsed m o ≡ ok x → 1 ≤ x.retain
unfolding parsed
parsed-retain m none x h = ground (arith, h)
parsed-retain m (some r) x h = ground (arith, h, clamp_retain-pos r.retain m.default_retain)

pub metadata_of-retain :
    (json : Json) (retain : Option ℕ) (raw : Option String) (x : StoredMetadata)
    → metadata_of (new_manager json retain none) raw ≡ ok x
    → 1 ≤ x.retain
unfolding metadata_of new_manager
metadata_of-retain json retain none x h = ground (arith, h, clamp_retain-pos retain 5)
metadata_of-retain json retain (some t) x h = elim (Bool-cases (is_empty t)) [
  | inl e ↦ ground (arith, h, e, clamp_retain-pos retain 5)
  | inr e ↦ parsed-retain (new_manager json retain none) (json.parse t) x (ground (arith, h, e))
]

labels_back : (m : Map String) → text_labels (map (λ e. (e.0, some e.1)) m) ≡ m
labels_back [] = refl
labels_back ((k, t) ∷ m) = ap (λ l. (k, t) ∷ l) (labels_back m)

version_back :
    (v : StoredVersion) (o : Option (Map String)) (vs : List StoredVersion)
    → v.labels ≡ o
    → with_version (some v.id) (some v.created_at) (raw_version v).labels vs ≡ v ∷ vs
version_back v none vs e = ground (arith, e)
version_back v (some m) vs e = rw (e, labels_back m) refl

versions_back : (vs : List StoredVersion) → checked_versions (map raw_version vs) ≡ vs
versions_back [] = refl
versions_back (v ∷ vs) =
    version_back v v.labels (checked_versions (map raw_version vs)) refl
    ∙ ap (λ l. v ∷ l) (versions_back vs)

parsed-raw : (m : Manager) (x : StoredMetadata) → 1 ≤ x.retain → parsed m (some (raw_of x)) ≡ ok x
unfolding parsed clamp_retain
parsed-raw m x h =
    let kept : ltb x.retain 1 ≡ false = ground arith in rw (versions_back x.versions, kept) refl

pub metadata_of-print :
    (json : Json) (laws : IsFaithful json) (retain : Option ℕ) (x : StoredMetadata)
    → 1 ≤ x.retain
    → metadata_of (new_manager json retain none) (some (json.print x)) ≡ ok x
unfolding metadata_of new_manager
metadata_of-print json laws retain x h =
    rw (laws.print-given x, laws.parse-print x) (parsed-raw (new_manager json retain none) x h)

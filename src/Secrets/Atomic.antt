-- ===== src/Secrets/Atomic.antt =====
-- `rotate` is all or nothing.
use ai_agent_tool.Common.{
  fails, rest, ℕ, ◌≤◌, ◌≡◌, ◌≢◌, refl, Bool, true, false, Option, none, some, List, [], ◌∷◌, String,
  arith, inl, inr, Bool-cases, subst, sym,
}
use ai_agent_tool.Common.Map
use ai_agent_tool.Common.Map.{Map}
use ai_agent_tool.Secrets.Store.{
  SecretsStore, store_failed, Result, ok, thrown, metadata_key, version_key, StoredVersion,
  StoredMetadata, Json, IsFaithful, clamp_retain, after, called,
}
use ai_agent_tool.Secrets.Manager.{
  Manager, new_manager, metadata_of, RotateOptions, rotate, rotate_from, load, retain_of,
  read_metadata, prune_expired_versions,
}
use ai_agent_tool.Secrets.Commit.{FailsOnce}
use ai_agent_tool.Secrets.Rotation.{AllOrNothing, rotate_from-AllOrNothing}

clamp_retain-pos : (value : Option ℕ) (fallback : ℕ) → 1 ≤ clamp_retain value fallback
unfolding clamp_retain
clamp_retain-pos none fallback = ground arith
clamp_retain-pos (some value) fallback = ground arith

retain_of-pos : (m : Manager) (retain : Option ℕ) (x : StoredMetadata) → 1 ≤ retain_of m retain x
unfolding clamp_retain
retain_of-pos m none x = clamp_retain-pos (some x.retain) m.default_retain
retain_of-pos m (some n) x = clamp_retain-pos (some n) m.default_retain

loaded-AllOrNothing :
    (json : Json) (laws : IsFaithful json) (retain wanted : Option ℕ) (key value : String)
    (v : StoredVersion) (k : String) (E : Map String) (faults : List Bool)
    (r : Result StoredMetadata)
    → k ≢ metadata_key key
    → FailsOnce faults
    → Map.get (version_key key v.id) E ≡ none
    → metadata_of (new_manager json retain none) (Map.get (metadata_key key) E) ≡ r
    → let m = new_manager json retain none in
      AllOrNothing m key value v k E (
        after
          (record { entries = E; faults = faults }, r)
          (λ s x. rotate_from m key value v (retain_of m wanted x) s x))
loaded-AllOrNothing json laws retain wanted key value v k E faults (ok x) k≢mk once fresh old =
    rotate_from-AllOrNothing json laws retain key value v
      (retain_of (new_manager json retain none) wanted x)
      (retain_of-pos (new_manager json retain none) wanted x) E x fresh old k k≢mk faults once
loaded-AllOrNothing json laws retain wanted key value v k E faults (thrown e) k≢mk once fresh old =
    inr ((e, refl), (refl, refl))

-- Without a window nothing is pruned.
prune-nothing :
    (json : Json) (retain : Option ℕ) (s : SecretsStore) (key : String) (now : ℕ)
    (r : Result StoredMetadata)
    → after (s, r) (λ s' x. prune_expired_versions (new_manager json retain none) s' key now x)
      ≡ (s, r)
unfolding prune_expired_versions new_manager
prune-nothing json retain s key now (ok x) = refl
prune-nothing json retain s key now (thrown e) = refl

pub load-reads :
    (json : Json) (retain : Option ℕ) (E : Map String) (faults : List Bool) (key : String) (now : ℕ)
    → fails faults ≡ false
    → load (new_manager json retain none) (record { entries = E; faults = faults }) key now ≡ (
      record { entries = E; faults = rest faults },
      metadata_of (new_manager json retain none) (Map.get (metadata_key key) E),
    )
unfolding load read_metadata
load-reads json retain E [] key now h = prune-nothing json retain _ key now _
load-reads json retain E (false ∷ F) key now h = prune-nothing json retain _ key now _
load-reads json retain E (true ∷ F) key now h = ground arith

load-fails :
    (m : Manager) (s : SecretsStore) (key : String) (now : ℕ)
    → fails s.faults ≡ true
    → load m s key now ≡ (called s, thrown store_failed)
unfolding load read_metadata
load-fails m s key now h = rw h refl

FailsOnce-rest : (faults : List Bool) → FailsOnce faults → FailsOnce (rest faults)
FailsOnce-rest [] h = h
FailsOnce-rest (b ∷ bs) h = ground arith

-- A rotation is all or nothing, even if the store fails once. Let at most one of the store's next
-- calls fail (a call that fails changes nothing), whichever it is; let the new version's id not be
-- in use, the manager have no retention window, and the metadata's JSON be read back as printed.
-- Then either `rotate` returns the new version as current, the secret and the version's entry have
-- the new value, and the metadata names the version as the current one; or it throws, the entry of
-- any key `k` but the metadata's is what it was, and the metadata is read as before.
pub rotate-AllOrNothing :
    (json : Json) (laws : IsFaithful json) (retain : Option ℕ) (s : SecretsStore)
    (key value : String) (options : RotateOptions) (now created : ℕ) (id k : String)
    → k ≢ metadata_key key
    → FailsOnce s.faults
    → Map.get (version_key key id) s.entries ≡ none
    → let m = new_manager json retain none in
      AllOrNothing m key value
        (record { id = id; created_at = some created; labels = options.labels })
        k
        s.entries
        (rotate m s key value options now created id)
unfolding rotate
rotate-AllOrNothing json laws retain s key value options now created id k k≢mk once fresh =
    let m = new_manager json retain none in
    let v : StoredVersion = record {
      id = id;
      created_at = some created;
      labels = options.labels;
    } in
    let go : SecretsStore × Result StoredMetadata → Type 0 = λ p.
      AllOrNothing m key value v k s.entries
        (after p (λ s' x. rotate_from m key value v (retain_of m options.retain x) s' x)) in
    elim (Bool-cases (fails s.faults)) [
      | inl e ↦ subst go (sym (load-fails m s key now e)) (inr ((store_failed, refl), (refl, refl)))
      | inr e ↦ subst go (sym (load-reads json retain s.entries s.faults key now e)) (
          loaded-AllOrNothing json laws retain options.retain key value v k s.entries
            (rest s.faults) (metadata_of m (Map.get (metadata_key key) s.entries)) k≢mk
            (FailsOnce-rest s.faults once) fresh refl)
    ]

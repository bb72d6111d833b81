-- ===== src/Common/Keys.antt =====
-- Facts on the entries of a `Map`: no key stands twice, each value stands under its own key, and
-- entries are dropped by their value.
use Prim.Native.String.{String}
use Prim.Native.Nat.{◌+◌, ◌≤◌}
use mathlib.Core.Path.{◌≡◌, refl, sym, ◌∙◌, subst}
use mathlib.Core.Logic.{inl, inr}
use mathlib.Core.Bool.{Bool, not}
use mathlib.Core.Option.{Option, none, some}
use mathlib.Core.List.{[], ◌∷◌}
use native.Mathlib.Omega.{arith}
use text.Mathlib.TextEquality.{eq_iff}
use ai_agent_tool.Common.Tests.{str_eq, str_eq_comm, Bool-cases}
use ai_agent_tool.Common.Lists.{filter, length}
use ai_agent_tool.Common.Map
use ai_agent_tool.Common.Map.{Map}

-- The entries whose value does not pass a test.
abbrev pub drop_entries {ℓ} : {V : Type ℓ} → (V → Bool) → Map V → Map V
drop_entries p m = filter (λ e. not (p e.1)) m

-- No key stands twice.
abbrev pub AreKeysDistinct {ℓ} : {V : Type ℓ} → Map V → Type ℓ
AreKeysDistinct [] = Unit
AreKeysDistinct ((k, v) ∷ m) = (Map.get k m ≡ none) × AreKeysDistinct m

-- Every value stands under its own key.
abbrev pub AreKeyed {ℓ} : {V : Type ℓ} → (V → String) → Map V → Type 0
AreKeyed key [] = Unit {0}
AreKeyed key ((k, v) ∷ m) = (key v ≡ k) × AreKeyed key m

module _ {ℓ} {V : Type ℓ} (key : V → String) where
  pub get-AreKeyed :
      (m : Map V) (k : String) (v : V) → AreKeyed key m → Map.get k m ≡ some v → key v ≡ k
  unfolding Map.get
  get-AreKeyed [] k v h e = ground arith
  get-AreKeyed ((j, w) ∷ m) k v h e = ground (arith, eq_iff j k, get-AreKeyed m k v h.1)

  pub set-AreKeyed :
      (m : Map V) (k : String) (v : V) → key v ≡ k → AreKeyed key m → AreKeyed key (Map.set k v m)
  unfolding Map.set
  set-AreKeyed [] k v e h = (e, tt)
  set-AreKeyed ((j, w) ∷ m) k v e h = elim (Bool-cases (str_eq j k)) [
    | inl same_key ↦ rw same_key (e ∙ sym ((eq_iff j k).0 same_key), h.1)
    | inr ne ↦ rw ne (h.0, set-AreKeyed m k v e h.1)
  ]

  pub delete-AreKeyed : (m : Map V) (k : String) → AreKeyed key m → AreKeyed key (Map.delete k m)
  unfolding Map.delete
  delete-AreKeyed [] k h = tt
  delete-AreKeyed ((j, w) ∷ m) k h =
      let rest = delete-AreKeyed m k h.1 in
      elim (Bool-cases (str_eq j k)) [ inl e ↦ rw e rest | inr e ↦ rw e (h.0, rest) ]

  pub drop-AreKeyed : (p : V → Bool) (m : Map V) → AreKeyed key m → AreKeyed key (drop_entries p m)
  drop-AreKeyed p [] h = tt
  drop-AreKeyed p ((j, w) ∷ m) h =
      let rest = drop-AreKeyed p m h.1 in
      elim (Bool-cases (p w)) [ inl e ↦ rw e rest | inr e ↦ rw e (h.0, rest) ]

module _ {ℓ} {V : Type ℓ} where
  pub set-AreKeysDistinct :
      (m : Map V) (k : String) (v : V) → AreKeysDistinct m → AreKeysDistinct (Map.set k v m)
  unfolding Map.set Map.get
  set-AreKeysDistinct [] k v h = (refl, tt)
  set-AreKeysDistinct ((j, w) ∷ m) k v h =
      let absent = Map.get-set k j v m in
      elim (Bool-cases (str_eq j k)) [
        | inl same_key ↦ rw same_key h
        | inr ne ↦ rw ne (absent ∙ rw (str_eq_comm k j, ne) h.0, set-AreKeysDistinct m k v h.1)
      ]

  get-delete-none :
      (m : Map V) (k j : String) → Map.get j m ≡ none → Map.get j (Map.delete k m) ≡ none
  get-delete-none m k j h = ground (arith, Map.get-delete k j m)

  pub delete-AreKeysDistinct :
      (m : Map V) (k : String) → AreKeysDistinct m → AreKeysDistinct (Map.delete k m)
  unfolding Map.delete
  delete-AreKeysDistinct [] k h = tt
  delete-AreKeysDistinct ((j, w) ∷ m) k h =
      let rest = delete-AreKeysDistinct m k h.1 in
      let gone = get-delete-none m k j h.0 in
      elim (Bool-cases (str_eq j k)) [ inl e ↦ rw e rest | inr e ↦ rw e (gone, rest) ]

  get-drop_none :
      (p : V → Bool) (m : Map V) (k : String)
      → Map.get k m ≡ none
      → Map.get k (drop_entries p m) ≡ none
  unfolding Map.get
  get-drop_none p [] k h = refl
  get-drop_none p ((j, w) ∷ m) k h = ground (arith, get-drop_none p m k)

  pub drop-AreKeysDistinct :
      (p : V → Bool) (m : Map V) → AreKeysDistinct m → AreKeysDistinct (drop_entries p m)
  drop-AreKeysDistinct p [] h = tt
  drop-AreKeysDistinct p ((j, w) ∷ m) h =
      let rest = drop-AreKeysDistinct p m h.1 in
      let gone = get-drop_none p m j h.0 in
      elim (Bool-cases (p w)) [ inl e ↦ rw e rest | inr e ↦ rw e (gone, rest) ]

-- A predicate on every key and its value.
abbrev pub AllEntries {ℓ κ} : {V : Type ℓ} → (String → V → Type κ) → Map V → Type κ
AllEntries P [] = Unit
AllEntries P ((k, v) ∷ m) = P k v × AllEntries P m

-- What is found satisfies it.
abbrev pub IfFound {ℓ κ} : {V : Type ℓ} → (V → Type κ) → Option V → Type κ
IfFound P none = Unit
IfFound P (some v) = P v

module _ {ℓ κ} {V : Type ℓ} (P : String → V → Type κ) where
  pub get-AllEntries : (m : Map V) (k : String) → AllEntries P m → IfFound (P k) (Map.get k m)
  unfolding Map.get
  get-AllEntries [] k h = tt
  get-AllEntries ((j, w) ∷ m) k h =
      let rest = get-AllEntries m k h.1 in
      elim (Bool-cases (str_eq j k)) [
        | inl e ↦ (let here = subst (λ i. P i w) ((eq_iff j k).0 e) h.0 in rw e here)
        | inr e ↦ rw e rest
      ]

  pub set-AllEntries :
      (m : Map V) (k : String) (v : V) → P k v → AllEntries P m → AllEntries P (Map.set k v m)
  unfolding Map.set
  set-AllEntries [] k v p h = (p, tt)
  set-AllEntries ((j, w) ∷ m) k v p h =
      let rest = set-AllEntries m k v p h.1 in
      elim (Bool-cases (str_eq j k)) [
        | inl e ↦ (let here = subst (λ i. P i v) (sym ((eq_iff j k).0 e)) p in rw e (here, h.1))
        | inr e ↦ rw e (h.0, rest)
      ]

  pub delete-AllEntries : (m : Map V) (k : String) → AllEntries P m → AllEntries P (Map.delete k m)
  unfolding Map.delete
  delete-AllEntries [] k h = tt
  delete-AllEntries ((j, w) ∷ m) k h =
      let rest = delete-AllEntries m k h.1 in
      elim (Bool-cases (str_eq j k)) [ inl e ↦ rw e rest | inr e ↦ rw e (h.0, rest) ]

  pub drop-AllEntries :
      (p : V → Bool) (m : Map V) → AllEntries P m → AllEntries P (drop_entries p m)
  drop-AllEntries p [] h = tt
  drop-AllEntries p ((j, w) ∷ m) h =
      let rest = drop-AllEntries p m h.1 in
      elim (Bool-cases (p w)) [ inl e ↦ rw e rest | inr e ↦ rw e (h.0, rest) ]

-- The number of entries.
module _ {ℓ} {V : Type ℓ} where
  pub length-set_key-le : (m : Map V) (k : String) (v : V) → length (Map.set k v m) ≤ length m + 1
  unfolding Map.set
  length-set_key-le [] k v = omega arith
  length-set_key-le ((j, w) ∷ m) k v = ground (arith, length-set_key-le m k v)

  pub length-set_key :
      (m : Map V) (k : String) (v w : V) → Map.get k m ≡ some w → length (Map.set k v m) ≡ length m
  unfolding Map.set Map.get
  length-set_key [] k v w h = ground (arith, h)
  length-set_key ((j, x) ∷ m) k v w h = ground (arith, length-set_key m k v w, h)

  pub length-delete-le : (m : Map V) (k : String) → length (Map.delete k m) ≤ length m
  unfolding Map.delete
  length-delete-le [] k = omega arith
  length-delete-le ((j, w) ∷ m) k = ground (arith, length-delete-le m k)

-- ===== src/Secrets/Codec.antt =====
-- A way to print metadata that can be read back, for the tests. Numbers are in unary; lists and
-- texts have their length first.
use Prim.Native.Char.{Char, code}
use ai_agent_tool.Common.{
  ℕ, zero, suc, ◌≡◌, refl, ap, ◌∙◌, Option, none, some, List, [], ◌∷◌, String, if◌then◌else◌, ◌==◌,
  length, map,
}
use ai_agent_tool.Common.Map.{Map}
use ai_agent_tool.Secrets.Store.{
  StoredVersion, StoredMetadata, RawMetadata, raw_of, Json, IsFaithful,
}

-- A printer puts a value before a text; a reader takes it off again.
record Format {ℓ} (A : Type ℓ) : Type ℓ where
  put : A → String → String
  take_off : String → Option (A × String)
  back : (a : A) (s : String) → take_off (put a s) ≡ some (a, s)

abbrev chain {ℓ κ} :
    {A : Type ℓ} {B : Type κ} → Option (A × String) → (A → String → Option B) → Option B
chain none k = none
chain (some (a, s)) k = k a s

put_nat : ℕ → String → String
put_nat zero s = String.◌∷◌ "0" s
put_nat (suc n) s = String.◌∷◌ "1" (put_nat n s)

abbrev next_nat : Option (ℕ × String) → Option (ℕ × String)
next_nat none = none
next_nat (some (n, s)) = some (suc n, s)

take_nat : String → Option (ℕ × String)
take_nat String.[] = none
take_nat (String.◌∷◌ c s) =
    let rest = next_nat (take_nat s) in if code c == 49 then rest else some (0, s)

nat-back : (n : ℕ) (s : String) → take_nat (put_nat n s) ≡ some (n, s)
unfolding put_nat take_nat
nat-back zero s = refl
nat-back (suc n) s = ap next_nat (nat-back n s)

nat : Format ℕ
nat = record { put = put_nat; take_off = take_nat; back = nat-back }

module _ {ℓ} {A : Type ℓ} (f : Format A) where
  put_all : List A → String → String
  put_all [] s = s
  put_all (a ∷ l) s = f.put a (put_all l s)

  take_all : ℕ → String → Option (List A × String)
  take_all zero s = some ([], s)
  take_all (suc n) s =
      chain (f.take_off s) (λ a s'. chain (take_all n s') (λ l s''. some (a ∷ l, s'')))

  all-back : (l : List A) (s : String) → take_all (length l) (put_all l s) ≡ some (l, s)
  unfolding put_all take_all
  all-back [] s = refl
  all-back (a ∷ l) s = rw (f.back a (put_all l s), all-back l s) refl

  put_list : List A → String → String
  put_list l s = put_nat (length l) (put_all l s)

  take_list : String → Option (List A × String)
  take_list s = chain (take_nat s) take_all

  list-back : (l : List A) (s : String) → take_list (put_list l s) ≡ some (l, s)
  unfolding put_list take_list
  list-back l s = rw (nat-back (length l) (put_all l s), all-back l s) refl

  list : Format (List A)
  list = record { put = put_list; take_off = take_list; back = list-back }

  put_option : Option A → String → String
  put_option none s = put_nat 0 s
  put_option (some a) s = put_nat 1 (f.put a s)

  abbrev take_some : ℕ → String → Option (Option A × String)
  take_some zero s = some (none, s)
  take_some (suc n) s = chain (f.take_off s) (λ a s'. some (some a, s'))

  take_option : String → Option (Option A × String)
  take_option s = chain (take_nat s) take_some

  option-back : (o : Option A) (s : String) → take_option (put_option o s) ≡ some (o, s)
  unfolding put_option take_option
  option-back none s = rw (nat-back 0 s) refl
  option-back (some a) s = rw (nat-back 1 (f.put a s), f.back a s) refl

  option : Format (Option A)
  option = record { put = put_option; take_off = take_option; back = option-back }

module _ {ℓ κ} {A : Type ℓ} {B : Type κ} (f : Format A) (g : Format B) where
  pair : Format (A × B)
  pair = record {
    put = λ p s. f.put p.0 (g.put p.1 s);
    take_off =
        λ s. chain (f.take_off s) (λ a s'. chain (g.take_off s') (λ b s''. some ((a, b), s'')));
    back = λ p s. rw (f.back p.0 (g.put p.1 s), g.back p.1 s) refl;
  }

put_chars : String → String → String
put_chars String.[] s = s
put_chars (String.◌∷◌ c t) s = String.◌∷◌ c (put_chars t s)

size : String → ℕ
size String.[] = 0
size (String.◌∷◌ c t) = suc (size t)

abbrev next_char : Char → Option (String × String) → Option (String × String)
next_char c none = none
next_char c (some (t, s)) = some (String.◌∷◌ c t, s)

take_chars : ℕ → String → Option (String × String)
take_chars zero s = some (String.[], s)
take_chars (suc n) String.[] = none
take_chars (suc n) (String.◌∷◌ c s) = next_char c (take_chars n s)

chars-back : (t s : String) → take_chars (size t) (put_chars t s) ≡ some (t, s)
unfolding put_chars take_chars size
chars-back String.[] s = refl
chars-back (String.◌∷◌ c t) s = ap (next_char c) (chars-back t s)

text : Format String
text = record {
  put = λ t s. put_nat (size t) (put_chars t s);
  take_off = λ s. chain (take_nat s) take_chars;
  back = λ t s. rw (nat-back (size t) (put_chars t s), chars-back t s) refl;
}

abbrev Plain : Type 0
Plain = Option String × (List (String × (Option ℕ × Option (Map String))) × ℕ)

plain : Format Plain
plain =
    pair (option text)
      (pair (list (pair text (pair (option nat) (option (list (pair text text)))))) nat)

-- The fields of metadata, and back.
abbrev fields : StoredMetadata → Plain
fields x = (x.current_version, (map (λ v. (v.id, (v.created_at, v.labels))) x.versions, x.retain))

abbrev version : String × (Option ℕ × Option (Map String)) → StoredVersion
version v = record { id = v.0; created_at = v.1.0; labels = v.1.1 }

abbrev metadata : Plain → StoredMetadata
metadata p = record { current_version = p.0; versions = map version p.1.0; retain = p.1.1 }

version-fields :
    (vs : List StoredVersion) → map version (map (λ v. (v.id, (v.created_at, v.labels))) vs) ≡ vs
version-fields [] = refl
version-fields (v ∷ vs) = ap (λ l. v ∷ l) (version-fields vs)

abbrev whole : Option (Plain × String) → Option RawMetadata
whole none = none
whole (some (p, s)) = some (raw_of (metadata p))

pub json : Json
json = record {
  print = λ x. String.◌∷◌ "m" (plain.put (fields x) String.[]);
  parse = λ s. elim s [ String.[] ↦ none | String.◌∷◌ c t ↦ whole (plain.take_off t) ];
}

pub json-IsFaithful : IsFaithful json
unfolding json
json-IsFaithful = record {
  parse-print = λ x.
      ap whole (plain.back (fields x) String.[])
      ∙ ap (λ vs. some (raw_of (record x { versions = vs }))) (version-fields x.versions);
  print-given = λ x. refl;
}

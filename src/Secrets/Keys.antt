-- ===== src/Secrets/Keys.antt =====
-- The keys under which a secret, its metadata and its versions are stored differ.
use Prim.Native.Char.{code}
use Prim.Native.String.{◌++◌ as append_str, count}
use text.Mathlib.TextLemmas.{
  append_cancel_left, append_assoc, cons-append, head-eq_of_cons-eq, length-append,
}
use ai_agent_tool.Common.{◌≡◌, ◌≢◌, sym, ap, ◌∙◌, String, arith}
use ai_agent_tool.Secrets.Store.{metadata_key, version_key}

longer : (p k : String) → append_str p k ≡ k → count p ≡ 0
longer p k e = let l = ap count e in let m = length-append p k in omega arith

pub metadata_key≢key : (key : String) → metadata_key key ≢ key
metadata_key≢key key e = let l = longer "secretmeta:" key e in ground arith

pub version_key≢key : (key id : String) → version_key key id ≢ key
version_key≢key key id e =
    let l = ap count e in
    let m = length-append "secretver:" (append_str key (append_str ":" id)) in
    let n = length-append key (append_str ":" id) in omega arith

pub metadata_key≢version_key : (key id : String) → metadata_key key ≢ version_key key id
metadata_key≢version_key key id e =
    let tail = append_str key (append_str ":" id) in
    let meta =
      append_cancel_left "secret" (append_str "meta:" key) (append_str "ver:" tail)
        (sym (append_assoc "secret" "meta:" key) ∙ e ∙ append_assoc "secret" "ver:" tail) in
    let heads =
      head-eq_of_cons-eq (sym (cons-append "m" "eta:" key) ∙ meta ∙ cons-append "v" "er:" tail) in
    let codes = ap code heads in omega arith

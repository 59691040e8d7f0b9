-- ===== src/Store/NodeChecks.antt =====
-- internal/store/nodes.go: what is accepted of a node. The texts of the errors are left out, and
-- net/url, strings.TrimSpace and strings.ToLower are parameters.
use Prim.Native.Char.{Char, char, code}
use local_ai_proxy.Prelude.{
  ℕ, zero, suc, ◌+◌, ◌-◌, Bool, true, false, ◌&&◌, ◌||◌, not, Option, none, some, String, List, [],
  ◌∷◌, ◌++◌, leb, if◌then◌else◌, ◌==◌, ℕ_key, String_key, length,
}
use local_ai_proxy.Prelude.Int.{ℤ, pos, leb_ℤ}
use local_ai_proxy.Prelude.Text.{chars, text, all_in}
use local_ai_proxy.Store.Nodes.{NodeRow}

-- What the code reads of a url.URL.
pub record Url : Type 0 where
  pub scheme : String
  pub opaque_part : String
  pub host : String
  pub has_user : Bool
  pub raw_query : String
  pub force_query : Bool
  pub fragment : String
  pub escaped_path : String

pub record TextLibrary : Type 0 where
  pub trim_space : String → String
  pub to_lower : String → String
  pub parse_url : String → Option Url

abbrev pub is_empty : String → Bool
is_empty s = s == ""

abbrev pub keep_slash : Char → List Char → List Char
keep_slash c [] = if code c == b'/' then [] else c ∷ []
keep_slash c (d ∷ rest) = c ∷ d ∷ rest

-- `strings.TrimRight(path, "/")`
abbrev pub trim_slashes : List Char → List Char
trim_slashes [] = []
trim_slashes (c ∷ s) = keep_slash c (trim_slashes s)

abbrev pub same_codes : List ℕ → List Char → Bool
same_codes [] [] = true
same_codes [] (c ∷ s) = false
same_codes (k ∷ ks) [] = false
same_codes (k ∷ ks) (c ∷ s) = code c == k && same_codes ks s

-- `strings.HasSuffix`, the suffix as codes
abbrev pub has_suffix : List ℕ → List Char → Bool
has_suffix codes [] = same_codes codes []
has_suffix codes (c ∷ s) = same_codes codes (c ∷ s) || has_suffix codes s

-- "/v1"
abbrev pub version_path : List ℕ
version_path = b'/' ∷ b'v' ∷ b'1' ∷ []

abbrev pub is_base : Url → Bool
is_base u =
    (u.scheme == "http" || u.scheme == "https")
    && is_empty u.opaque_part
    && not (is_empty u.host)
    && not u.has_user
    && is_empty u.raw_query
    && not u.force_query
    && is_empty u.fragment

abbrev pub joined : List Char → Option String
joined path = if has_suffix version_path path then none else some (text path)

abbrev pub with_path : String → String → Option String → Option String
with_path scheme host none = none
with_path scheme host (some path) =
    some (text (chars scheme ++ chars "://" ++ chars host ++ chars path))

-- `isOK` of each optional field
abbrev pub accepts {ℓ} : {A : Type ℓ} → (A → Bool) → Option A → Bool
accepts test none = true
accepts test (some x) = test x

-- ValidateAuthHeader: printable ASCII.
unfoldable pub validate_auth_header : String → Bool
validate_auth_header v = not (is_empty v) && all_in 32 126 (chars v)

abbrev pub drop : ℕ → List Char → List Char
drop zero s = s
drop (suc n) [] = []
drop (suc n) (c ∷ s) = drop n s

abbrev pub first : ℕ → List Char → List Char
first zero s = []
first (suc n) [] = []
first (suc n) (c ∷ s) = c ∷ first n s

abbrev pub ellipsis : Char
ellipsis = char 8230 tt

-- maskAuthHeader; a stored header is ASCII, so that its bytes are its characters.
unfoldable pub mask_auth_header : String → String
mask_auth_header v =
    let s = chars v in
    if leb (length s) (10 + 4)
    then text (ellipsis ∷ [])
    else text (first 10 s ++ ellipsis ∷ drop (length s - 4) s)

abbrev pub is_positive : ℤ → Bool
is_positive n = not (leb_ℤ n (pos 0))

-- The default backend, and the two that there are.
abbrev pub backend_of : String → Option String
backend_of b =
    if is_empty b
    then some "ollama"
    else if (b == "ollama" || b == "openai_compat")
    then some b
    else none

module _ (lib : TextLibrary) where
  unfoldable pub canonicalize_base_url : String → Option String
  canonicalize_base_url raw =
      let trimmed = lib.trim_space raw in
      if is_empty trimmed then none else elim (lib.parse_url trimmed) [
        | none ↦ none
        | some u ↦
            if is_base u
            then with_path u.scheme (lib.to_lower u.host)
                (joined (trim_slashes (chars u.escaped_path)))
            else none
      ]

  abbrev pub starts_slash : List Char → Bool
  starts_slash [] = false
  starts_slash (c ∷ []) = code c == b'/'
  starts_slash (c ∷ d ∷ s) = code c == b'/' && not (code d == b'/')

  abbrev pub is_path : Option Url → Bool
  is_path none = false
  is_path (some u) =
      is_empty u.scheme
      && is_empty u.host
      && not u.has_user
      && is_empty u.raw_query
      && not u.force_query
      && is_empty u.fragment

  unfoldable pub validate_health_path : String → Bool
  validate_health_path p =
      starts_slash (chars p) && all_in 33 126 (chars p) && is_path (lib.parse_url p)

  abbrev pub accepted_fields : NodeRow → Bool
  accepted_fields n =
      accepts validate_auth_header n.auth_header
      && accepts validate_health_path n.health_path
      && accepts is_positive n.timeout_seconds

  abbrev pub normalized : NodeRow → Option String → Option String → Option NodeRow
  normalized n none backend = none
  normalized n (some url) none = none
  normalized n (some url) (some backend) =
      if accepted_fields n
      then some (record n { name = lib.trim_space n.name; base_url = url; backend_type = backend })
      else none

  -- The node with the normal forms of its fields, or `none` for an error.
  unfoldable pub validate_node : NodeRow → Option NodeRow
  validate_node n =
      if is_empty (lib.trim_space n.name)
      then none
      else normalized n (canonicalize_base_url n.base_url) (backend_of n.backend_type)

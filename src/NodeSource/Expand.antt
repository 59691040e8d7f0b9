-- ===== src/NodeSource/Expand.antt =====
-- internal/nodesource/nodesource.go: the ${VAR} references of a declared value. The delimiters are
-- ASCII, so that the code's bytes and the characters here are cut at the same places.
use Prim.Native.Char.{Char, code}
use local_ai_proxy.Prelude.{
  ℕ, zero, suc, Bool, true, false, ◌&&◌, ◌||◌, Option, none, some, String, List, [], ◌∷◌, ◌++◌,
  if◌then◌else◌, ◌==◌, ℕ_key, length,
}
use local_ai_proxy.Prelude.Text.{chars, text, in_range}

-- What becomes of a value; `exhausted` is no result of the code, whose loop has no fuel.
pub data Expansion : Type 0 where
  expanded : List Char → Expansion
  unterminated : Expansion
  invalid_name : List Char → Expansion
  not_set : List Char → Expansion
  exhausted : Expansion

abbrev pub before_it : Char → Option (List Char × List Char) → Option (List Char × List Char)
before_it c none = none
before_it c (some (front, back)) = some (c ∷ front, back)

-- `strings.Index(s, "${")`: what stands before it, and what stands after.
abbrev pub split_open : List Char → Option (List Char × List Char)
split_open [] = none
split_open (c ∷ []) = none
split_open (c ∷ d ∷ s) =
    let rest = split_open (d ∷ s) in
    if (code c == b'$' && code d == b'{') then some ([], s) else before_it c rest

-- `strings.IndexByte(rest, '}')`
abbrev pub split_close : List Char → Option (List Char × List Char)
split_close [] = none
split_close (c ∷ s) =
    let rest = split_close s in if code c == b'}' then some ([], s) else before_it c rest

abbrev pub is_letter : Char → Bool
is_letter c = code c == b'_' || in_range b'A' b'Z' (code c) || in_range b'a' b'z' (code c)

abbrev pub is_digit : Char → Bool
is_digit c = in_range b'0' b'9' (code c)

abbrev pub all_name : List Char → Bool
all_name [] = true
all_name (c ∷ s) = (is_letter c || is_digit c) && all_name s

abbrev pub valid_env_name : List Char → Bool
valid_env_name [] = false
valid_env_name (c ∷ s) = is_letter c && all_name s

-- What the builder holds already, before what the rest of the loop writes; an error drops both.
abbrev pub written : List Char → Expansion → Expansion
written front (expanded s) = expanded (front ++ s)
written front unterminated = unterminated
written front (invalid_name name) = invalid_name name
written front (not_set name) = not_set name
written front exhausted = exhausted

-- `env` is os.LookupEnv.
module _ (env : String → Option String) where
  abbrev pub replaced : List Char → List Char → Expansion → Expansion
  replaced front name rest = elim (env (text name)) [
    | none ↦ not_set name
    | some v ↦ written (front ++ chars v) rest
  ]

  -- The two tests of a reference, before the rest of the loop.
  abbrev pub referenced : List Char → List Char → Expansion → Expansion
  referenced front name rest =
      if valid_env_name name then replaced front name rest else invalid_name name

  unfoldable pub expand_loop : ℕ → List Char → Expansion
  expand_loop zero s = exhausted
  expand_loop (suc fuel) s = elim (split_open s) [
    | none ↦ expanded s
    | some (front, rest) ↦ elim (split_close rest) [
      | none ↦ unterminated
      | some (name, back) ↦ referenced front name (expand_loop fuel back)
    ]
  ]

  -- The loop ends where the text does. The loop's fuel is the length of the text.
  unfoldable pub expand_env : List Char → Expansion
  expand_env s = elim (split_open s) [
    | none ↦ expanded s
    | some found ↦ expand_loop (suc (length s)) s
  ]

-- ===== src/NodeSource/Template.antt =====
-- internal/nodesource/nodesource.go: expandEnv against templates, which is what it reads.
use Prim.Native.Char.{Char, char, code}
use mathlib.Core.Option.{some-ne-none}
use local_ai_proxy.Prelude.{
  ℕ, zero, suc, ◌≤◌, ◌<◌, ◌≡◌, ◌≢◌, refl, sym, ap, subst, ◌∙◌, Bool, true, false, ◌&&◌, ◌||◌,
  Option, none, some, String, List, [], ◌∷◌, ◌++◌, arith, ◌==◌, ℕ_key, length, length-append, All,
  inl, inr, Bool-cases, Option-cases, false≢true,
}
use local_ai_proxy.Prelude.Text.{chars, text}
use local_ai_proxy.NodeSource.Expand.{
  Expansion, expanded, unterminated, invalid_name, not_set, exhausted, before_it, split_open,
  split_close, is_letter, is_digit, all_name, valid_env_name, written, replaced, referenced,
  expand_loop, expand_env,
}

-- Literals, each with the variable that follows it, and the last literal.
pub record Template : Type 0 where
  pub parts : List (List Char × List Char)
  pub tail : List Char

abbrev pub reference : List Char → List Char → List Char
reference name back = char b'$' tt ∷ char b'{' tt ∷ name ++ char b'}' tt ∷ back

abbrev pub print_parts : List (List Char × List Char) → List Char → List Char
print_parts [] tail = tail
print_parts ((lit, name) ∷ parts) tail = lit ++ reference name (print_parts parts tail)

abbrev pub print : Template → List Char
print t = print_parts t.parts t.tail

-- Every variable in its place, or the first one that is not set.
abbrev pub fill_parts :
    (String → Option String) → List (List Char × List Char) → List Char → Expansion
fill_parts env [] tail = expanded tail
fill_parts env ((lit, name) ∷ parts) tail = replaced env lit name (fill_parts env parts tail)

abbrev pub fill : (String → Option String) → Template → Expansion
fill env t = fill_parts env t.parts t.tail

abbrev pub IsPart : List Char × List Char → Type 0
IsPart (lit, name) = (split_open lit ≡ none) × (valid_env_name name ≡ true)

-- Literals hold no "${", and names are names.
abbrev pub IsTemplate : Template → Type 0
IsTemplate t = All IsPart t.parts × (split_open t.tail ≡ none)

before_it-none : (c : Char) (o : Option (List Char × List Char)) → before_it c o ≡ none → o ≡ none
before_it-none c none h = refl
before_it-none c (some (f, b)) h = absurd (some-ne-none _ h)

split_open-literal :
    (lit back : List Char)
    → split_open lit ≡ none
    → split_open (lit ++ char b'$' tt ∷ char b'{' tt ∷ back) ≡ some (lit, back)
split_open-literal [] back h = refl
split_open-literal (c ∷ []) back h = elim (Bool-cases (code c == b'$')) [
  | inl e ↦ rw e refl
  | inr e ↦ rw e refl
]
split_open-literal (c ∷ d ∷ lit) back h = elim (Bool-cases (code c == b'$' && code d == b'{')) [
  | inl e ↦ absurd (some-ne-none _ (rw e at h))
  | inr e ↦
      rw
        (e, split_open-literal (d ∷ lit) back (before_it-none c (split_open (d ∷ lit)) (rw e at h)))
        refl
]

and_true : (a b : Bool) → (a && b) ≡ true → (a ≡ true) × (b ≡ true)
and_true true b h = (refl, h)
and_true false b h = absurd (false≢true h)

name_char : (c : Char) → (is_letter c || is_digit c) ≡ true → (code c == b'}') ≡ false
name_char c h = ground (arith, h)

split_close-name :
    (name back : List Char)
    → all_name name ≡ true
    → split_close (name ++ char b'}' tt ∷ back) ≡ some (name, back)
split_close-name [] back h = refl
split_close-name (c ∷ name) back h =
    let both = and_true (is_letter c || is_digit c) (all_name name) h in
    rw (name_char c both.0, split_close-name name back both.1) refl

valid-all_name : (name : List Char) → valid_env_name name ≡ true → all_name name ≡ true
valid-all_name [] h = absurd (false≢true h)
valid-all_name (c ∷ name) h =
    let both = and_true (is_letter c) (all_name name) h in rw (both.0, both.1) refl

expand_loop-reference :
    (env : String → Option String) (fuel : ℕ) (s front rest name back : List Char)
    → split_open s ≡ some (front, rest)
    → split_close rest ≡ some (name, back)
    → expand_loop env (suc fuel) s ≡ referenced env front name (expand_loop env fuel back)
unfolding expand_loop
expand_loop-reference env fuel s front rest name back at_open at_close =
    rw (expand_loop, at_open, at_close) refl

expand_loop-fill :
    (env : String → Option String) (fuel : ℕ) (parts : List (List Char × List Char))
    (tail : List Char)
    → length parts < fuel
    → All IsPart parts
    → split_open tail ≡ none
    → expand_loop env fuel (print_parts parts tail) ≡ fill_parts env parts tail
expand_loop-fill env zero parts tail f h t = absurd (omega (arith, f))
expand_loop-fill env (suc fuel) [] tail f h t = unfold expand_loop in rw (expand_loop, t) refl
expand_loop-fill env (suc fuel) ((lit, name) ∷ parts) tail f h t =
    let back = print_parts parts tail in
    expand_loop-reference env fuel (lit ++ reference name back) lit (name ++ char b'}' tt ∷ back)
      name back (split_open-literal lit (name ++ char b'}' tt ∷ back) h.0.0)
      (split_close-name name back (valid-all_name name h.0.1))
    ∙ ap (referenced env lit name) (expand_loop-fill env fuel parts tail (omega (arith, f)) h.1 t)
    ∙ rw (referenced, h.0.1) refl

length-print :
    (parts : List (List Char × List Char)) (tail : List Char)
    → length parts ≤ length (print_parts parts tail)
length-print [] tail = omega arith
length-print ((lit, name) ∷ parts) tail =
    rw
      (
        length-append lit (reference name (print_parts parts tail)),
        length-append name (char b'}' tt ∷ print_parts parts tail),
      )
      (omega (arith, length-print parts tail))

-- Expanding what a template prints puts the value of every variable in its place and leaves all
-- else, a bare $ too, as it is; the first variable that is not set is an error.
pub expand_env-fill :
    (env : String → Option String) (t : Template)
    → IsTemplate t
    → expand_env env (print t) ≡ fill env t
unfolding expand_env expand_loop
expand_env-fill env t h = elim (Option-cases (split_open (print t))) [
  | inr (x, e) ↦
      rw (expand_env, e)
        (expand_loop-fill env (suc (length (print t))) t.parts t.tail
          (omega (arith, length-print t.parts t.tail)) h.0 h.1)
  | inl e ↦
      rw (expand_env, e)
        (let filled =
            expand_loop-fill env (suc (length t.parts)) t.parts t.tail (omega arith) h.0 h.1 in
          rw (expand_loop, e) at filled)
]

before_it-lt :
    (c : Char) (o : Option (List Char × List Char)) (n : ℕ)
    → ((front back : List Char) → o ≡ some (front, back) → length back < n)
    → (front back : List Char) → before_it c o ≡ some (front, back)
    → length back < suc n
before_it-lt c none n h front back e = absurd (some-ne-none _ (sym e))
before_it-lt c (some (f, b)) n h front back e =
    let same : b ≡ back = cc e in omega (arith, h f b refl, ap length same)

split_open-lt :
    (s front back : List Char) → split_open s ≡ some (front, back) → length back < length s
split_open-lt [] front back h = absurd (some-ne-none _ (sym h))
split_open-lt (c ∷ []) front back h = absurd (some-ne-none _ (sym h))
split_open-lt (c ∷ d ∷ s) front back h = elim (Bool-cases (code c == b'$' && code d == b'{')) [
  | inl e ↦
      let found : some ([], s) ≡ some (front, back) = rw e at h in
      let same : s ≡ back = cc found in
      subst (λ x. length x < suc (suc (length s))) same (omega arith)
  | inr e ↦
      before_it-lt c (split_open (d ∷ s)) (length (d ∷ s)) (split_open-lt (d ∷ s)) front back
        (rw e at h)
]

split_close-lt :
    (s front back : List Char) → split_close s ≡ some (front, back) → length back < length s
split_close-lt [] front back h = absurd (some-ne-none _ (sym h))
split_close-lt (c ∷ s) front back h = elim (Bool-cases (code c == b'}')) [
  | inl e ↦
      let found : some ([], s) ≡ some (front, back) = rw e at h in
      let same : s ≡ back = cc found in subst (λ x. length x < suc (length s)) same (omega arith)
  | inr e ↦ before_it-lt c (split_close s) (length s) (split_close-lt s) front back (rw e at h)
]

written≢exhausted :
    (front : List Char) (x : Expansion) → x ≢ exhausted → written front x ≢ exhausted
written≢exhausted front (expanded s) h e = absurd (cc e)
written≢exhausted front unterminated h e = h e
written≢exhausted front (invalid_name name) h e = h e
written≢exhausted front (not_set name) h e = h e
written≢exhausted front exhausted h e = h e

replaced≢exhausted :
    (env : String → Option String) (front name : List Char) (x : Expansion)
    → x ≢ exhausted
    → referenced env front name x ≢ exhausted
replaced≢exhausted env front name x h = elim (Bool-cases (valid_env_name name)) [
  | inr v ↦ rw (referenced, v) (λ e. absurd (cc e))
  | inl v ↦ elim (Option-cases (env (text name))) [
    | inl n ↦ rw (referenced, v, replaced, n) (λ e. absurd (cc e))
    | inr (value, n) ↦
        rw (referenced, v, replaced, n) (written≢exhausted (front ++ chars value) x h)
  ]
]

expand_loop≢exhausted :
    (env : String → Option String) (fuel : ℕ) (s : List Char)
    → length s < fuel
    → expand_loop env fuel s ≢ exhausted
expand_loop≢exhausted env zero s f = absurd (omega (arith, f))
expand_loop≢exhausted env (suc fuel) s f = elim (Option-cases (split_open s)) [
  | inl o ↦ unfold expand_loop in rw (expand_loop, o) (λ e. absurd (cc e))
  | inr ((front, rest), o) ↦ elim (Option-cases (split_close rest)) [
    | inl c ↦ unfold expand_loop in rw (expand_loop, o, c) (λ e. absurd (cc e))
    | inr ((name, back), c) ↦ rw (expand_loop-reference env fuel s front rest name back o c) (
        replaced≢exhausted env front name (expand_loop env fuel back) (
          expand_loop≢exhausted env fuel back
            (omega (arith, f, split_open-lt s front rest o, split_close-lt rest name back c))))
  ]
]

-- The loop ends, with a result or an error of the code, for every text.
pub expand_env≢exhausted :
    (env : String → Option String) (s : List Char) → expand_env env s ≢ exhausted
unfolding expand_env
expand_env≢exhausted env s = elim (Option-cases (split_open s)) [
  | inl e ↦ rw (expand_env, e) (λ x. absurd (cc x))
  | inr (found, e) ↦ rw (expand_env, e) (expand_loop≢exhausted env (suc (length s)) s (omega arith))
]

-- ===== src/Store/Secrets.antt =====
-- internal/store/nodes.go: a masked secret is never taken for the secret.
use Prim.Native.Char.{Char}
use local_ai_proxy.Prelude.{
  ◌+◌, ◌-◌, ◌≡◌, refl, false, Option, none, some, String, List, [], ◌∷◌, ◌++◌, arith, leb, length,
  inl, inr, Bool-cases,
}
use local_ai_proxy.Prelude.Text.{chars, all_in, chars-text}
use local_ai_proxy.Store.Nodes.{NodeRow}
use local_ai_proxy.Store.NodeChecks.{
  TextLibrary, is_empty, ellipsis, first, drop, validate_auth_header, mask_auth_header,
  accepted_fields, normalized, canonicalize_base_url, backend_of, validate_node,
}
use local_ai_proxy.Store.NodeTable.{mask_node_secret, update_node}
use local_ai_proxy.Store.Sql.{err, invalid, World}

all_in-ellipsis : (front back : List Char) → all_in 32 126 (front ++ ellipsis ∷ back) ≡ false
all_in-ellipsis [] back = refl
all_in-ellipsis (c ∷ front) back = rw (all_in-ellipsis front back) (ground arith)

mask-rejected : (v : String) → validate_auth_header (mask_auth_header v) ≡ false
unfolding validate_auth_header mask_auth_header
mask-rejected v = elim (Bool-cases (leb (length (chars v)) (10 + 4))) [
  | inl e ↦ rw (mask_auth_header, e) refl
  | inr e ↦
      rw
        (
          mask_auth_header,
          e,
          chars-text (first 10 (chars v) ++ ellipsis ∷ drop (length (chars v) - 4) (chars v)),
          all_in-ellipsis (first 10 (chars v)) (drop (length (chars v) - 4) (chars v)),
        )
        (ground arith)
]

unaccepted :
    (lib : TextLibrary) (n : NodeRow) (url backend : Option String)
    → accepted_fields lib n ≡ false
    → normalized lib n url backend ≡ none
unaccepted lib n none backend e = refl
unaccepted lib n (some url) none e = refl
unaccepted lib n (some url) (some backend) e = rw (normalized, e) refl

rejected_none :
    (lib : TextLibrary) (n : NodeRow) → accepted_fields lib n ≡ false → validate_node lib n ≡ none
unfolding validate_node
rejected_none lib n e = elim (Bool-cases (is_empty (lib.trim_space n.name))) [
  | inl b ↦ rw (validate_node, b) refl
  | inr b ↦
      rw (validate_node, b)
        (unaccepted lib n (canonicalize_base_url lib n.base_url) (backend_of n.backend_type) e)
]

masked_fields :
    (lib : TextLibrary) (n : NodeRow) (v : String)
    → n.auth_header ≡ some v
    → accepted_fields lib (mask_node_secret n) ≡ false
masked_fields lib n v e = rw (accepted_fields, mask_node_secret, e, mask-rejected v) refl

-- A row that was read with its secret masked is refused by UpdateNode, which changes nothing.
pub update_node-masked :
    (lib : TextLibrary) (n : NodeRow) (v : String) (w : World)
    → n.auth_header ≡ some v
    → update_node lib (mask_node_secret n) w ≡ (err invalid, w)
unfolding update_node
update_node-masked lib n v w e =
    rw (update_node, rejected_none lib (mask_node_secret n) (masked_fields lib n v e)) refl

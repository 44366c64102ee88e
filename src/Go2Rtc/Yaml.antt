-- ===== src/Go2Rtc/Yaml.antt =====
-- actor/Go2RTCActor.go: `findStreamsNode` and the loop of `listStreamNames`, over the node tree of
-- gopkg.in/yaml.v3.
pub mod Search
use go2rtc_manager.Prelude.{
  ◌≡◌, refl, ◌≢◌, Bool, true, false, not, ◌&&◌, arith, List, [], ◌∷◌, Option, none, some, ◌==◌,
  if◌then◌else◌,
}
use go2rtc_manager.Prelude.Text.{Text, codes, text_eq}
use go2rtc_manager.Prelude.Results.{Result, ok, err}

-- The kinds of a `yaml.Node`.
pub data Kind : Type 0 where
  document_node sequence_node mapping_node scalar_node alias_node : Kind

-- A node with the fields that the program reads: `Kind`, `Value` and `Content`.
mutual
  pub data Node : Type 0 where
    node : Kind → Text → Nodes → Node

  pub data Nodes : Type 0 where
    nil : Nodes
    cons : Node → Nodes → Nodes

abbrev pub kind : Node → Kind
kind (node k v ns) = k

abbrev pub value : Node → Text
value (node k v ns) = v

abbrev pub content : Node → Nodes
content (node k v ns) = ns

abbrev pub is_mapping : Kind → Bool
is_mapping mapping_node = true
is_mapping _ = false

-- The document's first child, if the root is a document with content.
unfoldable pub document_of : Node → Node
document_of (node document_node v (cons n ns)) = n
document_of n = n

-- The loop over the pairs of a mapping. A key with no value behind it would be the panic of
-- `document.Content[i+1]`; `none` stands for that.
unfoldable pub find_streams : Nodes → Option (Result Node)
find_streams nil = some (err (codes "streams section not found in go2rtc config"))
find_streams (cons key nil) = none
find_streams (cons key (cons val rest)) =
    let later = find_streams rest in
    if not (text_eq (value key) (codes "streams"))
    then later
    else if not (is_mapping (kind val))
    then some (err (codes "go2rtc streams section must be a mapping"))
    else some (ok val)

unfoldable pub find_streams_node : Node → Option (Result Node)
unfolding document_of find_streams
find_streams_node root =
    let document = document_of root in
    if not (is_mapping (kind document))
    then some (err (codes "go2rtc config root must be a mapping"))
    else find_streams (content document)

-- The loop of `listStreamNames`: every second node, from the first.
unfoldable pub keys : Nodes → List Text
keys nil = []
keys (cons key nil) = value key ∷ []
keys (cons key (cons val rest)) = value key ∷ keys rest

-- Every mapping in the tree has a value for each key, as gopkg.in/yaml.v3 builds it.
abbrev pub even : Nodes → Bool
even nil = true
even (cons key nil) = false
even (cons key (cons val rest)) = even rest

unfoldable mutual
  pub paired : Node → Bool
  paired (node k v ns) = (if is_mapping k then even ns else true) && all_paired ns

  pub all_paired : Nodes → Bool
  all_paired nil = true
  all_paired (cons n ns) = paired n && all_paired ns

abbrev pub IsPaired : Node → Type 0
IsPaired root = paired root ≡ true

-- ===== src/Go2Rtc/Yaml/Search.antt =====
-- actor/Go2RTCActor.go: the search for the `streams` section, and its panic.
use go2rtc_manager.Prelude.{◌≡◌, refl, Bool, ◌&&◌, ◌≢◌, true, false, none, arith}
use go2rtc_manager.Go2Rtc.Yaml.{
  document_node, mapping_node, Node, Nodes, node, nil, cons, kind, content, is_mapping, document_of,
  find_streams, find_streams_node, even, paired, all_paired, IsPaired,
}

find_streams-ne-none : (ns : Nodes) → even ns ≡ true → find_streams ns ≢ none
unfolding find_streams
find_streams-ne-none nil h = cc
find_streams-ne-none (cons key nil) h = cc
find_streams-ne-none (cons key (cons val rest)) h = ground (arith, find_streams-ne-none rest h)

document_of-IsPaired : (n : Node) → IsPaired n → IsPaired (document_of n)
unfolding document_of paired
document_of-IsPaired (node document_node v (cons n ns)) h = ground arith
document_of-IsPaired (node document_node v nil) h = h
document_of-IsPaired (node _ v ns) h = h

and-eq-true : (a b : Bool) → (a && b) ≡ true → a ≡ true
and-eq-true true b h = refl
and-eq-true false b h = h

even_of_IsPaired : (n : Node) → IsPaired n → is_mapping (kind n) ≡ true → even (content n) ≡ true
unfolding paired
even_of_IsPaired (node mapping_node v ns) h m = and-eq-true (even ns) (all_paired ns) h
even_of_IsPaired (node _ v ns) h m = cc

-- On a tree whose mappings are paired, `findStreamsNode` returns a node or an error.
pub find_streams_node-ne-none : (root : Node) → IsPaired root → find_streams_node root ≢ none
unfolding find_streams_node
find_streams_node-ne-none root h = ground (
  arith,
  find_streams-ne-none (content (document_of root)),
  even_of_IsPaired (document_of root) (document_of-IsPaired root h),
)

-- ===== src/Go2Rtc/Listing.antt =====
-- What `listStreamNames` (actor/Go2RTCActor.go) returns.
use go2rtc_manager.Prelude.{◌≡◌, refl, ◌≢◌, none, arith}
use go2rtc_manager.Prelude.Results.{Result, ok, err}
use go2rtc_manager.Prelude.Text.{Text}
use go2rtc_manager.Go2Rtc.Yaml.{Node, IsPaired}
use go2rtc_manager.Go2Rtc.Yaml.Search.{find_streams_node-ne-none}
use go2rtc_manager.Go2Rtc.Calls.{Api}
use go2rtc_manager.Go2Rtc.Actor.{Go2RtcActor, load_config_document, names_in, list_stream_names}

abbrev text_of : Result Text → Text
text_of (ok raw) = raw
text_of (err e) = e

-- The document that was loaded is one that the YAML decoder returned.
load_config_document-parsed :
    (api : Api) (a : Go2RtcActor) (root : Node)
    → (load_config_document api a).1 ≡ ok root
    → (raw : Text) × (api.parse_yaml raw ≡ ok root)
unfolding load_config_document
load_config_document-parsed api a root h =
    (text_of (api.read_file a.config.go2rtc.config_path), ground arith)

names_in-ne-none :
    (r : Result Node) → ((root : Node) → r ≡ ok root → IsPaired root) → names_in r ≢ none
unfolding names_in
names_in-ne-none (err e) p = cc
names_in-ne-none (ok root) p = ground (arith, find_streams_node-ne-none root (p root refl))

-- With a decoder whose mappings are paired, the list is read without a panic.
pub list_stream_names-ne-none :
    (api : Api) (a : Go2RtcActor)
    → ((raw : Text) (root : Node) → api.parse_yaml raw ≡ ok root → IsPaired root)
    → (list_stream_names api a).1 ≢ none
unfolding list_stream_names
list_stream_names-ne-none api a yaml =
    names_in-ne-none (load_config_document api a).1
      λ root e. let (raw, parsed) = load_config_document-parsed api a root e in yaml raw root parsed

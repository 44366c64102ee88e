-- ===== src/Go2Rtc/Payload.antt =====
-- actor/Go2RTCActor.go: `lookupStreamPayload` and `payloadHasProducer`, over what `json.Unmarshal`
-- makes of an answer. A Go map has no order: the fields of an object, one for a key, are listed in
-- some order. Of a number nothing is ever read.
pub mod Producers
use go2rtc_manager.Prelude.{
  ℕ, Bool, true, false, ◌||◌, List, [], ◌∷◌, Option, none, some, if◌then◌else◌,
}
use go2rtc_manager.Prelude.Text.{Text, codes, text_eq}

mutual
  pub data Json : Type 0 where
    null : Json
    bool : Bool → Json
    number : Json
    string : Text → Json
    array : Items → Json
    object : Fields → Json

  pub data Items : Type 0 where
    nil : Items
    cons : Json → Items → Items

  pub data Fields : Type 0 where
    end : Fields
    field : Text → Json → Fields → Fields

-- `v, ok := typed[name]`
unfoldable pub get : Text → Fields → Option Json
get name end = none
get name (field k v fs) = if text_eq k name then some v else get name fs

-- `typed["streams"].(map[string]any)`, and the stream in it.
unfoldable pub in_section : Text → Option Json → Option Json
unfolding get
in_section name (some (object fs)) = get name fs
in_section name _ = none

abbrev pub or_else {ℓ} : {A : Type ℓ} → Option A → Option A → Option A
or_else (some a) o = some a
or_else none o = o

unfoldable pub lookup_stream_payload : Json → Text → Option Json
unfolding get in_section
lookup_stream_payload (object fs) name =
    or_else (get name fs) (in_section name (get (codes "streams") fs))
lookup_stream_payload _ name = none

-- The switch on the type of `producers`.
unfoldable pub producers_present : Json → Bool
producers_present (array nil) = false
producers_present (array (cons x xs)) = true
producers_present null = false
producers_present _ = true

-- The object's own `producers` if it has any, else what its values say.
unfoldable pub producers_or : Option Json → Bool → Bool
unfolding producers_present
producers_or (some producers) nested = producers_present producers
producers_or none nested = nested

unfoldable mutual
  unfolding producers_or

  pub payload_has_producer : Json → Bool
  payload_has_producer (object fs) =
      producers_or (get (codes "producers") fs) (any_field_has_producer fs)
  payload_has_producer (array xs) = any_item_has_producer xs
  payload_has_producer _ = false

  -- The loop over the values of an object.
  pub any_field_has_producer : Fields → Bool
  any_field_has_producer end = false
  any_field_has_producer (field k v fs) = payload_has_producer v || any_field_has_producer fs

  -- The loop over the items of an array.
  pub any_item_has_producer : Items → Bool
  any_item_has_producer nil = false
  any_item_has_producer (cons x xs) = payload_has_producer x || any_item_has_producer xs

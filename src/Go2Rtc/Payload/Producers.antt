-- ===== src/Go2Rtc/Payload/Producers.antt =====
-- `payloadHasProducer` (actor/Go2RTCActor.go) beside a relation that knows no order of fields.
use go2rtc_manager.Prelude.{
  ◌≡◌, refl, ◌↔◌, ◌⊎◌, inl, inr, Bool, true, ◌||◌, Option, none, some, arith,
}
use go2rtc_manager.Prelude.Text.{Text, codes}
use go2rtc_manager.Go2Rtc.Payload.{
  Json, null, bool, number, string, array, object, Items, nil, cons, Fields, end, field, get,
  producers_present, producers_or, payload_has_producer, any_field_has_producer,
  any_item_has_producer,
}

-- What `producers` has to be: neither null nor an empty array.
abbrev pub IsEmptyProducers : Json → Type 0
IsEmptyProducers j = (j ≡ null) ⊎ (j ≡ array nil)

-- The values of an object's fields and of an array's items, in no order.
pub data InFields (v : Json) : Fields → Type 0 where
  here : (k : Text) (fs : Fields) → InFields v (field k v fs)
  there : (k : Text) (w : Json) {fs : Fields} → InFields v fs → InFields v (field k w fs)

pub data InItems (v : Json) : Items → Type 0 where
  here : (xs : Items) → InItems v (cons v xs)
  there : (w : Json) {xs : Items} → InItems v xs → InItems v (cons w xs)

-- A value has a producer: an object by its `producers`, or, without such a field, by one of its
-- values; an array by one of its items.
pub data HasProducer : Json → Type 0 where
  by_producers :
      (fs : Fields) (p : Json)
      → get (codes "producers") fs ≡ some p
      → ¬ IsEmptyProducers p
      → HasProducer (object fs)
  by_field :
      (fs : Fields) (v : Json)
      → get (codes "producers") fs ≡ none
      → InFields v fs
      → HasProducer v
      → HasProducer (object fs)
  by_item : (xs : Items) (v : Json) → InItems v xs → HasProducer v → HasProducer (array xs)

producers_present_lem : (p : Json) → producers_present p ≡ true → ¬ IsEmptyProducers p
unfolding producers_present
producers_present_lem p h e = ground arith

present_of_not-empty : (p : Json) → ¬ IsEmptyProducers p → producers_present p ≡ true
unfolding producers_present
present_of_not-empty null h = absurd (h (inl refl))
present_of_not-empty (array nil) h = absurd (h (inr refl))
present_of_not-empty (array (cons x xs)) h = refl
present_of_not-empty _ h = refl

or_split : (a b : Bool) → (a || b) ≡ true → (a ≡ true) ⊎ (b ≡ true)
or_split a b h = ground arith

object-true :
    (fs : Fields) (o : Option Json)
    → get (codes "producers") fs ≡ o
    → (any_field_has_producer fs ≡ true → (v : Json) × InFields v fs × HasProducer v)
    → producers_or o (any_field_has_producer fs) ≡ true
    → HasProducer (object fs)
unfolding producers_or
object-true fs (some p) e deeper h = by_producers fs p e (producers_present_lem p h)
object-true fs none e deeper h = let (v, place, has) = deeper h in by_field fs v e place has

mutual
  unfolding payload_has_producer

  sound : (j : Json) → payload_has_producer j ≡ true → HasProducer j
  sound (object fs) h = object-true fs _ refl (sound_fields fs) h
  sound (array xs) h = let (v, place, has) = sound_items xs h in by_item xs v place has
  sound null h = cc
  sound (bool b) h = cc
  sound number h = cc
  sound (string s) h = cc

  sound_fields :
      (fs : Fields) → any_field_has_producer fs ≡ true → (v : Json) × InFields v fs × HasProducer v
  sound_fields end h = cc
  sound_fields (field k v fs) h =
      elim (or_split (payload_has_producer v) (any_field_has_producer fs) h) [
        | inl p ↦ (v, here k fs, sound v p)
        | inr q ↦ let (w, place, has) = sound_fields fs q in (w, there k v place, has)
      ]

  sound_items :
      (xs : Items) → any_item_has_producer xs ≡ true → (v : Json) × InItems v xs × HasProducer v
  sound_items nil h = cc
  sound_items (cons v xs) h =
      elim (or_split (payload_has_producer v) (any_item_has_producer xs) h) [
        | inl p ↦ (v, here xs, sound v p)
        | inr q ↦ let (w, place, has) = sound_items xs q in (w, there v place, has)
      ]

any_field_of_InFields :
    {v : Json} {fs : Fields}
    → InFields v fs
    → payload_has_producer v ≡ true
    → any_field_has_producer fs ≡ true
unfolding payload_has_producer
any_field_of_InFields (here k fs) h = ground arith
any_field_of_InFields (there k w place) h = ground (arith, any_field_of_InFields place h)

any_item_of_InItems :
    {v : Json} {xs : Items}
    → InItems v xs
    → payload_has_producer v ≡ true
    → any_item_has_producer xs ≡ true
unfolding payload_has_producer
any_item_of_InItems (here xs) h = ground arith
any_item_of_InItems (there w place) h = ground (arith, any_item_of_InItems place h)

complete : {j : Json} → HasProducer j → payload_has_producer j ≡ true
unfolding payload_has_producer
complete (by_producers fs p e h) = rw e (present_of_not-empty p h)
complete (by_field fs v e place has) = rw e (any_field_of_InFields place (complete has))
complete (by_item xs v place has) = any_item_of_InItems place (complete has)

-- The code finds a producer in an answer exactly when one is there by the relation, which looks at
-- the fields of an object and the items of an array in no particular order.
pub payload_has_producer_iff : (j : Json) → (payload_has_producer j ≡ true) ↔ HasProducer j
payload_has_producer_iff j = (sound j, complete)

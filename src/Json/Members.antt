-- ===== src/Json/Members.antt =====
-- src/rb_json.c: the members of an object to which members are added.
use rb_monitor.Prelude.{◌≡◌, refl, ◌∙◌, true, Option, none, some, List, [], ◌∷◌, if◌then◌else◌}
use rb_monitor.Prelude.Text.{Text, text_eq}
use rb_monitor.Platform.{Platform}
use rb_monitor.Json.{json_object_copy0_childs, json_object_object_copy}

-- What a list of members has for a key, where a later one replaces an earlier one, over what was
-- there before.
abbrev pub over {ℓ} : {A : Type ℓ} → Option A → List (Text × A) → Text → Option A
over before [] k = before
over before ((key, val) ∷ rest) k = over (if text_eq k key then some val else before) rest k

-- What json-c documents of objects.
pub record JsonObjects (p : Platform) : Type 0 where
  pub new_object : p.json_is_object p.json_new_object ≡ true
  pub new_member : (k : Text) → p.json_member p.json_new_object k ≡ none
  pub add_object :
      (o : p.Json) (k : Text) (v : Option p.Json)
      → p.json_is_object o ≡ true
      → p.json_is_object (p.json_add o k v) ≡ true
  pub add_member :
      (o : p.Json) (k k' : Text) (v : Option p.Json)
      → p.json_is_object o ≡ true
      → p.json_member (p.json_add o k v) k' ≡ (if text_eq k' k then some v else p.json_member o k')
  -- The iterator visits what json_object_object_get_ex finds.
  pub members :
      (o : p.Json) (k : Text)
      → p.json_is_object o ≡ true
      → over none (p.json_members o) k ≡ p.json_member o k

module _ (p : Platform) (laws : JsonObjects p) where
  pub copy_childs-over :
      (dst : p.Json) (ms : List (Text × Option p.Json)) (k : Text)
      → p.json_is_object dst ≡ true
      → (p.json_is_object (json_object_copy0_childs p dst ms) ≡ true)
        × (p.json_member (json_object_copy0_childs p dst ms) k ≡ over (p.json_member dst k) ms k)
  unfolding json_object_copy0_childs
  copy_childs-over dst [] k h = (h, refl)
  copy_childs-over dst ((key, val) ∷ ms) k h =
      let (o, e) = copy_childs-over (p.json_add dst key val) ms k (laws.add_object dst key val h) in
      (o, rw (laws.add_member dst key k val h) at e)

  -- The copy of an object is an object with the same members; what is no object has no copy.
  pub json_object_object_copy_lem :
      (orig : p.Json)
      → p.json_is_object orig ≡ true
      → (copy : p.Json) × (json_object_object_copy p orig ≡ some copy)
        × (p.json_is_object copy ≡ true)
        × ((k : Text) → p.json_member copy k ≡ p.json_member orig k)
  unfolding json_object_object_copy
  json_object_object_copy_lem orig h = (
    json_object_copy0_childs p p.json_new_object (p.json_members orig),
    rw h refl,
    (copy_childs-over p.json_new_object (p.json_members orig) [] laws.new_object).0,
    λ k.
        (copy_childs-over p.json_new_object (p.json_members orig) k laws.new_object).1
        ∙ rw (laws.new_member k) (laws.members orig k h),
  )

-- ===== src/Registry/Tests.antt =====
-- A concrete announcement, and its delivery.
use text.Mathlib.Text.{◌==◌}
use xreal_bsp_rgb_tool.Prelude.{
  ◌≡◌, refl, subst, Bool-cases, inl, inr, arith, eq_iff, true, List, [], ◌∷◌, Option, none, some,
  String, if◌then◌else◌,
}
use xreal_bsp_rgb_tool.Prelude.Int.{ℤ, pos}
use xreal_bsp_rgb_tool.Prelude.Maps.{lookup}
use xreal_bsp_rgb_tool.Platform.{JsonLib}
use xreal_bsp_rgb_tool.Registry.{
  Announcement, DataRegistryServer, DataRegistryClient, request, send_registration,
  on_registration_request,
}
use xreal_bsp_rgb_tool.Registry.Delivery.{JsonLaws, Parsed, register-send_registration}

-- Texts, numbers, and the one object that the test sends, whose keys the library sorts.
pub data Document : Type 0 where
  leaf : String → Document
  number : ℤ → Document
  message : Document

text_of : Document → Option String
text_of (leaf s) = some s
text_of _ = none

number_of : Document → Option ℤ
number_of (number z) = some z
number_of _ = none

fields_of : Document → Option (List (String × Document))
fields_of message = some (
    ("action", leaf "register")
    ∷ ("data_name", leaf "imu")
    ∷ ("data_type", leaf "json")
    ∷ ("node_name", leaf "glasses")
    ∷ ("port", number (pos 5800))
    ∷ [])
fields_of _ = none

abbrev documents : JsonLib
documents = record {
  Json = Document;
  find = λ key d. none;
  as_string = text_of;
  as_bool = λ d. none;
  as_int = number_of;
  as_array = λ d. none;
  as_object = fields_of;
  as_float_text = λ d. none;
  parse = λ s. some message;
  dump = λ d. "{...}";
  get_int = number_of;
  is_empty = λ d. true;
  null = leaf "";
  of_text = leaf;
  of_bool = λ b. leaf "";
  of_int = number;
  of_texts = λ ss. leaf "";
  of_fields = λ fs. message;
  value_bool = λ d key b. some b;
}

laws : JsonLaws documents
unfolding text_of number_of
laws = record { text_back = λ s. refl; int_back = λ z i. refl }

abbrev imu : Announcement
imu = record { data_name = "imu"; data_type = "json"; port = pos 5800; node_name = "glasses" }

abbrev client : DataRegistryClient
client = record { has_publisher = true; published = [] }

abbrev server : DataRegistryServer
server = record { registered_data = []; has_callback = true; callback_calls = [] }

-- The fields in the order of their keys.
abbrev sorted_fields : List (String × Document)
sorted_fields =
    ("action", leaf "register")
    ∷ ("data_name", leaf "imu")
    ∷ ("data_type", leaf "json")
    ∷ ("node_name", leaf "glasses")
    ∷ ("port", number (pos 5800))
    ∷ []

at_node_name :
    (key : String)
    → "node_name" ≡ key
    → lookup key sorted_fields ≡ lookup key (request documents imu)
unfolding request
at_node_name key e = subst (λ k. lookup k sorted_fields ≡ lookup k (request documents imu)) e refl

sorted_fields-same : (key : String) → lookup key sorted_fields ≡ lookup key (request documents imu)
unfolding request
sorted_fields-same key = elim (Bool-cases ("node_name" == key)) [
  | inl e ↦ at_node_name key (ground (arith, e, eq_iff "node_name" key))
  | inr n ↦ rw n refl
]

imu-Parsed : Parsed documents (request documents imu)
unfolding request fields_of
imu-Parsed = record { wire_fields = sorted_fields; reads = refl; same = sorted_fields-same }

register-send_registration_example :
    (m : String) × ((send_registration documents imu client).0.published ≡ m ∷ client.published)
    × (lookup "imu" (on_registration_request documents 7 m server).registered_data ≡ (
        if imu.data_name == "imu"
        then some (record {
          data_type = imu.data_type;
          port = imu.port;
          node_name = imu.node_name;
          registered_at = 7;
        })
        else lookup "imu" server.registered_data))
register-send_registration_example =
    register-send_registration documents laws imu client 7 server "imu" refl
      (omega arith, omega arith) imu-Parsed

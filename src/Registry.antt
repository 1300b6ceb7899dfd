-- ===== src/Registry.antt =====
-- src/backend/data_registry_server.cpp and src/common/data_registry_client.cpp: the data that the nodes
-- announce. A time is given by the caller.
pub mod Delivery
mod Tests
use Prim.Native.String.{◌++◌}
use text.Mathlib.Text.{◌==◌}
use xreal_bsp_rgb_tool.Prelude.{
  ℕ, Bool, true, false, List, [], ◌∷◌, Option, none, some, String, if◌then◌else◌,
}
use xreal_bsp_rgb_tool.Prelude.Int.{ℤ, pos}
use xreal_bsp_rgb_tool.Prelude.Maps.{contains, insert, erase}
use xreal_bsp_rgb_tool.Platform.{JsonLib}
use xreal_bsp_rgb_tool.Manager.Fields.{◌>>=◌, Fields, value_text, value_int}

-- An announcement: the arguments of registerData.
pub record Announcement : Type 0 where
  pub data_name : String
  pub data_type : String
  pub port : ℤ
  pub node_name : String

-- What the table holds under a name.
pub record RegisteredData : Type 0 where
  pub data_type : String
  pub port : ℤ
  pub node_name : String
  pub registered_at : ℕ

-- `callback_calls` are the calls of the callback, newest first; what the callback throws is ignored.
pub record DataRegistryServer : Type 0 where
  pub registered_data : List (String × RegisteredData)
  pub has_callback : Bool
  pub callback_calls : List (String × String × ℤ)

-- The results of both, with the data's name.
pub record RegistryResult : Type 0 where
  pub success : Bool
  pub message : String
  pub data_name : String

-- registerData of the server
unfoldable pub register_data :
    ℕ → Announcement → DataRegistryServer → DataRegistryServer × RegistryResult
register_data now a s = (
  record s {
    registered_data =
        insert a.data_name
          (record {
            data_type = a.data_type;
            port = a.port;
            node_name = a.node_name;
            registered_at = now;
          })
          s.registered_data;
    callback_calls =
        if s.has_callback
        then (a.data_name, a.data_type, a.port) ∷ s.callback_calls
        else s.callback_calls;
  },
  record {
    success = true;
    message = "Data '" ++ (a.data_name ++ "' registered");
    data_name = a.data_name;
  },
)

-- unregisterData
unfoldable pub unregister_data : String → DataRegistryServer → DataRegistryServer × RegistryResult
unregister_data name s =
    if contains name s.registered_data
    then (
      record s { registered_data = erase name s.registered_data },
      record { success = true; message = "Data '" ++ (name ++ "' unregistered"); data_name = name },
    )
    else (
      s,
      record { success = false; message = "Data '" ++ (name ++ "' not found"); data_name = name },
    )

-- The client: whether its publisher was made, and what it has published, newest first.
pub record DataRegistryClient : Type 0 where
  pub has_publisher : Bool
  pub published : List String

module _ (J : JsonLib) where
  open J use {of_text, of_int, of_fields, dump, parse, as_object}

  unfoldable pub request : Announcement → Fields J
  request a =
      ("action", of_text "register")
      ∷ ("data_name", of_text a.data_name)
      ∷ ("data_type", of_text a.data_type)
      ∷ ("port", of_int a.port)
      ∷ ("node_name", of_text a.node_name)
      ∷ []

  -- registerData of the client, where the publisher does not throw.
  unfoldable pub send_registration :
      Announcement → DataRegistryClient → DataRegistryClient × RegistryResult
  unfolding request
  send_registration a c =
      if c.has_publisher
      then (
        record c { published = dump (of_fields (request a)) ∷ c.published },
        record {
          success = true;
          message = "Registration request sent for " ++ a.data_name;
          data_name = a.data_name;
        },
      )
      else (
        c,
        record { success = false; message = "Publisher not initialized"; data_name = a.data_name },
      )

  -- The announcement of a request; nothing where reading it throws.
  unfoldable pub read_announcement : Fields J → Option Announcement
  unfolding value_text value_int
  read_announcement fields = do
    name ← value_text J "data_name" "" fields
    type ← value_text J "data_type" "" fields
    number ← value_int J "port" (pos 0) fields
    node ← value_text J "node_name" "unknown" fields
    some (record { data_name = name; data_type = type; port = number; node_name = node })

  -- A request with the action "register"; another action, and what throws, is ignored.
  unfoldable pub read_request : Fields J → Option Announcement
  unfolding read_announcement value_text
  read_request fields = do
    action ← value_text J "action" "" fields
    if action == "register" then read_announcement fields else none

  unfoldable pub register_read : ℕ → Option Announcement → DataRegistryServer → DataRegistryServer
  unfolding register_data
  register_read now none s = s
  register_read now (some a) s = (register_data now a s).0

  -- onRegistrationRequest
  unfoldable pub on_registration_request : ℕ → String → DataRegistryServer → DataRegistryServer
  unfolding register_read read_request
  on_registration_request now raw s =
      register_read now (parse raw >>= λ d. as_object d >>= read_request) s

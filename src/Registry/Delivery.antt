-- ===== src/Registry/Delivery.antt =====
-- What the client sends, as the server receives it.
use text.Mathlib.Text.{◌==◌}
use xreal_bsp_rgb_tool.Prelude.{
  ℕ, ◌^◌, ◌<◌, ◌≤◌, ◌≡◌, refl, ap, ◌∙◌, true, ◌∷◌, Option, none, some, String, if◌then◌else◌,
}
use xreal_bsp_rgb_tool.Prelude.Int.{ℤ, pos, pos_part, neg_part}
use xreal_bsp_rgb_tool.Prelude.Maps.{lookup, lookup-insert}
use xreal_bsp_rgb_tool.Platform.{JsonLib}
use xreal_bsp_rgb_tool.Manager.Fields.{◌>>=◌, Fields, value_text, value_int}
use xreal_bsp_rgb_tool.Registry.{
  Announcement, DataRegistryServer, DataRegistryClient, register_data, request, send_registration,
  read_announcement, read_request, register_read, on_registration_request,
}

-- The values of a C++ `int`.
abbrev pub IsInt : ℤ → Type 0
IsInt z = (pos_part z < 2 ^ 31) × (neg_part z ≤ 2 ^ 31)

-- What the two rely on of the JSON library: a text and an `int` that are put in come out again.
pub record JsonLaws (J : JsonLib) : Type 0 where
  pub text_back : (s : String) → J.as_string (J.of_text s) ≡ some s
  pub int_back : (z : ℤ) → IsInt z → J.get_int (J.of_int z) ≡ some z

-- An object that is dumped is parsed to an object with the same value under every key, in whatever order
-- the library lists them.
pub record Parsed (J : JsonLib) (fields : Fields J) : Type 0 where
  pub wire_fields : Fields J
  pub reads : (J.parse (J.dump (J.of_fields fields)) >>= J.as_object) ≡ some wire_fields
  pub same : (key : String) → lookup key wire_fields ≡ lookup key fields

bind_assoc {ℓ κ μ} :
    {X : Type ℓ} {Y : Type κ} {Z : Type μ} (x : Option X) (f : X → Option Y) (g : Y → Option Z)
    → (x >>= λ a. f a >>= g) ≡ ((x >>= f) >>= g)
bind_assoc none f g = refl
bind_assoc (some a) f g = refl

module _ (J : JsonLib) (laws : JsonLaws J) where
  -- The reading of a request by the five values that it reads.
  abbrev read_values :
      Option String → Option String → Option String → Option ℤ → Option String → Option Announcement
  read_values a n t p o = do
    action ← a
    if action == "register"
        then (do
          name ← n
          type ← t
          number ← p
          node ← o
          some (record { data_name = name; data_type = type; port = number; node_name = node }))
        else none

  abbrev read_fields : Fields J → Option Announcement
  read_fields f =
      read_values (value_text J "action" "" f) (value_text J "data_name" "" f)
        (value_text J "data_type" "" f) (value_int J "port" (pos 0) f)
        (value_text J "node_name" "unknown" f)

  value_text-same :
      (key d : String) (sent fields : Fields J)
      → lookup key sent ≡ lookup key fields
      → value_text J key d sent ≡ value_text J key d fields
  unfolding value_text
  value_text-same key d sent fields h =
      ap (λ o. elim o [ none ↦ some d | some v ↦ J.as_string v ]) h

  value_int-same :
      (key : String) (d : ℤ) (sent fields : Fields J)
      → lookup key sent ≡ lookup key fields
      → value_int J key d sent ≡ value_int J key d fields
  unfolding value_int
  value_int-same key d sent fields h = ap (λ o. elim o [ none ↦ some d | some v ↦ J.get_int v ]) h

  read_fields-same :
      (sent fields : Fields J)
      → ((key : String) → lookup key sent ≡ lookup key fields)
      → read_fields sent ≡ read_fields fields
  read_fields-same p f h =
      rw
        (
          value_text-same "action" "" p f (h "action"),
          value_text-same "data_name" "" p f (h "data_name"),
          value_text-same "data_type" "" p f (h "data_type"),
          value_int-same "port" (pos 0) p f (h "port"),
          value_text-same "node_name" "unknown" p f (h "node_name"),
        )
        refl

  read_request-same :
      (sent fields : Fields J)
      → ((key : String) → lookup key sent ≡ lookup key fields)
      → read_request J sent ≡ read_request J fields
  unfolding read_request read_announcement
  read_request-same sent fields h = read_fields-same sent fields h

  read_request-request : (a : Announcement) → IsInt a.port → read_request J (request J a) ≡ some a
  unfolding read_request request read_announcement value_text value_int
  read_request-request a i = rw (laws.text_back "register") (
      rw (laws.text_back a.data_name) (
        rw (laws.text_back a.data_type)
          (rw (laws.int_back a.port i) (rw (laws.text_back a.node_name) refl))))

  received :
      (a : Announcement)
      → IsInt a.port
      → Parsed J (request J a)
      → (J.parse (J.dump (J.of_fields (request J a))) >>= λ d. J.as_object d >>= read_request J)
        ≡ some a
  received a i p =
      bind_assoc (J.parse (J.dump (J.of_fields (request J a)))) J.as_object (read_request J)
      ∙ ap (λ (o : Option (Fields J)). o >>= read_request J) p.reads
      ∙ read_request-same p.wire_fields (request J a) p.same
      ∙ read_request-request a i

  -- A registration of an `int` port that the client sends where its publisher was made, in JSON that is
  -- parsed to the fields that were dumped, in whatever order: one message is published, and the
  -- server that receives it holds what was announced under the data's name, with the time of the
  -- receipt, and under every other name what it held before.
  pub register-send_registration :
      (a : Announcement) (c : DataRegistryClient) (now : ℕ) (s : DataRegistryServer)
      (other : String)
      → c.has_publisher ≡ true
      → IsInt a.port
      → Parsed J (request J a)
      → (m : String) × ((send_registration J a c).0.published ≡ m ∷ c.published)
        × (lookup other (on_registration_request J now m s).registered_data ≡ (
            if a.data_name == other
            then some (record {
              data_type = a.data_type;
              port = a.port;
              node_name = a.node_name;
              registered_at = now;
            })
            else lookup other s.registered_data))
  unfolding send_registration on_registration_request register_data register_read
  register-send_registration a c now s other h i p =
      let m = J.dump (J.of_fields (request J a)) in
      (
        m,
        rw h refl,
        ap (λ (r : Option Announcement). lookup other (register_read J now r s).registered_data)
              (received a i p)
            ∙ lookup-insert a.data_name other _ s.registered_data,
      )

-- ===== src/Paystack.antt =====
-- server/internal/payments/paystack/paystack.go: what is sent to Paystack and what is read back. The
-- transport, HMAC-SHA512 and the JSON decoders are arguments; bodies that are sent stay records.
use Prim.Native.Char.{Char, code}
use Prim.Native.String.{char_at}
use proxify_vpn.Base.{
  Bool, List, Option, String, [], if◌then◌else◌, none, not, some, ℕ, ◌%◌, ◌/◌, ◌==◌, ◌=?◌, ◌||◌,
  ◌∷◌,
}
use proxify_vpn.Base.Effects.{Call, prefixed, ◌>>=◌}
use proxify_vpn.Base.Text.{show_number, ◌<>◌}
use proxify_vpn.Errors.{Result, err, ok, text}
use proxify_vpn.Store.Db.{coalesce, null_if_empty}
use proxify_vpn.Store.Payments.{or_default}

-- `Metadata`: the link between a reference and our user and plan.
pub record Metadata : Type 0 where
  pub user_id : String
  pub plan_code : String

-- The fields of `Event` that are read, with those of its `Metadata`.
pub record Event : Type 0 where
  pub event : String
  pub id : ℕ
  pub reference : String
  pub status : String
  pub amount : ℕ
  pub user_id : String
  pub plan_code : String

-- `EventID`
unfoldable pub event_key : Event → String
event_key ev =
    if not (ev.id == 0)
    then ev.event <> ":" <> show_number ev.id
    else ev.event <> ":" <> ev.reference

-- The body of `Initialize`. `callback_url` and `channels` are left out where they are empty.
pub record Checkout : Type 0 where
  pub email : String
  pub amount : ℕ
  pub reference : String
  pub metadata : Metadata
  pub currency : String
  pub callback_url : Option String
  pub channels : Option (List String)

-- `InitializeParams`
pub record InitializeParams : Type 0 where
  pub email : String
  pub amount_kobo : ℕ
  pub reference : String
  pub metadata : Metadata
  pub callback_url : String
  pub channels : List String

-- `InitializeResult`
pub record InitializeResult : Type 0 where
  pub authorization_url : String
  pub access_code : String
  pub reference : String

-- The answers' envelopes.
pub record InitializeEnvelope : Type 0 where
  pub status : Bool
  pub message : String
  pub result : InitializeResult

pub record VerifyEnvelope : Type 0 where
  pub status : Bool
  pub raw : String

-- Paystack and the decoders; a call gives the body that was read. `decode_charge` reads the data
-- of a transaction, whose event type it leaves empty.
pub record Gateway (S : Type 0) : Type 0 where
  pub post : String → String → Checkout → Call S String
  pub get : String → String → Call S String
  pub hmac512 : String → String → String
  pub decode_initialize : String → Option InitializeEnvelope
  pub decode_verify : String → Option VerifyEnvelope
  pub decode_charge : String → Option Event
  pub decode_event : String → Option Event

pub record Client (S : Type 0) : Type 0 where
  pub secret_key : String
  pub webhook_key : String
  pub gateway : Gateway S

-- `New`
unfoldable pub new_client : {S : Type 0} → String → String → Gateway S → Client S
new_client secret_key webhook_key gateway = record {
  secret_key = secret_key;
  webhook_key = or_default webhook_key secret_key;
  gateway = gateway;
}

abbrev pub hex_digit : ℕ → Char
hex_digit n = char_at "0123456789abcdef" n

-- `hex.EncodeToString`
unfoldable pub hex_encode : String → String
hex_encode String.[] = String.[]
hex_encode (String.◌∷◌ c s) =
    String.◌∷◌ (hex_digit (code c / 16)) (String.◌∷◌ (hex_digit (code c % 16)) (hex_encode s))

-- `UnmarshalJSON` of `Metadata`: an object, or a string that holds one; any other shape is ignored.
-- `as_object` and `as_string` are what `json.Unmarshal` makes of a text.
unfoldable pub unmarshal_metadata :
    (String → Option Metadata) → (String → Option String) → String → Metadata → Metadata
unmarshal_metadata as_object as_string b m =
    if b =? "" || (b =? "null" || b =? "\"\"") then m else elim (as_object b) [
      | some direct ↦ direct
      | none ↦ elim (as_string b) [ none ↦ m | some inner ↦ coalesce (as_object inner) m ]
    ]

abbrev pub some_unless_empty : {A : Type 0} → List A → Option (List A)
some_unless_empty [] = none
some_unless_empty (x ∷ xs) = some (x ∷ xs)

module _ {S : Type 0} (c : Client S) where
  -- `VerifySignature`, over the exact bytes of the body.
  unfoldable pub verify_signature : String → String → Bool
  unfolding hex_encode
  verify_signature body signature = hex_encode (c.gateway.hmac512 c.webhook_key body) =? signature

  abbrev pub typed_event : Option Event → Result Event
  typed_event none = err (text "paystack: decode event")
  typed_event (some e) = if e.event =? "" then err (text "paystack: event missing type") else ok e

  -- `ParseEvent`
  unfoldable pub parse_event : String → Result Event
  parse_event body = typed_event (c.gateway.decode_event body)

  abbrev pub checkout_of : InitializeParams → Checkout
  checkout_of p = record {
    email = p.email;
    amount = p.amount_kobo;
    reference = p.reference;
    metadata = p.metadata;
    currency = "NGN";
    callback_url = null_if_empty p.callback_url;
    channels = some_unless_empty p.channels;
  }

  abbrev pub opened_checkout : Option InitializeEnvelope → Result InitializeResult
  opened_checkout none = err (text "paystack: decode initialize response")
  opened_checkout (some e) =
      if not e.status
      then err (text ("paystack: initialize rejected: " <> e.message))
      else ok e.result

  -- `Initialize`
  unfoldable pub initialize : InitializeParams → Call S InitializeResult
  initialize p =
      prefixed "paystack: initialize"
        (c.gateway.post "/transaction/initialize" ("Bearer " <> c.secret_key) (checkout_of p))
      >>= λ raw s. (opened_checkout (c.gateway.decode_initialize raw), s)

  abbrev pub charge_of : Option Event → Result Event
  charge_of none = err (text "paystack: decode data")
  charge_of (some e) = ok (record e { event = "charge.success" })

  abbrev pub verified_charge : String → Option VerifyEnvelope → Result Event
  verified_charge reference none = err (text "paystack: decode verify response")
  verified_charge reference (some e) =
      if not e.status
      then err (text ("paystack: verify failed for " <> reference))
      else charge_of (c.gateway.decode_charge e.raw)

  -- `Verify`: the transaction as Paystack knows it.
  unfoldable pub verify_charge : String → Call S Event
  verify_charge reference =
      prefixed "paystack: verify"
        (c.gateway.get ("/transaction/verify/" <> reference) ("Bearer " <> c.secret_key))
      >>= λ raw s. (verified_charge reference (c.gateway.decode_verify raw), s)

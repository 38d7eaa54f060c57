-- ===== src/Providers/Schemas.antt =====
-- notification-admin-ui/src/pages/providers/ProvidersPage.tsx: the settings that each provider asks
-- for, and the providers of each channel. The placeholders and the documentation of a schema, which
-- are only drawn, are left out.
use notification_platform.Base.{String, Bool, true, false, List, [], ◌∷◌, Dict}

-- `text` is also the type of a field that names none.
pub data FieldType : Type 0 where
  text number password textarea select : FieldType

pub record ProviderConfigField : Type 0 where
  pub key : String
  pub label : String
  pub type : FieldType
  pub required : Bool
  pub sensitive : Bool
  pub options : List String

pub record ProviderConfigSchema : Type 0 where
  pub title : String
  pub fields : List ProviderConfigField

abbrev field : String → String → FieldType → Bool → Bool → ProviderConfigField
field key label type required sensitive = record {
  key = key;
  label = label;
  type = type;
  required = required;
  sensitive = sensitive;
  options = [];
}

abbrev plain : String → String → Bool → ProviderConfigField
plain key label required = field key label text required false

abbrev secret : String → String → Bool → ProviderConfigField
secret key label required = field key label password required true

abbrev choice : String → String → List String → ProviderConfigField
choice key label options = record (field key label select true false) { options = options }

abbrev schema : String → List ProviderConfigField → ProviderConfigSchema
schema title fields = record { title = title; fields = fields }

-- `DEFAULT_PROVIDER_SCHEMAS`
unfoldable pub default_provider_schemas : Dict ProviderConfigSchema
default_provider_schemas =
    ("mock_email", schema "Mock email" [])
    ∷ ("mock_sms", schema "Mock SMS" [])
    ∷ ("mock_fcm", schema "Mock FCM" [])
    ∷ ("websocket", schema "Internal WebSocket" [])
    ∷ ("in_app", schema "In-app inbox" [])
    ∷ ("database_inbox", schema "Database inbox" [])
    ∷ (
      "smtp",
      schema "SMTP" (
          plain "host" "SMTP host" true
          ∷ field "port" "Port" number true false
          ∷ plain "username" "Username" false
          ∷ secret "password" "Password" false
          ∷ plain "from" "From address" true
          ∷ []),
    )
    ∷ (
      "sendgrid",
      schema "SendGrid" (
          secret "api_key" "API key" true
          ∷ plain "from" "Verified sender email" true
          ∷ plain "from_name" "Sender name" false
          ∷ plain "base_url" "Base URL" false
          ∷ []),
    )
    ∷ (
      "mailgun",
      schema "Mailgun" (
          secret "api_key" "API key or domain sending key" true
          ∷ plain "domain" "Sending domain" true
          ∷ choice "region" "Region" ("US" ∷ "EU" ∷ [])
          ∷ plain "from" "From address" true
          ∷ []),
    )
    ∷ (
      "postmark",
      schema "Postmark" (
          secret "server_token" "Server token" true
          ∷ plain "from" "From address" true
          ∷ plain "message_stream" "Message stream" false
          ∷ []),
    )
    ∷ (
      "brevo",
      schema "Brevo" (
          secret "api_key" "API key" true
          ∷ plain "sender_email" "Sender email" true
          ∷ plain "sender_name" "Sender name" false
          ∷ field "template_id" "Default template ID" number false false
          ∷ []),
    )
    ∷ (
      "resend",
      schema "Resend" (secret "api_key" "API key" true ∷ plain "from" "From address" true ∷ []),
    )
    ∷ (
      "generic_http_sms",
      schema "Generic HTTP SMS" (
          plain "url" "Endpoint URL" true
          ∷ choice "method" "Method" ("POST" ∷ "PUT" ∷ [])
          ∷ secret "token" "Token" false
          ∷ plain "token_header" "Token header" false
          ∷ plain "phone_key" "Phone field key" false
          ∷ plain "message_key" "Message field key" false
          ∷ field "timeout_seconds" "Timeout seconds" number false false
          ∷ field "body_pattern" "Body pattern JSON" textarea false false
          ∷ []),
    )
    ∷ (
      "sparrow",
      schema "Sparrow SMS" (
          plain "url" "Endpoint URL" true
          ∷ secret "token" "Token" true
          ∷ plain "from" "Identity / sender" false
          ∷ field "body_pattern" "Body pattern JSON" textarea false false
          ∷ []),
    )
    ∷ (
      "twilio",
      schema "Twilio SMS" (
          plain "account_sid" "Account SID" true
          ∷ secret "auth_token" "Auth token" true
          ∷ plain "from" "From number or messaging service SID" true
          ∷ plain "status_callback" "Status callback URL" false
          ∷ []),
    )
    ∷ (
      "infobip",
      schema "Infobip SMS" (
          plain "base_url" "Base URL" true
          ∷ secret "api_key" "API key" true
          ∷ plain "from" "Sender" true
          ∷ []),
    )
    ∷ (
      "fcm",
      schema "Firebase Cloud Messaging HTTP v1" (
          field "service_account_json" "Service account JSON" textarea false true
          ∷ plain "service_account_path" "Service account path" false
          ∷ []),
    )
    ∷ (
      "onesignal",
      schema "OneSignal"
          (plain "app_id" "App ID" true ∷ secret "rest_api_key" "REST API key" true ∷ []),
    )
    ∷ (
      "web_push_vapid",
      schema "Web Push VAPID" (
          plain "subject" "VAPID subject" true
          ∷ plain "public_key" "VAPID public key" true
          ∷ secret "private_key" "VAPID private key" true
          ∷ []),
    )
    ∷ []

-- `PROVIDERS_BY_CHANNEL`
unfoldable pub providers_by_channel : Dict (List String)
providers_by_channel =
    (
      "email",
      "mock_email" ∷ "smtp" ∷ "sendgrid" ∷ "mailgun" ∷ "postmark" ∷ "brevo" ∷ "mailjet"
          ∷ "sparkpost" ∷ "resend" ∷ "mandrill" ∷ "ses" ∷ [],
    )
    ∷ (
      "sms",
      "mock_sms" ∷ "generic_http_sms" ∷ "sparrow" ∷ "twilio" ∷ "infobip" ∷ "messagebird" ∷ "vonage"
          ∷ "plivo" ∷ "telnyx" ∷ "sinch" ∷ "aakash_sms" ∷ "quickconnect" ∷ "bangalink" ∷ "ncell"
          ∷ "ntc" ∷ [],
    )
    ∷ ("fcm", "mock_fcm" ∷ "fcm" ∷ "onesignal" ∷ "expo" ∷ "apns" ∷ "hms_push" ∷ [])
    ∷ ("websocket", "websocket" ∷ "pusher" ∷ "ably" ∷ "socketio" ∷ [])
    ∷ ("in_app", "in_app" ∷ "database_inbox" ∷ [])
    ∷ ("web_push", "web_push_vapid" ∷ "onesignal_web_push" ∷ [])
    ∷ ("whatsapp", "whatsapp_cloud" ∷ "twilio_whatsapp" ∷ "messagebird_whatsapp" ∷ [])
    ∷ []

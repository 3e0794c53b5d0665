-- ===== src/SafeData/Examples.antt =====
-- Runs of safe_data.py on a request whose headers hold a cookie.
use research_os.Common.{true, ok, ◌≡◌, refl, ◌↔◌}
use research_os.Common.Text.{codes}
use research_os.Common.Json.{Json, Fields}
use research_os.SafeData.{redacted, is_sensitive_key, redact_secret_keys, reject_secret_keys}
use research_os.SafeData.Redaction.{
  HasNoSecret, Agrees, FieldsAgree, redact_secret_keys-Agrees, redact_secret_keys_lem,
  reject_secret_keys-ok_iff,
}

abbrev headers : Json → Fields → Json
headers value rest = Json.object (Fields.field (codes "Set-Cookie ") value rest)

abbrev request : Json → Json
request value = Json.object (
    Fields.field (codes "headers") (headers value Fields.end)
      (Fields.field (codes "path") (Json.text (codes "/a")) Fields.end))

is_sensitive_key_test : is_sensitive_key (codes "Set-Cookie ") ≡ true
unfolding is_sensitive_key
is_sensitive_key_test = refl

redacted_test : redact_secret_keys (request (Json.text (codes "abc"))) ≡ request redacted
unfolding redact_secret_keys
redacted_test = refl

two_cookies : Agrees (request (Json.text (codes "abc"))) (request Json.null)
two_cookies = Agrees.objects (
    FieldsAgree.open' (Agrees.objects (FieldsAgree.hidden is_sensitive_key_test FieldsAgree.end))
      (FieldsAgree.open' Agrees.text FieldsAgree.end))

redact_secret_keys-Agrees_example :
    redact_secret_keys (request (Json.text (codes "abc"))) ≡ redact_secret_keys (request Json.null)
redact_secret_keys-Agrees_example =
    redact_secret_keys-Agrees (request (Json.text (codes "abc"))) (request Json.null) two_cookies

redact_secret_keys_lem_example :
    Agrees (request Json.null) (redact_secret_keys (request Json.null))
    × (HasNoSecret (request Json.null) → redact_secret_keys (request Json.null) ≡ request Json.null)
    × (redact_secret_keys (redact_secret_keys (request Json.null))
        ≡ redact_secret_keys (request Json.null))
redact_secret_keys_lem_example = redact_secret_keys_lem (request Json.null)

reject_secret_keys-ok_iff_example :
    (reject_secret_keys (request Json.null) ≡ ok (request Json.null))
    ↔ (HasNoSecret (request Json.null) × (request Json.null ≡ request Json.null))
reject_secret_keys-ok_iff_example =
    reject_secret_keys-ok_iff (request Json.null) (request Json.null)

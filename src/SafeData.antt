-- ===== src/SafeData.antt =====
-- safe_data.py: secrets are rejected or redacted by the keys they stand under, at any depth of a JSON
-- document. A reported path is the list of its steps.
pub mod Redaction
mod Examples
use research_os.Common.{
  ℕ, suc, Bool, true, false, ◌&&◌, Result, ok, err, List, [], ◌∷◌, ◌++◌, map, any, is_empty,
  if◌then◌else◌, ◌==◌,
}
use research_os.Common.Text.{Text, codes, text_eq, strip, is_space, is_nonempty, lower}
use research_os.Common.Json.{Json, Items, Fields}

abbrev pub redacted : Json
redacted = Json.text (codes "[REDACTED]")

abbrev pub sensitive_keys : List Text
sensitive_keys =
    codes "authorization"
    ∷ codes "proxy_authorization"
    ∷ codes "api_key"
    ∷ codes "apikey"
    ∷ codes "access_token"
    ∷ codes "refresh_token"
    ∷ codes "token"
    ∷ codes "secret"
    ∷ codes "password"
    ∷ codes "cookie"
    ∷ codes "set_cookie"
    ∷ codes "session"
    ∷ codes "client_secret"
    ∷ codes "session_token"
    ∷ codes "raw_secret"
    ∷ codes "secret_value"
    ∷ codes "credential"
    ∷ codes "openai_api_key"
    ∷ codes "anthropic_api_key"
    ∷ []

-- `.replace("-", "_")`, on a character
abbrev pub underscore : ℕ → ℕ
underscore c = if c == 45 then 95 else c

unfoldable pub normalize_secret_key : Text → Text
unfolding strip is_space lower
normalize_secret_key key = map underscore (lower (strip is_space key))

unfoldable pub is_sensitive_key : Text → Bool
unfolding normalize_secret_key
is_sensitive_key key =
    let normalized = normalize_secret_key key in
    is_nonempty normalized && any (text_eq normalized) sensitive_keys

-- A step of a path: a mapping's key, or an index.
pub data PathStep : Type 0 where
  key : Text → PathStep
  index : ℕ → PathStep

-- What the loop over a mapping does with one of its entries, from whether the key is sensitive, what
-- was collected of the value, and what of the entries that follow.
abbrev pub collect_field :
    Bool
    → Bool
    → List PathStep
    → Text
    → List (List PathStep) × Json
    → List (List PathStep) × Fields
    → List (List PathStep) × Fields
collect_field true true child name item rest = (child ∷ rest.0, Fields.field name redacted rest.1)
collect_field true false child name item rest = (child ∷ rest.0, rest.1)
collect_field false redact child name item rest =
    (item.0 ++ rest.0, Fields.field name item.1 rest.1)

unfoldable mutual
  unfolding is_sensitive_key

  -- `_collect_sensitive`: the paths that were found, and the value that was built.
  pub collect_sensitive : Bool → List PathStep → Json → List (List PathStep) × Json
  collect_sensitive redact path (Json.object fields) =
      let (found, cleaned) = collect_fields redact path fields in (found, Json.object cleaned)
  collect_sensitive redact path (Json.array items) =
      let (found, cleaned) = collect_items redact path 0 items in (found, Json.array cleaned)
  collect_sensitive redact path value = ([], value)

  pub collect_items : Bool → List PathStep → ℕ → Items → List (List PathStep) × Items
  collect_items redact path n Items.nil = ([], Items.nil)
  collect_items redact path n (Items.cons item items) =
      let (found, value) = collect_sensitive redact (path ++ index n ∷ []) item in
      let (more, rest) = collect_items redact path (suc n) items in
      (found ++ more, Items.cons value rest)

  pub collect_fields : Bool → List PathStep → Fields → List (List PathStep) × Fields
  collect_fields redact path Fields.end = ([], Fields.end)
  collect_fields redact path (Fields.field name item fields) =
      let child = path ++ key name ∷ [] in
      collect_field (is_sensitive_key name) redact child name (collect_sensitive redact child item)
        (collect_fields redact path fields)

unfoldable pub walk_sensitive_keys : Json → List (List PathStep)
unfolding collect_sensitive
walk_sensitive_keys value = (collect_sensitive false [] value).0

-- The error carries the paths, not the values.
unfoldable pub reject_secret_keys : Json → Result (List (List PathStep)) Json
unfolding collect_sensitive
reject_secret_keys payload =
    let (found, cleaned) = collect_sensitive false [] payload in
    if is_empty found then ok cleaned else err found

unfoldable pub redact_secret_keys : Json → Json
unfolding collect_sensitive
redact_secret_keys payload = (collect_sensitive true [] payload).1

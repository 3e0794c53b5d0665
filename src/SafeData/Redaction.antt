-- ===== src/SafeData/Redaction.antt =====
-- What safe_data.py redacts and rejects.
use mathlib.Core.Path.{sym, ap}
use research_os.Common.{
  is_empty-append_iff, ok-eq-ok, ℕ, suc, ℤ, Bool, true, false, ok, List, [], ◌∷◌, ◌++◌, is_empty,
  ◌≡◌, refl, ◌↔◌, inl, inr, Bool-cases,
}
use research_os.Common.Text.{Text}
use research_os.Common.Json.{Json, Items, Fields}
use research_os.SafeData.{
  redacted, is_sensitive_key, PathStep, collect_field, key, index, collect_sensitive, collect_items,
  collect_fields, reject_secret_keys, redact_secret_keys,
}

unfoldable mutual
  -- No mapping of the document has a key that names a secret.
  pub HasNoSecret : Json → Type 0
  HasNoSecret (Json.object fields) = FieldsHaveNoSecret fields
  HasNoSecret (Json.array items) = ItemsHaveNoSecret items
  HasNoSecret value = Unit

  pub ItemsHaveNoSecret : Items → Type 0
  ItemsHaveNoSecret Items.nil = Unit
  ItemsHaveNoSecret (Items.cons item items) = HasNoSecret item × ItemsHaveNoSecret items

  pub FieldsHaveNoSecret : Fields → Type 0
  FieldsHaveNoSecret Fields.end = Unit
  FieldsHaveNoSecret (Fields.field name item fields) =
      (is_sensitive_key name ≡ false) × HasNoSecret item × FieldsHaveNoSecret fields

mutual
  -- Two documents that differ at most in what stands under the keys that name a secret.
  pub data Agrees : Json → Json → Type 0 where
    null : Agrees Json.null Json.null
    boolean : {b : Bool} → Agrees (Json.boolean b) (Json.boolean b)
    number : {n : ℤ} → Agrees (Json.number n) (Json.number n)
    text : {t : Text} → Agrees (Json.text t) (Json.text t)
    objects : {fs gs : Fields} → FieldsAgree fs gs → Agrees (Json.object fs) (Json.object gs)
    arrays : {xs ys : Items} → ItemsAgree xs ys → Agrees (Json.array xs) (Json.array ys)

  pub data ItemsAgree : Items → Items → Type 0 where
    nil : ItemsAgree Items.nil Items.nil
    cons :
        {x y : Json} {xs ys : Items}
        → Agrees x y
        → ItemsAgree xs ys
        → ItemsAgree (Items.cons x xs) (Items.cons y ys)

  pub data FieldsAgree : Fields → Fields → Type 0 where
    end : FieldsAgree Fields.end Fields.end
    open' :
        {name : Text} {x y : Json} {fs gs : Fields}
        → Agrees x y
        → FieldsAgree fs gs
        → FieldsAgree (Fields.field name x fs) (Fields.field name y gs)
    hidden :
        {name : Text} {x y : Json} {fs gs : Fields}
        → is_sensitive_key name ≡ true
        → FieldsAgree fs gs
        → FieldsAgree (Fields.field name x fs) (Fields.field name y gs)

redact_open :
    (b : Bool) (child child' : List PathStep) (name : Text)
    (item item' : List (List PathStep) × Json) (rest rest' : List (List PathStep) × Fields)
    → item.1 ≡ item'.1
    → rest.1 ≡ rest'.1
    → (collect_field b true child name item rest).1
      ≡ (collect_field b true child' name item' rest').1
redact_open true child child' name item item' rest rest' e h = ap (Fields.field name redacted) h
redact_open false child child' name item item' rest rest' e h = rw (e, h) refl

redact_hidden :
    (b : Bool) (child child' : List PathStep) (name : Text)
    (item item' : List (List PathStep) × Json) (rest rest' : List (List PathStep) × Fields)
    → b ≡ true
    → rest.1 ≡ rest'.1
    → (collect_field b true child name item rest).1
      ≡ (collect_field b true child' name item' rest').1
redact_hidden true child child' name item item' rest rest' s h = ap (Fields.field name redacted) h
redact_hidden false child child' name item item' rest rest' s h = cc

mutual
  unfolding collect_sensitive

  redact-Agrees :
      (path path' : List PathStep) {x y : Json}
      → Agrees x y
      → (collect_sensitive true path x).1 ≡ (collect_sensitive true path' y).1
  redact-Agrees path path' null = refl
  redact-Agrees path path' boolean = refl
  redact-Agrees path path' number = refl
  redact-Agrees path path' text = refl
  redact-Agrees path path' (objects h) = ap Json.object (fields-FieldsAgree path path' h)
  redact-Agrees path path' (arrays h) = ap Json.array (items-ItemsAgree path path' 0 0 h)

  items-ItemsAgree :
      (path path' : List PathStep) (n m : ℕ) {xs ys : Items}
      → ItemsAgree xs ys
      → (collect_items true path n xs).1 ≡ (collect_items true path' m ys).1
  items-ItemsAgree path path' n m nil = refl
  items-ItemsAgree path path' n m (cons h hs) =
      rw
        (
          redact-Agrees (path ++ index n ∷ []) (path' ++ index m ∷ []) h,
          items-ItemsAgree path path' (suc n) (suc m) hs,
        )
        refl

  fields-FieldsAgree :
      (path path' : List PathStep) {fs gs : Fields}
      → FieldsAgree fs gs
      → (collect_fields true path fs).1 ≡ (collect_fields true path' gs).1
  fields-FieldsAgree path path' end = refl
  fields-FieldsAgree path path' (open' {name} h hs) =
      redact_open (is_sensitive_key name) (path ++ key name ∷ []) (path' ++ key name ∷ []) name _ _
        _ _ (redact-Agrees (path ++ key name ∷ []) (path' ++ key name ∷ []) h)
        (fields-FieldsAgree path path' hs)
  fields-FieldsAgree path path' (hidden {name} s hs) =
      redact_hidden (is_sensitive_key name) (path ++ key name ∷ []) (path' ++ key name ∷ []) name _
        _ _ _ s (fields-FieldsAgree path path' hs)

-- Documents that differ only in what stands under keys that name a secret have the same redaction.
pub redact_secret_keys-Agrees :
    (x y : Json) → Agrees x y → redact_secret_keys x ≡ redact_secret_keys y
unfolding redact_secret_keys
redact_secret_keys-Agrees x y h = redact-Agrees [] [] h

-- Collecting from a field leaves the document alone and finds nothing exactly if its key is not sensitive.
field_iff :
    (b redact : Bool) (child : List PathStep) (name : Text) (item : List (List PathStep) × Json)
    (rest : List (List PathStep) × Fields)
    → (is_empty (collect_field b redact child name item rest).0 ≡ true)
      ↔ ((b ≡ false) × (is_empty item.0 ≡ true) × (is_empty rest.0 ≡ true))
field_iff true true child name item rest = (λ h. cc, λ h. cc)
field_iff true false child name item rest = (λ h. cc, λ h. cc)
field_iff false redact child name item rest =
    let both = is_empty-append_iff item.0 rest.0 in
    (λ h. let (a, b) = both.0 h in (refl, a, b), λ (s, a, b). both.1 (a, b))

mutual
  unfolding collect_sensitive HasNoSecret

  found_iff :
      (path : List PathStep) (x : Json)
      → (is_empty (collect_sensitive false path x).0 ≡ true) ↔ HasNoSecret x
  found_iff path (Json.object fs) = found_fields_iff path fs
  found_iff path (Json.array xs) = found_items_iff path 0 xs
  found_iff path Json.null = (λ h. tt, λ h. refl)
  found_iff path (Json.boolean b) = (λ h. tt, λ h. refl)
  found_iff path (Json.number n) = (λ h. tt, λ h. refl)
  found_iff path (Json.text t) = (λ h. tt, λ h. refl)

  found_items_iff :
      (path : List PathStep) (n : ℕ) (xs : Items)
      → (is_empty (collect_items false path n xs).0 ≡ true) ↔ ItemsHaveNoSecret xs
  found_items_iff path n Items.nil = (λ h. tt, λ h. refl)
  found_items_iff path n (Items.cons x xs) =
      let both =
        is_empty-append_iff (collect_sensitive false (path ++ index n ∷ []) x).0
          (collect_items false path (suc n) xs).0 in
      let item = found_iff (path ++ index n ∷ []) x in
      let rest = found_items_iff path (suc n) xs in
      (λ h. let (a, b) = both.0 h in (item.0 a, rest.0 b), λ (a, b). both.1 (item.1 a, rest.1 b))

  found_fields_iff :
      (path : List PathStep) (fs : Fields)
      → (is_empty (collect_fields false path fs).0 ≡ true) ↔ FieldsHaveNoSecret fs
  found_fields_iff path Fields.end = (λ h. tt, λ h. refl)
  found_fields_iff path (Fields.field name x fs) =
      let child = path ++ key name ∷ [] in
      let all =
        field_iff (is_sensitive_key name) false child name (collect_sensitive false child x)
          (collect_fields false path fs) in
      let item = found_iff child x in
      let rest = found_fields_iff path fs in
      (
        λ h. let (s, a, b) = all.0 h in (s, item.0 a, rest.0 b),
        λ (s, a, b). all.1 (s, item.1 a, rest.1 b),
      )

mutual
  unfolding collect_sensitive HasNoSecret

  unchanged :
      (redact : Bool) (path : List PathStep) (x : Json)
      → HasNoSecret x
      → (collect_sensitive redact path x).1 ≡ x
  unchanged redact path (Json.object fs) h = ap Json.object (unchanged_fields redact path fs h)
  unchanged redact path (Json.array xs) h = ap Json.array (unchanged_items redact path 0 xs h)
  unchanged redact path Json.null h = refl
  unchanged redact path (Json.boolean b) h = refl
  unchanged redact path (Json.number n) h = refl
  unchanged redact path (Json.text t) h = refl

  unchanged_items :
      (redact : Bool) (path : List PathStep) (n : ℕ) (xs : Items)
      → ItemsHaveNoSecret xs
      → (collect_items redact path n xs).1 ≡ xs
  unchanged_items redact path n Items.nil h = refl
  unchanged_items redact path n (Items.cons x xs) (a, b) =
      rw (unchanged redact (path ++ index n ∷ []) x a, unchanged_items redact path (suc n) xs b)
        refl

  unchanged_fields :
      (redact : Bool) (path : List PathStep) (fs : Fields)
      → FieldsHaveNoSecret fs
      → (collect_fields redact path fs).1 ≡ fs
  unchanged_fields redact path Fields.end h = refl
  unchanged_fields redact path (Fields.field name x fs) (s, a, b) =
      rw s
        (rw (unchanged redact (path ++ key name ∷ []) x a, unchanged_fields redact path fs b) refl)

redacted-FieldsAgree :
    (b : Bool) (child : List PathStep) (name : Text) (x : Json) (fs : Fields)
    (item : List (List PathStep) × Json) (rest : List (List PathStep) × Fields)
    → is_sensitive_key name ≡ b
    → Agrees x item.1
    → FieldsAgree fs rest.1
    → FieldsAgree (Fields.field name x fs) (collect_field b true child name item rest).1
redacted-FieldsAgree true child name x fs item rest s a h = FieldsAgree.hidden s h
redacted-FieldsAgree false child name x fs item rest s a h = FieldsAgree.open' a h

mutual
  unfolding collect_sensitive

  redacted-Agrees : (path : List PathStep) (x : Json) → Agrees x (collect_sensitive true path x).1
  redacted-Agrees path (Json.object fs) = Agrees.objects (redacted_fields path fs)
  redacted-Agrees path (Json.array xs) = Agrees.arrays (redacted_items path 0 xs)
  redacted-Agrees path Json.null = Agrees.null
  redacted-Agrees path (Json.boolean b) = Agrees.boolean
  redacted-Agrees path (Json.number n) = Agrees.number
  redacted-Agrees path (Json.text t) = Agrees.text

  redacted_items :
      (path : List PathStep) (n : ℕ) (xs : Items) → ItemsAgree xs (collect_items true path n xs).1
  redacted_items path n Items.nil = ItemsAgree.nil
  redacted_items path n (Items.cons x xs) =
      ItemsAgree.cons (redacted-Agrees (path ++ index n ∷ []) x) (redacted_items path (suc n) xs)

  redacted_fields :
      (path : List PathStep) (fs : Fields) → FieldsAgree fs (collect_fields true path fs).1
  redacted_fields path Fields.end = FieldsAgree.end
  redacted_fields path (Fields.field name x fs) =
      let child = path ++ key name ∷ [] in
      redacted-FieldsAgree (is_sensitive_key name) child name x fs (collect_sensitive true child x)
        (collect_fields true path fs) refl (redacted-Agrees child x) (redacted_fields path fs)

-- The redaction of any document differs from it only in what stands under keys that name a secret, is
-- the document itself where there is no such key, and is not changed by a second redaction.
pub redact_secret_keys_lem :
    (x : Json)
    → Agrees x (redact_secret_keys x)
      × (HasNoSecret x → redact_secret_keys x ≡ x)
      × (redact_secret_keys (redact_secret_keys x) ≡ redact_secret_keys x)
unfolding redact_secret_keys
redact_secret_keys_lem x = (
  redacted-Agrees [] x,
  unchanged true [] x,
  sym (redact_secret_keys-Agrees x (redact_secret_keys x) (redacted-Agrees [] x)),
)

-- A document is accepted exactly if no mapping in it, at any depth, has a key that names a secret, and it is
-- then returned as it is.
pub reject_secret_keys-ok_iff :
    (x cleaned : Json) → (reject_secret_keys x ≡ ok cleaned) ↔ (HasNoSecret x × (cleaned ≡ x))
unfolding reject_secret_keys
reject_secret_keys-ok_iff x cleaned =
    let found = found_iff [] x in
    let same = unchanged false [] x in
    elim (Bool-cases (is_empty (collect_sensitive false [] x).0)) [
      | inl none_found ↦
          let clean = found.0 none_found in
          rw (none_found, same clean) (λ h. (clean, sym (ok-eq-ok h)), λ h. ap ok (sym h.1))
      | inr some_found ↦ rw some_found (λ h. cc, λ h. let none_found = found.1 h.0 in cc)
    ]

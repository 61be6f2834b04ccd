-- ===== src/Api/Laws.antt =====
-- The message of a failed request says something: frontend/src/api/client.ts, lines 158 to 254.
use mathlib.Core.Option.{map}
use rmm_rxf_sys_de.Base.{
  take, ◌-◌, Bool-cases, ◌==◌, ℕ, ◌⊎◌, inl, inr, ◌≡◌, refl, Bool, true, false, not, ap, ◌&&◌,
  String, Option, none, some, List, [], ◌∷◌, str_eq, arith, length,
}
use rmm_rxf_sys_de.Base.Text.{decimal, parts, join}
use rmm_rxf_sys_de.Base.Empty.{is_empty, is_empty-append, is_empty-eq}
use rmm_rxf_sys_de.Api.Json.{Json, null, bool, num, str, arr, obj, Items, no_items, item, field}
use rmm_rxf_sys_de.Api.Issue.{
  validation_message, validation_issue, clauses, switch, too_short, is_one_number, invalid,
  ctx_number, ctx_of, bounded, with_issue, max_issues, rest_text, issues_of, issues_text, distinct,
  field_name, text_of,
}
use rmm_rxf_sys_de.Api.Error.{
  Thrown, api_error, type_error, plain_error, anything, status_text, or_text, detail_text,
  body_text, api_error_message,
}

both : (b c : Bool) → b && c ≡ true → (b ≡ true) × (c ≡ true)
both true true h = (refl, refl)
both true false h = ground arith
both false c h = ground arith

six :
    (a b c d e f : Bool)
    → a && b && c && d && e && f ≡ true
    → (a ≡ true) × (b ≡ true) × (c ≡ true) × (d ≡ true) × (e ≡ true) × (f ≡ true)
six a b c d e f h = ground arith

-- There is a text, and it is not empty.
abbrev pub says : Option String → Bool
says none = false
says (some t) = not (is_empty t)

abbrev is_some : {A : Type 0} → Option A → Bool
is_some none = false
is_some (some a) = true

module _ {N : Type 0} where
  -- A bound that is absent, null, a number or a text, as the server writes bounds.
  abbrev is_plain : Option (Json N) → Bool
  is_plain none = true
  is_plain (some null) = true
  is_plain (some (num n)) = true
  is_plain (some (str s)) = true
  is_plain (some v) = false

  -- All bounds in the context of a violation are.
  abbrev pub plain_bounds : Json N → Bool
  plain_bounds ctx =
      is_plain (field "min_length" ctx)
      && is_plain (field "max_length" ctx)
      && is_plain (field "ge" ctx)
      && is_plain (field "le" ctx)
      && is_plain (field "gt" ctx)
      && is_plain (field "lt" ctx)

  abbrev pub all_plain : Items N → Bool
  all_plain no_items = true
  all_plain (item v vs) = plain_bounds (ctx_of v) && all_plain vs

  abbrev plain_detail : Option (Json N) → Bool
  plain_detail (some (arr vs)) = all_plain vs
  plain_detail _ = true

  abbrev plain_body : Option (Json N) → Bool
  plain_body none = true
  plain_body (some parsed) = plain_detail (field "detail" parsed)

-- The bounds in the violations that an answer lists are plain.
abbrev pub plain_answer : {N : Type 0} → (String → Option (Json N)) → Thrown → Bool
plain_answer parse (api_error status body) = plain_body (parse body)
plain_answer parse _ = true

bounded-is_some :
    (b : String) (o : Option String) (a : String)
    → is_some o ≡ true
    → is_some (bounded b o a) ≡ true
bounded-is_some b none a h = h
bounded-is_some b (some t) a h = refl

with_issue-is_some :
    (o : Option String) (os : Option (List String))
    → is_some o ≡ true
    → is_some os ≡ true
    → is_some (with_issue o os) ≡ true
with_issue-is_some none os h k = h
with_issue-is_some (some t) none h k = k
with_issue-is_some (some t) (some ts) h k = refl

infixr 4 ◌also◌
◌also◌ : {A B : Type 0} → A → B → A × B
a also b = (a, b)

abbrev AllSome : List (List String × Option String) → Type 0
AllSome [] = Unit
AllSome ((names, clause) ∷ cases) = (is_some clause ≡ true) × AllSome cases

switch-is_some :
    (type f : String) (cases : List (List String × Option String))
    → AllSome cases
    → is_some (switch type cases (some f)) ≡ true
switch-is_some type f [] h = refl
switch-is_some type f ((names, clause) ∷ cases) (h, hs) =
    ground (arith, switch-is_some type f cases hs)

issues_text-says : (ts : List String) → is_empty (issues_text ts) ≡ false
issues_text-says ts = elim (Bool-cases (length (distinct ts) == 0)) [
  | inl empty ↦ rw (empty) refl
  | inr more ↦ rw (more) (
      is_empty-append "Ungültige Eingabe: " (
        parts (
          join "; " (take max_issues (distinct ts))
          ∷ rest_text (length (distinct ts) - max_issues)
          ∷ "."
          ∷ [])))
]

status_text-says : (status : ℕ) → says (some (status_text status)) ≡ true
status_text-says status = ap not (is_empty-append "Fehler " (parts (decimal status ∷ [])))

or_text-says : (t : String) (status : ℕ) → says (some (or_text t (status_text status))) ≡ true
or_text-says t status = ground (arith, status_text-says status, is_empty-eq t)

module _ {N : Type 0} (plain local : N → String) (is_one : N → Bool)
    (other : Json N → Option String) (parse : String → Option (Json N)) where
  number-is_some :
      (o : Option (Json N))
      → is_plain o ≡ true
      → is_some (ctx_number plain local is_one other o) ≡ true
  number-is_some none h = refl
  number-is_some (some null) h = refl
  number-is_some (some (num n)) h = refl
  number-is_some (some (str s)) h = refl
  number-is_some (some (bool b)) h = ground arith
  number-is_some (some (arr vs)) h = ground arith
  number-is_some (some (obj fs)) h = ground arith

  bounded_number :
      (b a : String) (o : Option (Json N))
      → is_plain o ≡ true
      → is_some (bounded b (ctx_number plain local is_one other o) a) ≡ true
  bounded_number b a o h =
      bounded-is_some b (ctx_number plain local is_one other o) a (number-is_some o h)

  too_short-is_some :
      (f : String) (raw : Json N)
      → is_plain (field "min_length" (ctx_of raw)) ≡ true
      → is_some (too_short plain local is_one other f raw) ≡ true
  too_short-is_some f raw h =
      elim (Bool-cases (is_one_number plain local is_one other (field "min_length" (ctx_of raw)))) [
        | inl one ↦ rw (one) refl
        | inr more ↦ rw (more) (bounded_number _ _ (field "min_length" (ctx_of raw)) h)
      ]

  all-clauses :
      (f : String) (raw : Json N)
      → plain_bounds (ctx_of raw) ≡ true
      → AllSome (clauses plain local is_one other f raw)
  unfolding clauses
  all-clauses f raw h = all (
      six (is_plain (field "min_length" (ctx_of raw))) (is_plain (field "max_length" (ctx_of raw)))
        (is_plain (field "ge" (ctx_of raw))) (is_plain (field "le" (ctx_of raw)))
        (is_plain (field "gt" (ctx_of raw))) (is_plain (field "lt" (ctx_of raw))) h)
    where
      all :
          (is_plain (field "min_length" (ctx_of raw)) ≡ true)
            × (is_plain (field "max_length" (ctx_of raw)) ≡ true)
            × (is_plain (field "ge" (ctx_of raw)) ≡ true)
            × (is_plain (field "le" (ctx_of raw)) ≡ true)
            × (is_plain (field "gt" (ctx_of raw)) ≡ true)
            × (is_plain (field "lt" (ctx_of raw)) ≡ true)
          → AllSome (clauses plain local is_one other f raw)
      all (least, most, from, up_to, above, below) =
          refl
          also too_short-is_some f raw least
          also bounded_number _ _ (field "max_length" (ctx_of raw)) most
          also refl
          also refl
          also refl
          also bounded_number _ _ (field "ge" (ctx_of raw)) from
          also bounded_number _ _ (field "le" (ctx_of raw)) up_to
          also bounded_number _ _ (field "gt" (ctx_of raw)) above
          also bounded_number _ _ (field "lt" (ctx_of raw)) below
          also refl
          also refl
          also refl
          also refl
          also refl
          also refl
          also refl
          also tt

  validation_issue-is_some :
      (raw : Json N)
      → plain_bounds (ctx_of raw) ≡ true
      → is_some (validation_issue plain local is_one other raw) ≡ true
  unfolding validation_issue
  validation_issue-is_some raw h =
      elim (Bool-cases
        (str_eq (text_of plain local is_one other (field "type" raw)) "json_invalid")) [
          | inl json ↦ rw (json) refl
          | inr more ↦ rw (more) (
              switch-is_some (text_of plain local is_one other (field "type" raw))
                (invalid (field_name plain local is_one other raw))
                (clauses plain local is_one other (field_name plain local is_one other raw) raw)
                (all-clauses (field_name plain local is_one other raw) raw h))
        ]

  issues_of-is_some :
      (vs : Items N) → all_plain vs ≡ true → is_some (issues_of plain local is_one other vs) ≡ true
  issues_of-is_some no_items h = refl
  issues_of-is_some (item v vs) h =
      with_issue-is_some (validation_issue plain local is_one other v)
        (issues_of plain local is_one other vs)
        (validation_issue-is_some v (both (plain_bounds (ctx_of v)) (all_plain vs) h).0)
        (issues_of-is_some vs (both (plain_bounds (ctx_of v)) (all_plain vs) h).1)

  validation_message-says :
      (vs : Items N)
      → all_plain vs ≡ true
      → says (validation_message plain local is_one other vs) ≡ true
  unfolding validation_message
  validation_message-says vs h =
      text-says (issues_of plain local is_one other vs) (issues_of-is_some vs h)
    where
      text-says : (o : Option (List String)) → is_some o ≡ true → says (map issues_text o) ≡ true
      text-says none h = h
      text-says (some ts) h = ap not (issues_text-says ts)

  detail_text-says :
      (status : ℕ) (d : Option (Json N))
      → plain_detail d ≡ true
      → says (detail_text plain local is_one other parse status d) ≡ true
  detail_text-says status none h = status_text-says status
  detail_text-says status (some (str s)) h = or_text-says s status
  detail_text-says status (some (arr vs)) h = validation_message-says vs h
  detail_text-says status (some null) h = status_text-says status
  detail_text-says status (some (bool b)) h = status_text-says status
  detail_text-says status (some (num n)) h = status_text-says status
  detail_text-says status (some (obj fs)) h = status_text-says status

  body_text-says :
      (status : ℕ) (body : String) (o : Option (Json N))
      → plain_body o ≡ true
      → says (body_text plain local is_one other parse status body o) ≡ true
  body_text-says status body none h = or_text-says body status
  body_text-says status body (some parsed) h = detail_text-says status (field "detail" parsed) h

  -- Whatever a request throws, the page has something to say, whatever `String` does with the values
  -- that the answer holds: as long as the bounds that a listed violation gives in its context are
  -- numbers, texts, null or absent, the message exists and is not empty; only an `Error` without a
  -- message has an empty one.
  pub api_error_message_lem :
      (e : Thrown)
      → plain_answer parse e ≡ true
      → (says (api_error_message plain local is_one other parse e) ≡ true) ⊎ (e ≡ plain_error "")
  unfolding api_error_message
  api_error_message_lem type_error h = inl refl
  api_error_message_lem (api_error status body) h = inl (body_text-says status body (parse body) h)
  api_error_message_lem (plain_error String.[]) h = inr refl
  api_error_message_lem (plain_error (String.◌∷◌ c s)) h = inl refl
  api_error_message_lem anything h = inl refl

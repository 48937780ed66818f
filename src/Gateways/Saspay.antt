-- ===== src/Gateways/Saspay.antt =====
-- pkg/saspay/client.go: the payments of SasPay, and the texts of its errors.
use Prim.Native.String.{◌++◌ as ◌+s◌}
use nexium_storage_back.Shared.{
  String, Option, none, some, List, [], ◌∷◌, ◌=s=◌, leb, if◌then◌else◌, find_by,
}
use nexium_storage_back.Gateways.Answers.{Answer, Outcome, got, refused, unreadable, unreachable}

-- `Payment`
pub record SaspayPayment : Type 0 where
  pub id : String
  pub status : String
  pub checkout_url : String
  pub failure_reason : String
  pub description : String

-- `json.Unmarshal` of a text into the types that the client asks for.
pub record Decoder : Type 0 where
  pub payment : String → Option SaspayPayment
  -- the struct with a pointer `Data`
  pub wrapper : String → Option (Option SaspayPayment)
  -- `map[string]json.RawMessage`, in the order in which Go ranges over it
  pub object : String → Option (List (String × String))
  pub text : String → Option String
  pub texts : String → Option (List String)

abbrev payment_or_error : Option SaspayPayment → Outcome SaspayPayment
payment_or_error none = unreadable
payment_or_error (some p) = got p

unfoldable pub unmarshal_payment : Decoder → String → Outcome SaspayPayment
unmarshal_payment d b = elim (d.wrapper b) [
  | none ↦ unreadable
  | some none ↦ payment_or_error (d.payment b)
  | some (some p) ↦ if p.id =s= "" then payment_or_error (d.payment b) else got p
]

-- `strings.Join`
unfoldable pub join : String → List String → String
join sep [] = ""
join sep (s ∷ []) = s
join sep (s ∷ t ∷ ts) = s +s (sep +s join sep (t ∷ ts))

abbrev pub raw : String → List (String × String) → Option (String × String)
raw key fields = find_by (λ (f : String × String). f.0 =s= key) fields

-- A text that is not empty.
abbrev some_text : Option String → Option String
some_text none = none
some_text (some s) = if s =s= "" then none else some s

abbrev text_of : Decoder → Option (String × String) → Option String
text_of d none = none
text_of d (some f) = some_text (d.text f.1)

abbrev or_else : Option String → Option String → Option String
or_else none other = other
or_else (some s) other = some s

-- The first of the keys with a text.
unfoldable pub first_text : Decoder → List (String × String) → List String → Option String
first_text d fields [] = none
first_text d fields (key ∷ keys) = or_else (text_of d (raw key fields)) (first_text d fields keys)

abbrev pub joined : String → Option (List String) → Option String
joined sep none = none
joined sep (some []) = none
joined sep (some (s ∷ ss)) = some (join sep (s ∷ ss))

abbrev non_field_errors : Decoder → Option (String × String) → Option String
non_field_errors d none = none
non_field_errors d (some f) = joined "; " (d.texts f.1)

-- The lists of texts among the values.
unfoldable pub parts_of : Decoder → List (String × String) → List String
parts_of d [] = []
parts_of d (f ∷ fs) =
    let rest = parts_of d fs in elim (d.texts f.1) [ none ↦ rest | some ss ↦ join ", " ss ∷ rest ]

abbrev parts_in : Decoder → Option (List (String × String)) → Option String
parts_in d none = none
parts_in d (some fs) = joined "; " (some (parts_of d fs))

abbrev errors_in : Decoder → Option (String × String) → Option String
errors_in d none = none
errors_in d (some f) = or_else (some_text (d.text f.1)) (parts_in d (d.object f.1))

abbrev text_in : Decoder → Option (List (String × String)) → Option String
text_in d none = none
text_in d (some fs) = first_text d fs ("message" ∷ "error" ∷ "detail" ∷ [])

abbrev data_in : Decoder → Option (String × String) → Option String
data_in d none = none
data_in d (some f) = text_in d (d.object f.1)

abbrev message_in : Decoder → List (String × String) → Option String
message_in d fields =
    or_else (first_text d fields ("detail" ∷ "message" ∷ "error" ∷ "description" ∷ [])) (
      or_else (non_field_errors d (raw "non_field_errors" fields))
        (or_else (errors_in d (raw "errors" fields)) (data_in d (raw "data" fields))))

-- Without a message, and where the body is no object, it is the body.
unfoldable pub extract_error_msg : Decoder → String → String
extract_error_msg d b = elim (d.object b) [
  | none ↦ b
  | some fields ↦ elim (message_in d fields) [ none ↦ b | some s ↦ s ]
]

-- `CreatePayment` and `GetPayment`, which differ in the request only.
unfoldable pub saspay_outcome : Decoder → Option Answer → Outcome SaspayPayment
saspay_outcome d none = unreachable
saspay_outcome d (some a) =
    if leb 300 a.status
    then refused a.status (extract_error_msg d a.body)
    else unmarshal_payment d a.body

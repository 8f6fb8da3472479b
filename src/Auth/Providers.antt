-- ===== src/Auth/Providers.antt =====
-- What backend/app/auth/kakao.py and backend/app/auth/naver.py share: answers of a provider over HTTP,
-- and the values of their JSON. The client, `str` of a value and `urlencode` are parameters.
pub mod Kakao
pub mod Naver
pub mod Emails
use price_checker.Base.{
  ℕ, Bool, true, false, not, ◌∷◌, [], ◌≡◌, Option, none, some, List, Text, codes, text_eq, leb,
  if◌then◌else◌,
}
use price_checker.Errors.{Error, Result, ok, err, attribute_error, value_error}

-- Of a number: its literal, and whether it is zero. The names of an object differ.
mutual
  pub data Value : Type 0 where
    null : Value
    boolean : Bool → Value
    number : Text → Bool → Value
    str : Text → Value
    array : Values → Value
    object : Members → Value

  pub data Values : Type 0 where
    nil : Values
    cons : Value → Values → Values

  pub data Members : Type 0 where
    empty : Members
    member : Text → Value → Members → Members

-- `bool(value)`
unfoldable pub truthy : Value → Bool
truthy null = false
truthy (boolean b) = b
truthy (number _ is_zero) = not is_zero
truthy (str []) = false
truthy (str (_ ∷ _)) = true
truthy (array nil) = false
truthy (array (cons _ _)) = true
truthy (object empty) = false
truthy (object (member _ _ _)) = true

abbrev pub is_full : Text → Bool
is_full [] = false
is_full (_ ∷ _) = true

-- `str(value)`, which is empty of an empty text only.
pub record PyStr : Type 0 where
  pub text_of : Value → Text
  pub text_of-str : (s : Text) → text_of (str s) ≡ s
  pub text_of-full : (v : Value) → truthy v ≡ true → is_full (text_of v) ≡ true

pub record Response : Type 0 where
  pub status_code : ℕ
  -- `json()`, where `none` is a `ValueError`
  pub json : Option Value

abbrev pub Fields : Type 0
Fields = List (Text × Text)

-- A call by its URL, the form or the query, and the headers; `none` is an `HTTPError`.
pub record Http : Type 0 where
  pub post : Text → Fields → Fields → Option Response
  pub get : Text → Fields → Fields → Option Response

pub find_member : Text → Members → Value
find_member name empty = null
find_member name (member key value rest) = if text_eq key name then value else find_member name rest

-- `value.get(name)`
unfoldable pub get : Text → Value → Result Value
get name (object members) = ok (find_member name members)
get name null = err attribute_error
get name (boolean _) = err attribute_error
get name (number _ _) = err attribute_error
get name (str _) = err attribute_error
get name (array _) = err attribute_error

-- `value or {}`
unfoldable pub or_object : Value → Value
or_object v = if truthy v then v else object empty

-- `a or b`
unfoldable pub or_value : Value → Value → Value
or_value a b = if truthy a then a else b

abbrev json_of : Option Value → Result Value
json_of none = err value_error
json_of (some v) = ok v

-- The body of an answer; a call that fails and a status code from 400 raise `failure`.
unfoldable pub body_or : Error → Option Response → Result Value
body_or failure none = err failure
body_or failure (some response) =
    if leb 400 response.status_code then err failure else json_of response.json

-- `access_token`, a text that is not empty.
unfoldable pub token_or : Error → Value → Result Text
token_or failure (str (c ∷ s)) = ok (c ∷ s)
token_or failure (str []) = err failure
token_or failure null = err failure
token_or failure (boolean _) = err failure
token_or failure (number _ _) = err failure
token_or failure (array _) = err failure
token_or failure (object _) = err failure

-- `str(value) if value else None`
unfoldable pub optional_text : PyStr → Value → Option Text
optional_text py v = if truthy v then some (py.text_of v) else none

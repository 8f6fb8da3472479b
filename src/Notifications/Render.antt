-- ===== src/Notifications/Render.antt =====
-- `render_version` and `_render_text` of `NotificationTemplateService` in
-- backend/app/notifications/service.py. The pattern `{{\s*([a-zA-Z_][a-zA-Z0-9_]*)\s*}}` is read
-- by hand: its parts share no character, so each repetition takes all that it can.
pub mod Placeholders
use price_checker.Base.{
  ℕ, zero, suc, ◌-◌, Bool, true, false, ◌&&◌, ◌||◌, not, Option, none, some, ◌∷◌, [], ◌++◌, List,
  map, Text, codes, text_eq, str_int, starts_with, drop, length, leb, ◌==◌, if◌then◌else◌, filter,
  is_none, Unicode, lstrip,
}
use price_checker.Errors.{
  Result, ok, err, and_then, missing_template_variables, invalid_template_variables,
}
use price_checker.Models.Notification.{
  NotificationTemplateVersion, Json, null, boolean, int, str, Payload, RequiredEntry, absent, names,
  not_a_list,
}

pub record RenderedNotification : Type 0 where
  pub title : Option Text
  pub body : Text
  pub fallback_body : Option Text
  pub variables : Payload

-- `variables[name]`, where the name is there.
unfoldable pub lookup : Text → Payload → Option Json
lookup name [] = none
lookup name ((key, value) ∷ rest) = if text_eq key name then some value else lookup name rest

-- `str(value)`
abbrev pub py_str : Json → Text
py_str null = codes "None"
py_str (boolean true) = codes "True"
py_str (boolean false) = codes "False"
py_str (int n) = str_int n
py_str (str s) = s

abbrev pub is_letter : ℕ → Bool
is_letter c = (leb b'a' c && leb c b'z') || (leb b'A' c && leb c b'Z') || c == b'_'

abbrev pub is_name_char : ℕ → Bool
is_name_char c = is_letter c || (leb b'0' c && leb c b'9')

-- The name characters that a text begins with, and the rest.
abbrev pub take_name : Text → Text
take_name [] = []
take_name (c ∷ s) = if is_name_char c then c ∷ take_name s else []

abbrev pub drop_name : Text → Text
drop_name [] = []
drop_name (c ∷ s) = if is_name_char c then drop_name s else c ∷ s

-- The name that begins with a letter, or none.
abbrev pub valid_name : Text → Option Text
valid_name [] = none
valid_name (c ∷ s) = if is_letter c then some (c ∷ s) else none

module _ (u : Unicode) where
  -- A placeholder at the start of a text: its name, and what follows.
  placeholder : Text → Option (Text × Text)
  placeholder text =
      if starts_with text (codes "{{")
      then (let inner = lstrip u (drop 2 text) in
          let rest = lstrip u (drop_name inner) in
          elim (valid_name (take_name inner)) [
            | none ↦ none
            | some name ↦ if starts_with rest (codes "}}") then some (name, drop 2 rest) else none
          ])
      else none

  -- `_VARIABLE_PATTERN.sub(_replace, text)` behind `skip` characters of a placeholder that has
  -- been replaced.
  substitute : Payload → ℕ → Text → Result Text
  substitute variables skip [] = ok []
  substitute variables (suc skip) (c ∷ s) = substitute variables skip s
  substitute variables zero (c ∷ s) = elim (placeholder (c ∷ s)) [
    | none ↦ and_then (substitute variables 0 s) (λ rest. ok (c ∷ rest))
    | some (name, after) ↦ elim (lookup name variables) [
      | none ↦ err (missing_template_variables name)
      | some value ↦
          and_then (substitute variables (length s - length after) s)
            (λ rest. ok (py_str value ++ rest))
    ]
  ]

  pub render_text : Text → Payload → Result Text
  render_text text variables = substitute variables 0 text

-- `_required_variables`
pub required_variables : NotificationTemplateVersion → Result (List Text)
required_variables version = elim version.variables [
  | absent ↦ ok []
  | names values ↦ ok values
  | not_a_list ↦ err invalid_template_variables
]

-- `','.join(missing)`
abbrev pub join_commas : List Text → Text
join_commas [] = []
join_commas (x ∷ []) = x
join_commas (x ∷ y ∷ xs) = x ++ codes "," ++ join_commas (y ∷ xs)

module _ (u : Unicode) where
  -- A part that may be missing.
  abbrev render_optional : Option Text → Payload → Result (Option Text)
  render_optional none variables = ok none
  render_optional (some text) variables = and_then (render_text u text variables) (λ t. ok (some t))

  -- `if version.title`: an empty title is no title.
  abbrev render_title : Option Text → Payload → Result (Option Text)
  render_title (some []) variables = ok none
  render_title title variables = render_optional title variables

  render_parts : NotificationTemplateVersion → Payload → Result RenderedNotification
  render_parts version variables = and_then (render_title version.title variables) λ title.
      and_then (render_text u version.body variables) λ body.
        and_then (render_optional version.fallback_body variables) λ fallback.
          ok
            (record { title = title; body = body; fallback_body = fallback; variables = variables })

  abbrev check_missing : List Text → Result RenderedNotification → Result RenderedNotification
  check_missing [] parts = parts
  check_missing (x ∷ xs) parts = err (missing_template_variables (join_commas (x ∷ xs)))

  pub render_version : NotificationTemplateVersion → Payload → Result RenderedNotification
  unfolding render_parts
  render_version version variables = and_then (required_variables version) λ required.
      check_missing (filter (λ name. is_none (lookup name variables)) required)
        (render_parts version variables)

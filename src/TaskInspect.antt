-- ===== src/TaskInspect.antt =====
-- packages/containerhub-back/src/modules/services/services/ServiceService.ts: `redactTaskInspect`,
-- which hides the secrets of what Docker says of a task. A value of JSON holds numbers of any type.
pub mod Secrets
mod Tests
use Prim.Native.Char.{Char, code}
use Prim.Native.String.{String, [], ◌∷◌}
use containerhub.Prelude.{
  ℕ, ◌+◌, Bool, true, false, ◌&&◌, ◌||◌, not, Option, none, some, List, [], ◌∷◌, any, if◌then◌else◌,
  ◌===◌, ◌==◌, ltb, leb,
}
use containerhub.Prelude.Text.{◌<>◌, cut_first}

mutual
  pub data Json (N : Type 0) : Type 0 where
    null : Json N
    boolean : Bool → Json N
    number : N → Json N
    text : String → Json N
    array : Items N → Json N
    object : Fields N → Json N

  pub data Items (N : Type 0) : Type 0 where
    no_item : Items N
    item : Json N → Items N → Items N

  pub data Fields (N : Type 0) : Type 0 where
    no_field : Fields N
    field : String → Json N → Fields N → Fields N

-- A character against a lower-case letter of a pattern, whatever its case.
abbrev matches_letter : Char → Char → Bool
matches_letter p c =
    code c == code p || (leb 65 (code c) && leb (code c) 90 && (code c + 32) == code p)

-- What is left behind a word that a text begins with.
unfoldable pub after_word : String → String → Option String
after_word [] s = some s
after_word (p ∷ ps) [] = none
after_word (p ∷ ps) (c ∷ s) =
    let rest = after_word ps s in if matches_letter p c then rest else none

abbrev begins : String → String → Bool
begins word s = elim (after_word word s) [ some _ ↦ true | none ↦ false ]

abbrev is_dot : Char → Bool
is_dot c = not (code c == 10 || code c == 13 || code c == 8232 || code c == 8233)

-- `.?word`
abbrev dot_word : String → String → Bool
dot_word word [] = begins word []
dot_word word (c ∷ s) = begins word (c ∷ s) || (is_dot c && begins word s)

-- `first.?key`
unfoldable pub key_here : String → String → Bool
key_here first s = elim (after_word first s) [ some rest ↦ dot_word "key" rest | none ↦ false ]

-- `auth$`
unfoldable pub auth_ends : String → Bool
auth_ends s = elim (after_word "auth" s) [ some [] ↦ true | some (c ∷ rest) ↦ false | none ↦ false ]

abbrev sensitive_words : List String
sensitive_words =
    "password" ∷ "passwd" ∷ "secret" ∷ "token" ∷ "credential" ∷ "authorization" ∷ "authentication"
    ∷ "authconfig" ∷ "authdata" ∷ "authheader" ∷ []

-- `sensitiveInspectField`, at the place at hand.
unfoldable pub sensitive_here : String → Bool
unfolding key_here auth_ends
sensitive_here s =
    any (λ word. begins word s) sensitive_words
    || any (λ first. key_here first s) ("api" ∷ "access" ∷ "private" ∷ "client" ∷ [])
    || auth_ends s

-- `sensitiveInspectField.test(field)`
unfoldable pub is_sensitive : String → Bool
unfolding sensitive_here
is_sensitive [] = false
is_sensitive (c ∷ s) = sensitive_here (c ∷ s) || is_sensitive s

abbrev pub is_field : String → Option String → Bool
is_field name none = false
is_field name (some f) = f === name

-- `field && sensitiveInspectField.test(field)`
unfoldable pub is_sensitive_field : Option String → Bool
unfolding is_sensitive
is_sensitive_field none = false
is_sensitive_field (some f) = is_sensitive f

abbrev pub is_invocation : Option String → Bool
is_invocation f = is_field "Command" f || is_field "Args" f

module _ {N : Type 0} where
  abbrev pub redacted : Json N
  redacted = text "[REDACTED]"

  abbrev pub redact_cut : Option (String × String) → Json N
  redact_cut none = redacted
  redact_cut (some (name, value)) = text (name <> "=" <> "[REDACTED]")

  abbrev pub redact_entry : Json N → Json N
  redact_entry (text entry) = redact_cut (cut_first b'=' entry)
  redact_entry _ = redacted

  unfoldable pub redact_env : Items N → Items N
  redact_env no_item = no_item
  redact_env (item entry entries) = item (redact_entry entry) (redact_env entries)

  unfoldable pub redact_labels : Fields N → Fields N
  redact_labels no_field = no_field
  redact_labels (field name value fields) = field name redacted (redact_labels fields)

  unfoldable pub redact_scalar : Option String → Json N → Json N
  redact_scalar f value = if is_invocation f || is_sensitive_field f then redacted else value

unfoldable mutual
  unfolding redact_env redact_labels redact_scalar

  pub redact_task_inspect : {N : Type 0} → Option String → Json N → Json N
  redact_task_inspect f null = redact_scalar f null
  redact_task_inspect f (boolean b) = redact_scalar f (boolean b)
  redact_task_inspect f (number n) = redact_scalar f (number n)
  redact_task_inspect f (text s) = redact_scalar f (text s)
  redact_task_inspect f (array items) =
      let inner = redact_items items in
      if is_invocation f
      then redacted
      else if is_field "Env" f
      then array (redact_env items)
      else if is_sensitive_field f
      then redacted
      else array inner
  redact_task_inspect f (object fields) =
      let inner = redact_fields fields in
      if is_invocation f
      then redacted
      else if is_field "Labels" f
      then object (redact_labels fields)
      else if is_sensitive_field f
      then redacted
      else object inner

  pub redact_items : {N : Type 0} → Items N → Items N
  redact_items no_item = no_item
  redact_items (item value items) = item (redact_task_inspect none value) (redact_items items)

  pub redact_fields : {N : Type 0} → Fields N → Fields N
  redact_fields no_field = no_field
  redact_fields (field key value fields) =
      field key (redact_task_inspect (some key) value) (redact_fields fields)

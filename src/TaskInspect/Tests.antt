-- ===== src/TaskInspect/Tests.antt =====
-- An inspected task with secrets.
use Prim.Native.String.{String}
use containerhub.Prelude.{ℕ, ◌≡◌, refl, none}
use containerhub.Prelude.Text.{cut_first}
use containerhub.TaskInspect.{
  Json, null, number, text, array, object, no_item, item, no_field, field, after_word,
  is_sensitive_field, redact_task_inspect,
}
use containerhub.TaskInspect.Secrets.{replaced, view_hides_secrets}

abbrev inspected : Json ℕ
inspected = object (
    field "ID" (text "t1") (
      field "Env" (array (item (text "KEY=value") (item (text "FLAG") no_item))) (
        field "Labels" (object (field "owner" (text "me") no_field))
          (field "RegistryAuth" (text "hunter2") (field "Replicas" (number 2) no_field)))))

abbrev other : Json ℕ → Json ℕ
other _ = null

abbrev word : String → String
word _ = "changed"

inspected_run :
    redact_task_inspect none inspected
    ≡ object (
        field "ID" (text "t1") (
          field "Env" (array (item (text "KEY=[REDACTED]") (item (text "[REDACTED]") no_item))) (
            field "Labels"
              (object (field "owner" (text "[REDACTED]") no_field))
              (field "RegistryAuth" (text "[REDACTED]") (field "Replicas" (number 2) no_field)))))
unfolding redact_task_inspect after_word cut_first is_sensitive_field
inspected_run = refl

view_hides_secrets_example :
    redact_task_inspect none (replaced other word none inspected)
    ≡ redact_task_inspect none inspected
view_hides_secrets_example = view_hides_secrets other word inspected

-- ===== src/TaskInspect/Secrets.antt =====
-- What a reader of an inspected task cannot tell apart.
use Prim.Native.Char.{code}
use Prim.Native.String.{String, [], ◌∷◌}
use containerhub.Prelude.{
  ℕ, ◌≡◌, refl, sym, ap, ap₂, ◌∙◌, true, false, ◌||◌, Option, none, some, inl, inr, Bool-cases,
  Option-cases, if◌then◌else◌, ◌===◌, ◌==◌, arith, eq_iff,
}
use containerhub.Prelude.Text.{◌<>◌, Free, cut_first, cut_first-append, single-append}
use containerhub.TaskInspect.{
  Json, null, boolean, number, text, array, object, Items, no_item, item, Fields, no_field, field,
  is_field, is_invocation, is_sensitive_field, redacted, redact_cut, redact_entry, redact_env,
  redact_labels, redact_scalar, redact_task_inspect, redact_items, redact_fields, after_word,
}

cut_first-Free : (k : ℕ) (s a b : String) → cut_first k s ≡ some (a, b) → Free k a
unfolding cut_first
cut_first-Free k [] a b h = cc
cut_first-Free k (c ∷ s) a b h = elim (Bool-cases (code c == k)) [
  | inl e ↦ let found = rw e at h in let empty : [] ≡ a = cc in rw (← empty) tt
  | inr e ↦ elim (Option-cases (cut_first k s)) [
    | inl n ↦ let found = rw (e, n) at h in absurd cc
    | inr ((x, y), n) ↦
        let found = rw (e, n) at h in
        let longer : c ∷ x ≡ a = cc in rw (← longer) (ground arith, cut_first-Free k s x y n)
  ]
]

-- The value with its secrets replaced: the values of `Command`, `Args` and the sensitive fields and
-- of labels by `other`, the values of variables by `word`, and entries that are no variables by `null`.
module _ {N : Type 0} (other : Json N → Json N) (word : String → String) where
  abbrev replaced_cut : Option (String × String) → Json N
  replaced_cut none = null
  replaced_cut (some (name, value)) = text (name <> "=" <> word value)

  abbrev replaced_entry : Json N → Json N
  replaced_entry (text entry) = replaced_cut (cut_first b'=' entry)
  replaced_entry _ = null

  abbrev replaced_env : Items N → Items N
  replaced_env no_item = no_item
  replaced_env (item entry entries) = item (replaced_entry entry) (replaced_env entries)

  abbrev replaced_labels : Fields N → Fields N
  replaced_labels no_field = no_field
  replaced_labels (field name value fields) = field name (other value) (replaced_labels fields)

  abbrev replaced_scalar : Option String → Json N → Json N
  replaced_scalar f value = if is_invocation f || is_sensitive_field f then other value else value

unfoldable mutual
  pub replaced :
      {N : Type 0} → (Json N → Json N) → (String → String) → Option String → Json N → Json N
  replaced other word f null = replaced_scalar other word f null
  replaced other word f (boolean b) = replaced_scalar other word f (boolean b)
  replaced other word f (number n) = replaced_scalar other word f (number n)
  replaced other word f (text s) = replaced_scalar other word f (text s)
  replaced other word f (array items) =
      let inner = replaced_items other word items in
      if is_invocation f
      then other (array items)
      else if is_field "Env" f
      then array (replaced_env other word items)
      else if is_sensitive_field f
      then other (array items)
      else array inner
  replaced other word f (object fields) =
      let inner = replaced_fields other word fields in
      if is_invocation f
      then other (object fields)
      else if is_field "Labels" f
      then object (replaced_labels other word fields)
      else if is_sensitive_field f
      then other (object fields)
      else object inner

  pub replaced_items : {N : Type 0} → (Json N → Json N) → (String → String) → Items N → Items N
  replaced_items other word no_item = no_item
  replaced_items other word (item value items) =
      item (replaced other word none value) (replaced_items other word items)

  pub replaced_fields : {N : Type 0} → (Json N → Json N) → (String → String) → Fields N → Fields N
  replaced_fields other word no_field = no_field
  replaced_fields other word (field key value fields) =
      field key (replaced other word (some key) value) (replaced_fields other word fields)

-- What is hidden is no list of variables and no map of labels.
not_env :
    (f : Option String)
    → (is_invocation f || is_sensitive_field f) ≡ true
    → (is_field "Env" f ≡ false) × (is_field "Labels" f ≡ false)
unfolding is_sensitive_field after_word
not_env none h = (refl, refl)
not_env (some f) h = (other "Env" refl, other "Labels" refl)
  where
    other :
        (name : String)
        → (is_invocation (some name) || is_sensitive_field (some name)) ≡ false
        → (f === name) ≡ false
    other name k = elim (Bool-cases (f === name)) [
      | inr e ↦ e
      | inl e ↦ let same : f ≡ name = (eq_iff f name).0 e in let both = rw same at h in absurd cc
    ]

-- Under `Command`, `Args` and the sensitive fields, everything reads the same.
hidden :
    {N : Type 0} (f : Option String) (value : Json N)
    → (is_invocation f || is_sensitive_field f) ≡ true
    → redact_task_inspect f value ≡ redacted
unfolding redact_task_inspect redact_scalar
hidden f null h = rw h refl
hidden f (boolean b) h = rw h refl
hidden f (number n) h = rw h refl
hidden f (text s) h = rw h refl
hidden f (array items) h = let (env, labels) = not_env f h in ground arith
hidden f (object fields) h = let (env, labels) = not_env f h in ground arith

-- Each part of what is hidden or open, for a value and the same with its secrets replaced.
same_scalar :
    {N : Type 0} (other : Json N → Json N) (word : String → String) (f : Option String)
    (value : Json N)
    → redact_task_inspect f value ≡ redact_scalar f value
    → redact_task_inspect f (replaced_scalar other word f value) ≡ redact_task_inspect f value
same_scalar other word f value scalar =
    elim (Bool-cases (is_invocation f || is_sensitive_field f)) [
      | inl e ↦ rw e (hidden f (other value) e ∙ sym (hidden f value e))
      | inr e ↦ rw e refl
    ]

same_env :
    {N : Type 0} (other : Json N → Json N) (word : String → String) (items : Items N)
    → redact_env (replaced_env other word items) ≡ redact_env items
unfolding redact_env
same_env other word no_item = refl
same_env {N = N} other word (item entry items) = ap₂ item (each entry) (same_env other word items)
  where
    cut :
        (entry : String) (parts : Option (String × String))
        → cut_first b'=' entry ≡ parts
        → redact_entry (replaced_cut other word parts) ≡ redact_cut parts
    cut entry none e = refl
    cut entry (some (name, value)) e =
        rw
          (
            single-append,
            cut_first-append "=" name (word value) (cut_first-Free b'=' entry name value e),
          )
          refl

    each : (entry : Json N) → redact_entry (replaced_entry other word entry) ≡ redact_entry entry
    each null = refl
    each (boolean b) = refl
    each (number n) = refl
    each (text s) = cut s (cut_first b'=' s) refl
    each (array items) = refl
    each (object fields) = refl

same_labels :
    {N : Type 0} (other : Json N → Json N) (word : String → String) (fields : Fields N)
    → redact_labels (replaced_labels other word fields) ≡ redact_labels fields
unfolding redact_labels
same_labels other word no_field = refl
same_labels other word (field name value fields) =
    ap (field name redacted) (same_labels other word fields)

mutual
  unfolding redact_task_inspect redact_scalar replaced

  same_view :
      {N : Type 0} (other : Json N → Json N) (word : String → String) (f : Option String)
      (value : Json N)
      → redact_task_inspect f (replaced other word f value) ≡ redact_task_inspect f value
  same_view other word f null = same_scalar other word f null refl
  same_view other word f (boolean b) = same_scalar other word f (boolean b) refl
  same_view other word f (number n) = same_scalar other word f (number n) refl
  same_view other word f (text s) = same_scalar other word f (text s) refl
  same_view other word f (array items) = elim (Bool-cases (is_invocation f)) [
    | inl e ↦ rw e (hidden f (other (array items)) (ground arith))
    | inr e ↦ elim (Bool-cases (is_field "Env" f)) [
      | inl v ↦ rw (e, v) (rw (e, v) (ap array (same_env other word items)))
      | inr v ↦ elim (Bool-cases (is_sensitive_field f)) [
        | inl k ↦ rw (e, v, k) (hidden f (other (array items)) (ground arith))
        | inr k ↦ rw (e, v, k) (rw (e, v, k) (ap array (same_items other word items)))
      ]
    ]
  ]
  same_view other word f (object fields) = elim (Bool-cases (is_invocation f)) [
    | inl e ↦ rw e (hidden f (other (object fields)) (ground arith))
    | inr e ↦ elim (Bool-cases (is_field "Labels" f)) [
      | inl v ↦ rw (e, v) (rw (e, v) (ap object (same_labels other word fields)))
      | inr v ↦ elim (Bool-cases (is_sensitive_field f)) [
        | inl k ↦ rw (e, v, k) (hidden f (other (object fields)) (ground arith))
        | inr k ↦ rw (e, v, k) (rw (e, v, k) (ap object (same_fields other word fields)))
      ]
    ]
  ]

  same_items :
      {N : Type 0} (other : Json N → Json N) (word : String → String) (items : Items N)
      → redact_items (replaced_items other word items) ≡ redact_items items
  same_items other word no_item = refl
  same_items other word (item value items) =
      ap₂ item (same_view other word none value) (same_items other word items)

  same_fields :
      {N : Type 0} (other : Json N → Json N) (word : String → String) (fields : Fields N)
      → redact_fields (replaced_fields other word fields) ≡ redact_fields fields
  same_fields other word no_field = refl
  same_fields other word (field key value fields) =
      ap₂ (field key) (same_view other word (some key) value) (same_fields other word fields)

-- A reader cannot tell apart two inspected tasks that differ in what stands under `Command` and
-- `Args`, in the values of variables, in what stands in `Env` and is no variable, in the values of
-- labels, and in what stands under fields with a sensitive name.
pub view_hides_secrets :
    {N : Type 0} (other : Json N → Json N) (word : String → String) (value : Json N)
    → redact_task_inspect none (replaced other word none value) ≡ redact_task_inspect none value
view_hides_secrets other word value = same_view other word none value

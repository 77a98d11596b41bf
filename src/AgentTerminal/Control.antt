-- ===== src/AgentTerminal/Control.antt =====
-- The control message that asks for a size, as the agent (terminalRoutes.ts) and the back end
-- (services/routes/TerminalRoutes.ts) read it. `parse` is `JSON.parse` of a text in UTF-8, and
-- `integer` the natural number that a number of JSON is, if it is one.
use containerhub.Prelude.{
  ℕ, Bool, false, ◌&&◌, Option, none, some, List, length, if◌then◌else◌, ltb, leb, ◌===◌, bind?,
}
use Prim.Native.String.{String}
use containerhub.TaskInspect.{Json, Fields, number, text, object, no_field, field}
use containerhub.AgentTerminal.{Size}

-- The value of a field.
unfoldable pub member : {N : Type 0} → String → Fields N → Option (Json N)
member key no_field = none
member key (field k value fields) =
    let rest = member key fields in if k === key then some value else rest

module _ {N : Type 0} (parse : List ℕ → Option (Json N)) (integer : N → Option ℕ) where
  -- `Number.isInteger(value) && value >= 1 && value <= 500`.
  unfoldable pub dimension : Json N → Option ℕ
  dimension (number n) = bind? (integer n) (λ k. if leb 1 k && leb k 500 then some k else none)
  dimension _ = none

  abbrev is_resize : Option (Json N) → Bool
  is_resize (some (text s)) = s === "resize"
  is_resize _ = false

  -- The size that a control value asks for.
  unfoldable pub resize_of : Json N → Option Size
  unfolding dimension member
  resize_of (object fields) =
      if is_resize (member "type" fields)
      then bind? (member "columns" fields) (λ c. bind? (dimension c) (λ columns.
        bind? (member "rows" fields)
          (λ r. bind? (dimension r) (λ rows. some (record { columns = columns; rows = rows })))))
      else none
  resize_of _ = none

  -- The agent's reading, behind its test of the length.
  unfoldable pub control_size : List ℕ → Option Size
  unfolding resize_of
  control_size bytes = bind? (parse bytes) resize_of

  -- `parseResize` of the back end, with its test.
  unfoldable pub parse_resize : List ℕ → Option Size
  unfolding resize_of
  parse_resize payload = if ltb 1024 (length payload) then none else bind? (parse payload) resize_of

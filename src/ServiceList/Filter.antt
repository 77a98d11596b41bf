-- ===== src/ServiceList/Filter.antt =====
-- packages/containerhub-back/src/modules/services/services/ServiceFilters.ts: the filters.
use Prim.Native.String.{String}
use containerhub.Prelude.{Bool, List}

pub data ServiceFilterOperator : Type 0 where
  eq like empty ne gt lt gte lte in_any nin : ServiceFilterOperator

pub data ServiceFilterScalar (N : Type 0) : Type 0 where
  text : String → ServiceFilterScalar N
  number : N → ServiceFilterScalar N
  boolean : Bool → ServiceFilterScalar N

pub data ServiceFilterValue (N : Type 0) : Type 0 where
  null : ServiceFilterValue N
  scalar : ServiceFilterScalar N → ServiceFilterValue N
  scalars : List (ServiceFilterScalar N) → ServiceFilterValue N

pub data ServiceFilterField : Type 0 where
  id name stack image ports created_at updated_at : ServiceFilterField

pub record ServiceFilter (N : Type 0) : Type 0 where
  pub field : ServiceFilterField
  pub operator : ServiceFilterOperator
  pub value : ServiceFilterValue N

-- ===== src/Kernel/Document.antt =====
-- A document as yaml.v3 decodes it into `any`: what `validateSpecOutput` of
-- internal/decision/planning.go tells apart.
use cflow.Base.{String, Option, none, some, ◌==◌, if◌then◌else◌}

mutual
  pub data Value : Type 0 where
    text : String → Value
    seq : Values → Value
    table : Fields → Value
    other : Value

  pub data Values : Type 0 where
    end : Values
    item : Value → Values → Values

  pub data Fields : Type 0 where
    empty : Fields
    field : String → Value → Fields → Fields

-- `m[key]`; `none` where the key is missing.
unfoldable pub lookup : String → Fields → Option Value
lookup key empty = none
lookup key (field k v rest) = if k == key then some v else lookup key rest

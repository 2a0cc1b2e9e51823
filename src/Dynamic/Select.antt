-- ===== src/Dynamic/Select.antt =====
-- dynamic/SelectFrom.hpp, with Union and Join, and GroupBy.hpp, OrderBy.hpp, Limit.hpp, Offset.hpp,
-- JoinType.hpp. `Selects` is `std::vector<SelectFrom>`, `Joins` is `std::vector<Join>`, and
-- `OptionalJoins` is `std::optional` of it.
use sqlgen.Prelude.{ℕ, Bool, List, Option, Text}
use sqlgen.Dynamic.Types.{Column, Table}
use sqlgen.Dynamic.Operation.{Operation}
use sqlgen.Dynamic.Condition.{Condition}

pub data JoinType : Type 0 where
  inner_join left_join right_join full_join : JoinType

pub record GroupBy : Type 0 where
  pub columns : List Column

-- `dynamic::Wrapper`
pub record Wrapper : Type 0 where
  pub column : Column
  pub desc : Bool

pub record OrderBy : Type 0 where
  pub columns : List Wrapper

pub record Field : Type 0 where
  pub val : Operation
  pub as_name : Option Text

mutual
  -- table_or_query, fields, alias, joins, where, group_by, order_by, limit, offset.
  pub data SelectFrom : Type 0 where
    select_from :
        TableOrQuery
        → List Field
        → Option Text
        → OptionalJoins
        → Option Condition
        → Option GroupBy
        → Option OrderBy
        → Option ℕ
        → Option ℕ
        → SelectFrom

  pub data TableOrQuery : Type 0 where
    table : Table → TableOrQuery
    query : SelectFrom → TableOrQuery
    unite : Union → TableOrQuery

  -- columns, selects, all.
  pub data Union : Type 0 where
    union : List Text → Selects → Bool → Union

  pub data Selects : Type 0 where
    no_selects : Selects
    select : SelectFrom → Selects → Selects

  -- how, table_or_query, alias, on.
  pub data Join : Type 0 where
    join : JoinType → TableOrQuery → Text → Option Condition → Join

  pub data Joins : Type 0 where
    no_joins : Joins
    also : Join → Joins → Joins

  pub data OptionalJoins : Type 0 where
    absent : OptionalJoins
    present : Joins → OptionalJoins

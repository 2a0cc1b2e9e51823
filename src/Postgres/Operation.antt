-- ===== src/Postgres/Operation.antt =====
-- postgres/to_sql.cpp: `aggregation_to_sql` and `operation_to_sql`.
use sqlgen.Prelude.{Bool, true, false, Option, none, some, List, [], ◌∷◌, map, Text, lit, ◌<<◌}
use sqlgen.Strings.{join}
use sqlgen.Dynamic.Types.{Column}
use sqlgen.Dynamic.Value.{Duration, Value, ColumnOrValue}
use sqlgen.Dynamic.Operation.{Operation, Aggregation, Operations}
use sqlgen.Dynamic.Names.{EnumNames}
use sqlgen.Postgres.Types.{type_to_sql}
use sqlgen.Postgres.Value.{column_or_value_to_sql}

-- What `COUNT` is given.
unfoldable pub count_to_sql : ⦃names : EnumNames⦄ → Option Column → Bool → Text
count_to_sql none distinct = lit "*"
count_to_sql (some col) true = lit "DISTINCT " << column_or_value_to_sql (ColumnOrValue.column col)
count_to_sql (some col) false = column_or_value_to_sql (ColumnOrValue.column col)

abbrev pub duration_to_sql : ⦃names : EnumNames⦄ → Duration → Text
duration_to_sql d = column_or_value_to_sql (ColumnOrValue.value (Value.duration d))

unfoldable mutual
  pub aggregation_to_sql : ⦃names : EnumNames⦄ → Aggregation → Text
  aggregation_to_sql (Aggregation.avg val) = lit "AVG(" << operation_to_sql val << lit ")"
  aggregation_to_sql (Aggregation.count val distinct) =
      lit "COUNT(" << count_to_sql val distinct << lit ")"
  aggregation_to_sql (Aggregation.max val) = lit "MAX(" << operation_to_sql val << lit ")"
  aggregation_to_sql (Aggregation.min val) = lit "MIN(" << operation_to_sql val << lit ")"
  aggregation_to_sql (Aggregation.sum val) = lit "SUM(" << operation_to_sql val << lit ")"

  pub operation_to_sql : ⦃names : EnumNames⦄ → Operation → Text
  operation_to_sql (Operation.abs op1) = lit "abs(" << operation_to_sql op1 << lit ")"
  operation_to_sql (Operation.aggregation agg) = aggregation_to_sql agg
  operation_to_sql (Operation.cast op1 target_type) =
      lit "cast(" << operation_to_sql op1 << lit " as " << type_to_sql target_type << lit ")"
  operation_to_sql (Operation.ceil op1) = lit "ceil(" << operation_to_sql op1 << lit ")"
  operation_to_sql (Operation.column col) = column_or_value_to_sql (ColumnOrValue.column col)
  operation_to_sql (Operation.coalesce ops) =
      lit "coalesce(" << join (lit ", ") (operations_to_sql ops) << lit ")"
  operation_to_sql (Operation.concat ops) =
      lit "(" << join (lit " || ") (operations_to_sql ops) << lit ")"
  operation_to_sql (Operation.cos op1) = lit "cos(" << operation_to_sql op1 << lit ")"
  operation_to_sql (Operation.date_plus_duration op durations) =
      operation_to_sql op << lit " + " << join (lit " + ") (map duration_to_sql durations)
  operation_to_sql (Operation.day op1) = lit "extract(DAY from " << operation_to_sql op1 << lit ")"
  operation_to_sql (Operation.days_between op1 op2) =
      lit "cast("
      << operation_to_sql op2
      << lit " as DATE) - cast("
      << operation_to_sql op1
      << lit " as DATE)"
  operation_to_sql (Operation.divides op1 op2) =
      lit "(" << operation_to_sql op1 << lit ") / (" << operation_to_sql op2 << lit ")"
  operation_to_sql (Operation.exp op1) = lit "exp(" << operation_to_sql op1 << lit ")"
  operation_to_sql (Operation.floor op1) = lit "floor(" << operation_to_sql op1 << lit ")"
  operation_to_sql (Operation.hour op1) =
      lit "extract(HOUR from " << operation_to_sql op1 << lit ")"
  operation_to_sql (Operation.length op1) = lit "length(" << operation_to_sql op1 << lit ")"
  operation_to_sql (Operation.ln op1) = lit "ln(" << operation_to_sql op1 << lit ")"
  operation_to_sql (Operation.log2 op1) = lit "log(2.0, " << operation_to_sql op1 << lit ")"
  operation_to_sql (Operation.lower op1) = lit "lower(" << operation_to_sql op1 << lit ")"
  operation_to_sql (Operation.ltrim op1 op2) =
      lit "ltrim(" << operation_to_sql op1 << lit ", " << operation_to_sql op2 << lit ")"
  operation_to_sql (Operation.month op1) =
      lit "extract(MONTH from " << operation_to_sql op1 << lit ")"
  operation_to_sql (Operation.minus op1 op2) =
      lit "(" << operation_to_sql op1 << lit ") - (" << operation_to_sql op2 << lit ")"
  operation_to_sql (Operation.minute op1) =
      lit "extract(MINUTE from " << operation_to_sql op1 << lit ")"
  operation_to_sql (Operation.mod_op op1 op2) =
      lit "mod(" << operation_to_sql op1 << lit ", " << operation_to_sql op2 << lit ")"
  operation_to_sql (Operation.multiplies op1 op2) =
      lit "(" << operation_to_sql op1 << lit ") * (" << operation_to_sql op2 << lit ")"
  operation_to_sql (Operation.plus op1 op2) =
      lit "(" << operation_to_sql op1 << lit ") + (" << operation_to_sql op2 << lit ")"
  operation_to_sql (Operation.replace op1 op2 op3) =
      lit "replace("
      << operation_to_sql op1
      << lit ", "
      << operation_to_sql op2
      << lit ", "
      << operation_to_sql op3
      << lit ")"
  operation_to_sql (Operation.round op1 op2) =
      lit "round(" << operation_to_sql op1 << lit ", " << operation_to_sql op2 << lit ")"
  operation_to_sql (Operation.rtrim op1 op2) =
      lit "rtrim(" << operation_to_sql op1 << lit ", " << operation_to_sql op2 << lit ")"
  operation_to_sql (Operation.second op1) =
      lit "extract(SECOND from " << operation_to_sql op1 << lit ")"
  operation_to_sql (Operation.sin op1) = lit "sin(" << operation_to_sql op1 << lit ")"
  operation_to_sql (Operation.sqrt op1) = lit "sqrt(" << operation_to_sql op1 << lit ")"
  operation_to_sql (Operation.tan op1) = lit "tan(" << operation_to_sql op1 << lit ")"
  operation_to_sql (Operation.trim op1 op2) =
      lit "trim(" << operation_to_sql op1 << lit ", " << operation_to_sql op2 << lit ")"
  operation_to_sql (Operation.unixepoch op1) =
      lit "extract(EPOCH FROM " << operation_to_sql op1 << lit ")"
  operation_to_sql (Operation.upper op1) = lit "upper(" << operation_to_sql op1 << lit ")"
  operation_to_sql (Operation.value val) = column_or_value_to_sql (ColumnOrValue.value val)
  operation_to_sql (Operation.weekday op1) =
      lit "extract(DOW from " << operation_to_sql op1 << lit ")"
  operation_to_sql (Operation.year op1) =
      lit "extract(YEAR from " << operation_to_sql op1 << lit ")"

  -- `ops | transform(operation_to_sql)`
  pub operations_to_sql : ⦃names : EnumNames⦄ → Operations → List Text
  operations_to_sql Operations.nil = []
  operations_to_sql (Operations.cons op ops) = operation_to_sql op ∷ operations_to_sql ops

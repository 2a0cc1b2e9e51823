-- ===== src/Duckdb/Balance/Operation.antt =====
-- What the operations print is balanced.
use sqlgen.Prelude.{
  refl, List, Option, none, some, Bool, true, false, Text, lit, All, OnSome, map, All-map,
  All-of_each,
}
use sqlgen.Strings.{join}
use sqlgen.Scan.{standard, scan, Balanced}
use sqlgen.Scan.Laws.{scan-append, Balanced-join}
use sqlgen.Dynamic.Types.{Column}
use sqlgen.Dynamic.Value.{Duration, Value}
use sqlgen.Dynamic.Operation.{Operation, Aggregation, Operations}
use sqlgen.Dynamic.Names.{EnumNames, IsDocumented}
use sqlgen.Dynamic.Safe.{IsSafe, IsSafeAggregation, AllSafe, IsSafeColumn}
use sqlgen.Duckdb.Operation.{
  aggregation_to_sql, operation_to_sql, operations_to_sql, count_to_sql, duration_to_sql,
}
use sqlgen.Duckdb.Balance.{type-Balanced, column-Balanced, value-Balanced}

module _ ⦃names : EnumNames⦄ (doc : IsDocumented names) where
  count-Balanced :
      (val : Option Column) (distinct : Bool)
      → OnSome (IsSafeColumn standard) val
      → Balanced standard (count_to_sql val distinct)
  unfolding count_to_sql scan lit
  count-Balanced none distinct h d = refl
  count-Balanced (some col) true h d = column-Balanced doc col h d
  count-Balanced (some col) false h d = column-Balanced doc col h d

  pub durations-Balanced :
      (delimiter : Text)
      → Balanced standard delimiter
      → (durations : List Duration)
      → Balanced standard (join delimiter (map duration_to_sql durations))
  durations-Balanced delimiter h durations = Balanced-join standard delimiter _ h (
      All-map {P = λ _. Unit {0}} (Balanced standard) duration_to_sql durations
        (λ v _. value-Balanced doc (Value.duration v) tt) (All-of_each _ durations (λ _. tt)))

  mutual
    unfolding operation_to_sql IsSafe scan lit

    operation-Balanced :
        (op : Operation) → IsSafe standard op → Balanced standard (operation_to_sql op)
    operation-Balanced (Operation.abs op1) h d = simp (scan-append, operation-Balanced op1 h)
    operation-Balanced (Operation.aggregation agg) h d = aggregation-Balanced agg h d
    operation-Balanced (Operation.cast op1 target_type) h d =
        simp (scan-append, operation-Balanced op1 h.0, type-Balanced target_type h.1)
    operation-Balanced (Operation.ceil op1) h d = simp (scan-append, operation-Balanced op1 h)
    operation-Balanced (Operation.column col) h d = column-Balanced doc col h d
    operation-Balanced (Operation.coalesce ops) h d =
        simp
          (scan-append, Balanced-join standard (lit ", ") _ (λ d. refl) (operations-Balanced ops h))
    operation-Balanced (Operation.concat ops) h d =
        simp (
          scan-append,
          Balanced-join standard (lit " || ") _ (λ d. refl) (operations-Balanced ops h),
        )
    operation-Balanced (Operation.cos op1) h d = simp (scan-append, operation-Balanced op1 h)
    operation-Balanced (Operation.date_plus_duration op durations) h d = simp (
      scan-append,
      operation-Balanced op h.0,
      durations-Balanced (lit " + ") (λ d. refl) durations,
    )
    operation-Balanced (Operation.day op1) h d = simp (scan-append, operation-Balanced op1 h)
    operation-Balanced (Operation.days_between op1 op2) h d =
        simp (scan-append, operation-Balanced op1 h.0, operation-Balanced op2 h.1)
    operation-Balanced (Operation.divides op1 op2) h d =
        simp (scan-append, operation-Balanced op1 h.0, operation-Balanced op2 h.1)
    operation-Balanced (Operation.exp op1) h d = simp (scan-append, operation-Balanced op1 h)
    operation-Balanced (Operation.floor op1) h d = simp (scan-append, operation-Balanced op1 h)
    operation-Balanced (Operation.hour op1) h d = simp (scan-append, operation-Balanced op1 h)
    operation-Balanced (Operation.length op1) h d = simp (scan-append, operation-Balanced op1 h)
    operation-Balanced (Operation.ln op1) h d = simp (scan-append, operation-Balanced op1 h)
    operation-Balanced (Operation.log2 op1) h d = simp (scan-append, operation-Balanced op1 h)
    operation-Balanced (Operation.lower op1) h d = simp (scan-append, operation-Balanced op1 h)
    operation-Balanced (Operation.ltrim op1 op2) h d =
        simp (scan-append, operation-Balanced op1 h.0, operation-Balanced op2 h.1)
    operation-Balanced (Operation.month op1) h d = simp (scan-append, operation-Balanced op1 h)
    operation-Balanced (Operation.minus op1 op2) h d =
        simp (scan-append, operation-Balanced op1 h.0, operation-Balanced op2 h.1)
    operation-Balanced (Operation.minute op1) h d = simp (scan-append, operation-Balanced op1 h)
    operation-Balanced (Operation.mod_op op1 op2) h d =
        simp (scan-append, operation-Balanced op1 h.0, operation-Balanced op2 h.1)
    operation-Balanced (Operation.multiplies op1 op2) h d =
        simp (scan-append, operation-Balanced op1 h.0, operation-Balanced op2 h.1)
    operation-Balanced (Operation.plus op1 op2) h d =
        simp (scan-append, operation-Balanced op1 h.0, operation-Balanced op2 h.1)
    operation-Balanced (Operation.replace op1 op2 op3) h d = simp (
      scan-append,
      operation-Balanced op1 h.0,
      operation-Balanced op2 h.1,
      operation-Balanced op3 h.2,
    )
    operation-Balanced (Operation.round op1 op2) h d =
        simp (scan-append, operation-Balanced op1 h.0, operation-Balanced op2 h.1)
    operation-Balanced (Operation.rtrim op1 op2) h d =
        simp (scan-append, operation-Balanced op1 h.0, operation-Balanced op2 h.1)
    operation-Balanced (Operation.second op1) h d = simp (scan-append, operation-Balanced op1 h)
    operation-Balanced (Operation.sin op1) h d = simp (scan-append, operation-Balanced op1 h)
    operation-Balanced (Operation.sqrt op1) h d = simp (scan-append, operation-Balanced op1 h)
    operation-Balanced (Operation.tan op1) h d = simp (scan-append, operation-Balanced op1 h)
    operation-Balanced (Operation.trim op1 op2) h d =
        simp (scan-append, operation-Balanced op1 h.0, operation-Balanced op2 h.1)
    operation-Balanced (Operation.unixepoch op1) h d = simp (scan-append, operation-Balanced op1 h)
    operation-Balanced (Operation.upper op1) h d = simp (scan-append, operation-Balanced op1 h)
    operation-Balanced (Operation.value val) h d = value-Balanced doc val h d
    operation-Balanced (Operation.weekday op1) h d = simp (scan-append, operation-Balanced op1 h)
    operation-Balanced (Operation.year op1) h d = simp (scan-append, operation-Balanced op1 h)

    aggregation-Balanced :
        (agg : Aggregation)
        → IsSafeAggregation standard agg
        → Balanced standard (aggregation_to_sql agg)
    aggregation-Balanced (Aggregation.avg val) h d = simp (scan-append, operation-Balanced val h)
    aggregation-Balanced (Aggregation.count val distinct) h d =
        simp (scan-append, count-Balanced val distinct h)
    aggregation-Balanced (Aggregation.max val) h d = simp (scan-append, operation-Balanced val h)
    aggregation-Balanced (Aggregation.min val) h d = simp (scan-append, operation-Balanced val h)
    aggregation-Balanced (Aggregation.sum val) h d = simp (scan-append, operation-Balanced val h)

    operations-Balanced :
        (ops : Operations) → AllSafe standard ops → All (Balanced standard) (operations_to_sql ops)
    operations-Balanced Operations.nil h = tt
    operations-Balanced (Operations.cons op ops) h =
        (operation-Balanced op h.0, operations-Balanced ops h.1)

  pub operation_to_sql-Balanced :
      (op : Operation) → IsSafe standard op → Balanced standard (operation_to_sql op)
  operation_to_sql-Balanced op h = operation-Balanced op h

-- ===== src/Mysql/Balance/Operation.antt =====
-- What the operations print is balanced.
use sqlgen.Strings.Join.{separated, join-cons}
use sqlgen.Scan.{Mode}
use sqlgen.Prelude.{
  ℕ, zero, suc, ◌+◌, [], ◌∷◌, ◌≡◌, ◌≢◌, ◌∙◌, ap, length, arith, ◌<<◌, refl, List, Option, none,
  some, Bool, true, false, Text, lit, All, OnSome, map,
}
use sqlgen.Strings.{join}
use sqlgen.Scan.{mysql, step, scan, Balanced}
use sqlgen.Scan.Laws.{scan-append, Balanced-join}
use sqlgen.Dynamic.Types.{Column}
use sqlgen.Dynamic.Value.{Duration, Value}
use sqlgen.Dynamic.Operation.{Operation, Aggregation, Operations}
use sqlgen.Dynamic.Names.{EnumNames, IsDocumented}
use sqlgen.Dynamic.Safe.{IsSafe, IsSafeAggregation, AllSafe, IsSafeColumn}
use sqlgen.Mysql.Operation.{
  aggregation_to_sql, operation_to_sql, operations_to_sql, count_to_sql, duration_to_sql,
}
use sqlgen.Mysql.Balance.{cast_type-Balanced, column-Balanced, value-Balanced}

module _ ⦃names : EnumNames⦄ (doc : IsDocumented names) where
  count-Balanced :
      (val : Option Column) (distinct : Bool)
      → OnSome (IsSafeColumn mysql) val
      → Balanced mysql (count_to_sql val distinct)
  unfolding count_to_sql scan lit
  count-Balanced none distinct h d = refl
  count-Balanced (some col) true h d = column-Balanced doc col h d
  count-Balanced (some col) false h d = column-Balanced doc col h d

  duration-Balanced : (v : Duration) → Balanced mysql (duration_to_sql v)
  duration-Balanced v = value-Balanced doc (Value.duration v) tt

  -- Each duration opens a call, and the text behind it closes the one before.
  opens :
      (ds : List Duration) (d : ℕ)
      → scan mysql (Mode.normal d) (separated [] (map (λ _. lit "date_add(") ds))
        ≡ Mode.normal (length ds + d)
  unfolding scan lit
  opens [] d = ap Mode.normal (omega arith)
  opens (v ∷ ds) d = opens ds (suc d) ∙ ap Mode.normal (omega arith)

  closes :
      (ds : List Duration) (d open_now : ℕ)
      → open_now ≡ length ds + d
      → scan mysql (Mode.normal open_now) (separated (lit "), ") (map duration_to_sql ds))
        ≡ Mode.normal d
  unfolding scan lit
  closes [] d k e = ap Mode.normal (omega arith)
  closes (v ∷ ds) d zero e = absurd (omega arith)
  closes (v ∷ ds) d (suc k) e =
      simp (scan-append, duration-Balanced v) (closes ds d k (omega arith))

  date_plus-Balanced :
      (ds : List Duration) (s : Text)
      → Balanced mysql s
      → ds ≢ []
      → Balanced mysql (
          join [] (map (λ _. lit "date_add(") ds)
          << s
          << lit ", "
          << join (lit "), ") (map duration_to_sql ds)
          << lit ")")
  unfolding scan lit
  date_plus-Balanced [] s h ne d = absurd (ne refl)
  date_plus-Balanced (v ∷ ds) s h ne d =
      simp (join-cons, scan-append, opens ds (suc d), h, duration-Balanced v)
        (ap (λ m. step mysql m b')') (closes ds (suc d) _ refl))

  mutual
    unfolding operation_to_sql IsSafe scan lit

    operation-Balanced : (op : Operation) → IsSafe mysql op → Balanced mysql (operation_to_sql op)
    operation-Balanced (Operation.abs op1) h d = simp (scan-append, operation-Balanced op1 h)
    operation-Balanced (Operation.aggregation agg) h d = aggregation-Balanced agg h d
    operation-Balanced (Operation.cast op1 target_type) h d =
        simp (scan-append, operation-Balanced op1 h.0, cast_type-Balanced target_type h.1)
    operation-Balanced (Operation.ceil op1) h d = simp (scan-append, operation-Balanced op1 h)
    operation-Balanced (Operation.column col) h d = column-Balanced doc col h d
    operation-Balanced (Operation.coalesce ops) h d =
        simp (scan-append, Balanced-join mysql (lit ", ") _ (λ d. refl) (operations-Balanced ops h))
    operation-Balanced (Operation.concat ops) h d =
        simp (scan-append, Balanced-join mysql (lit ", ") _ (λ d. refl) (operations-Balanced ops h))
    operation-Balanced (Operation.cos op1) h d = simp (scan-append, operation-Balanced op1 h)
    operation-Balanced (Operation.date_plus_duration op ds) h d =
        date_plus-Balanced ds (operation_to_sql op) (operation-Balanced op h.0) h.1 d
    operation-Balanced (Operation.day op1) h d = simp (scan-append, operation-Balanced op1 h)
    operation-Balanced (Operation.days_between op1 op2) h d =
        simp (scan-append, operation-Balanced op1 h.0, operation-Balanced op2 h.1)
    operation-Balanced (Operation.divides op1 op2) h d =
        simp (scan-append, operation-Balanced op1 h.0, operation-Balanced op2 h.1)
    operation-Balanced (Operation.exp op1) h d = simp (scan-append, operation-Balanced op1 h)
    operation-Balanced (Operation.floor op1) h d = simp (scan-append, operation-Balanced op1 h)
    operation-Balanced (Operation.hour op1) h d = simp (scan-append, operation-Balanced op1 h)
    operation-Balanced (Operation.length op1) h d = simp (scan-append, operation-Balanced op1 h)
    operation-Balanced (Operation.ln op1) h d = simp (scan-append, operation-Balanced op1 h)
    operation-Balanced (Operation.log2 op1) h d = simp (scan-append, operation-Balanced op1 h)
    operation-Balanced (Operation.lower op1) h d = simp (scan-append, operation-Balanced op1 h)
    operation-Balanced (Operation.ltrim op1 op2) h d =
        simp (scan-append, operation-Balanced op1 h.0, operation-Balanced op2 h.1)
    operation-Balanced (Operation.month op1) h d = simp (scan-append, operation-Balanced op1 h)
    operation-Balanced (Operation.minus op1 op2) h d =
        simp (scan-append, operation-Balanced op1 h.0, operation-Balanced op2 h.1)
    operation-Balanced (Operation.minute op1) h d = simp (scan-append, operation-Balanced op1 h)
    operation-Balanced (Operation.mod_op op1 op2) h d =
        simp (scan-append, operation-Balanced op1 h.0, operation-Balanced op2 h.1)
    operation-Balanced (Operation.multiplies op1 op2) h d =
        simp (scan-append, operation-Balanced op1 h.0, operation-Balanced op2 h.1)
    operation-Balanced (Operation.plus op1 op2) h d =
        simp (scan-append, operation-Balanced op1 h.0, operation-Balanced op2 h.1)
    operation-Balanced (Operation.replace op1 op2 op3) h d = simp (
      scan-append,
      operation-Balanced op1 h.0,
      operation-Balanced op2 h.1,
      operation-Balanced op3 h.2,
    )
    operation-Balanced (Operation.round op1 op2) h d =
        simp (scan-append, operation-Balanced op1 h.0, operation-Balanced op2 h.1)
    operation-Balanced (Operation.rtrim op1 op2) h d =
        simp (scan-append, operation-Balanced op1 h.0, operation-Balanced op2 h.1)
    operation-Balanced (Operation.second op1) h d = simp (scan-append, operation-Balanced op1 h)
    operation-Balanced (Operation.sin op1) h d = simp (scan-append, operation-Balanced op1 h)
    operation-Balanced (Operation.sqrt op1) h d = simp (scan-append, operation-Balanced op1 h)
    operation-Balanced (Operation.tan op1) h d = simp (scan-append, operation-Balanced op1 h)
    operation-Balanced (Operation.trim op1 op2) h d =
        simp (scan-append, operation-Balanced op1 h.0, operation-Balanced op2 h.1)
    operation-Balanced (Operation.unixepoch op1) h d = simp (scan-append, operation-Balanced op1 h)
    operation-Balanced (Operation.upper op1) h d = simp (scan-append, operation-Balanced op1 h)
    operation-Balanced (Operation.value val) h d = value-Balanced doc val h d
    operation-Balanced (Operation.weekday op1) h d = simp (scan-append, operation-Balanced op1 h)
    operation-Balanced (Operation.year op1) h d = simp (scan-append, operation-Balanced op1 h)

    aggregation-Balanced :
        (agg : Aggregation) → IsSafeAggregation mysql agg → Balanced mysql (aggregation_to_sql agg)
    aggregation-Balanced (Aggregation.avg val) h d = simp (scan-append, operation-Balanced val h)
    aggregation-Balanced (Aggregation.count val distinct) h d =
        simp (scan-append, count-Balanced val distinct h)
    aggregation-Balanced (Aggregation.max val) h d = simp (scan-append, operation-Balanced val h)
    aggregation-Balanced (Aggregation.min val) h d = simp (scan-append, operation-Balanced val h)
    aggregation-Balanced (Aggregation.sum val) h d = simp (scan-append, operation-Balanced val h)

    operations-Balanced :
        (ops : Operations) → AllSafe mysql ops → All (Balanced mysql) (operations_to_sql ops)
    operations-Balanced Operations.nil h = tt
    operations-Balanced (Operations.cons op ops) h =
        (operation-Balanced op h.0, operations-Balanced ops h.1)

  pub operation_to_sql-Balanced :
      (op : Operation) → IsSafe mysql op → Balanced mysql (operation_to_sql op)
  operation_to_sql-Balanced op h = operation-Balanced op h

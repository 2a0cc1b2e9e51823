-- ===== src/Postgres/Balance/Condition.antt =====
-- What the conditions print is balanced.
use sqlgen.Prelude.{All, refl, List, lit, All-map}
use sqlgen.Scan.{postgres, scan, Balanced}
use sqlgen.Scan.Laws.{scan-append, Balanced-join}
use sqlgen.Dynamic.Value.{Value}
use sqlgen.Dynamic.Condition.{Condition}
use sqlgen.Dynamic.Names.{EnumNames, IsDocumented}
use sqlgen.Dynamic.Safe.{IsSafeValue, IsSafeCondition}
use sqlgen.Postgres.Condition.{condition_to_sql, patterns_to_sql, value_to_sql}
use sqlgen.Postgres.Balance.{value-Balanced, column_or_value-Balanced}
use sqlgen.Postgres.Balance.Operation.{operation_to_sql-Balanced}

module _ ⦃names : EnumNames⦄ (doc : IsDocumented names) where
  patterns-Balanced :
      (patterns : List Value)
      → All (IsSafeValue postgres) patterns
      → Balanced postgres (patterns_to_sql patterns)
  unfolding scan lit
  patterns-Balanced patterns h =
      Balanced-join postgres (lit ", ") _ (λ d. refl)
        (All-map (Balanced postgres) value_to_sql patterns (value-Balanced doc) h)

  pub condition-Balanced :
      (c : Condition) → IsSafeCondition postgres c → Balanced postgres (condition_to_sql c)
  unfolding condition_to_sql IsSafeCondition scan lit
  condition-Balanced (Condition.and c1 c2) h d =
      simp (scan-append, condition-Balanced c1 h.0, condition-Balanced c2 h.1)
  condition-Balanced (Condition.boolean_column_or_value c) h d = column_or_value-Balanced doc c h d
  condition-Balanced (Condition.equal op1 op2) h d =
      simp
        (scan-append, operation_to_sql-Balanced doc op1 h.0, operation_to_sql-Balanced doc op2 h.1)
  condition-Balanced (Condition.greater_equal op1 op2) h d =
      simp
        (scan-append, operation_to_sql-Balanced doc op1 h.0, operation_to_sql-Balanced doc op2 h.1)
  condition-Balanced (Condition.greater_than op1 op2) h d =
      simp
        (scan-append, operation_to_sql-Balanced doc op1 h.0, operation_to_sql-Balanced doc op2 h.1)
  condition-Balanced (Condition.is_in op ps) h d =
      simp (scan-append, operation_to_sql-Balanced doc op h.0, patterns-Balanced ps h.1)
  condition-Balanced (Condition.is_null op) h d =
      simp (scan-append, operation_to_sql-Balanced doc op h)
  condition-Balanced (Condition.is_not_null op) h d =
      simp (scan-append, operation_to_sql-Balanced doc op h)
  condition-Balanced (Condition.lesser_equal op1 op2) h d =
      simp
        (scan-append, operation_to_sql-Balanced doc op1 h.0, operation_to_sql-Balanced doc op2 h.1)
  condition-Balanced (Condition.lesser_than op1 op2) h d =
      simp
        (scan-append, operation_to_sql-Balanced doc op1 h.0, operation_to_sql-Balanced doc op2 h.1)
  condition-Balanced (Condition.like op v) h d =
      simp (scan-append, operation_to_sql-Balanced doc op h.0, value-Balanced doc v h.1)
  condition-Balanced (Condition.not c) h d = simp (scan-append, condition-Balanced c h)
  condition-Balanced (Condition.not_equal op1 op2) h d =
      simp
        (scan-append, operation_to_sql-Balanced doc op1 h.0, operation_to_sql-Balanced doc op2 h.1)
  condition-Balanced (Condition.not_in op ps) h d =
      simp (scan-append, operation_to_sql-Balanced doc op h.0, patterns-Balanced ps h.1)
  condition-Balanced (Condition.not_like op v) h d =
      simp (scan-append, operation_to_sql-Balanced doc op h.0, value-Balanced doc v h.1)
  condition-Balanced (Condition.or c1 c2) h d =
      simp (scan-append, condition-Balanced c1 h.0, condition-Balanced c2 h.1)

-- ===== src/Mysql/Condition.antt =====
-- mysql/to_sql.cpp: `condition_to_sql` and `condition_to_sql_impl`.
use sqlgen.Prelude.{List, map, Text, lit, ◌<<◌}
use sqlgen.Strings.{join}
use sqlgen.Dynamic.Value.{Value, ColumnOrValue}
use sqlgen.Dynamic.Condition.{Condition}
use sqlgen.Dynamic.Names.{EnumNames}
use sqlgen.Mysql.Value.{column_or_value_to_sql}
use sqlgen.Mysql.Operation.{operation_to_sql}

abbrev pub value_to_sql : ⦃names : EnumNames⦄ → Value → Text
value_to_sql v = column_or_value_to_sql (ColumnOrValue.value v)

abbrev pub patterns_to_sql : ⦃names : EnumNames⦄ → List Value → Text
patterns_to_sql patterns = join (lit ", ") (map value_to_sql patterns)

unfoldable pub condition_to_sql : ⦃names : EnumNames⦄ → Condition → Text
condition_to_sql (Condition.and cond1 cond2) =
    lit "(" << condition_to_sql cond1 << lit ") AND (" << condition_to_sql cond2 << lit ")"
condition_to_sql (Condition.boolean_column_or_value col_or_val) = column_or_value_to_sql col_or_val
condition_to_sql (Condition.equal op1 op2) =
    operation_to_sql op1 << lit " = " << operation_to_sql op2
condition_to_sql (Condition.greater_equal op1 op2) =
    operation_to_sql op1 << lit " >= " << operation_to_sql op2
condition_to_sql (Condition.greater_than op1 op2) =
    operation_to_sql op1 << lit " > " << operation_to_sql op2
condition_to_sql (Condition.is_in op patterns) =
    operation_to_sql op << lit " IN (" << patterns_to_sql patterns << lit ")"
condition_to_sql (Condition.is_null op) = operation_to_sql op << lit " IS NULL"
condition_to_sql (Condition.is_not_null op) = operation_to_sql op << lit " IS NOT NULL"
condition_to_sql (Condition.lesser_equal op1 op2) =
    operation_to_sql op1 << lit " <= " << operation_to_sql op2
condition_to_sql (Condition.lesser_than op1 op2) =
    operation_to_sql op1 << lit " < " << operation_to_sql op2
condition_to_sql (Condition.like op pattern_text) =
    operation_to_sql op << lit " LIKE " << value_to_sql pattern_text
condition_to_sql (Condition.not cond) = lit "NOT (" << condition_to_sql cond << lit ")"
condition_to_sql (Condition.not_equal op1 op2) =
    operation_to_sql op1 << lit " != " << operation_to_sql op2
condition_to_sql (Condition.not_in op patterns) =
    operation_to_sql op << lit " NOT IN (" << patterns_to_sql patterns << lit ")"
condition_to_sql (Condition.not_like op pattern_text) =
    operation_to_sql op << lit " NOT LIKE " << value_to_sql pattern_text
condition_to_sql (Condition.or cond1 cond2) =
    lit "(" << condition_to_sql cond1 << lit ") OR (" << condition_to_sql cond2 << lit ")"

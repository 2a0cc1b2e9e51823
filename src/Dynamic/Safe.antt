-- ===== src/Dynamic/Safe.antt =====
-- When a statement's names may stand in the SQL text: the printers put them between double quotes,
-- or write them as they are, and escape neither.
use sqlgen.Prelude.{List, [], ◌≢◌, All, OnSome}
use sqlgen.Scan.{Dialect, standard, mysql, postgres, Balanced}
use sqlgen.Scan.Laws.{IsName, IsEscapable}
use sqlgen.Dynamic.Types.{SqlType, Column}
use sqlgen.Dynamic.Value.{Duration, Value, ColumnOrValue}
use sqlgen.Dynamic.Operation.{Operation, Aggregation, Operations}
use sqlgen.Dynamic.Condition.{Condition}

-- An alias stands outside of quotes.
pub record IsSafeColumn (lang : Dialect) (col : Column) : Type 0 where
  pub alias_balanced : OnSome (Balanced lang) col.alias
  pub name_quoted : IsName lang col.name

-- A type that the program names itself stands outside of quotes.
abbrev pub IsSafeType : Dialect → SqlType → Type 0
IsSafeType lang (SqlType.dynamic name p) = Balanced lang name
IsSafeType lang (SqlType.enumeration name values p) = Balanced lang name
IsSafeType lang t = Unit

-- Where a backslash escapes, the printed text of a string must have none, since it is left as it is.
abbrev pub IsSafeValue : Dialect → Value → Type 0
IsSafeValue lang (Value.string s) = IsEscapable lang s
IsSafeValue lang v = Unit

-- The printer for MySQL nests a call for each duration and closes one at least.
abbrev pub HasDurations : Dialect → List Duration → Type 0
HasDurations standard ds = Unit
HasDurations mysql ds = ds ≢ []
HasDurations postgres ds = Unit

abbrev pub IsSafeColumnOrValue : Dialect → ColumnOrValue → Type 0
IsSafeColumnOrValue lang (ColumnOrValue.column col) = IsSafeColumn lang col
IsSafeColumnOrValue lang (ColumnOrValue.value v) = IsSafeValue lang v

unfoldable mutual
  pub IsSafe : Dialect → Operation → Type 0
  IsSafe lang (Operation.abs op1) = IsSafe lang op1
  IsSafe lang (Operation.aggregation agg) = IsSafeAggregation lang agg
  IsSafe lang (Operation.cast op1 target_type) = IsSafe lang op1 × IsSafeType lang target_type
  IsSafe lang (Operation.ceil op1) = IsSafe lang op1
  IsSafe lang (Operation.column col) = IsSafeColumn lang col
  IsSafe lang (Operation.coalesce ops) = AllSafe lang ops
  IsSafe lang (Operation.concat ops) = AllSafe lang ops
  IsSafe lang (Operation.cos op1) = IsSafe lang op1
  IsSafe lang (Operation.date_plus_duration op durations) =
      IsSafe lang op × HasDurations lang durations
  IsSafe lang (Operation.day op1) = IsSafe lang op1
  IsSafe lang (Operation.days_between op1 op2) = IsSafe lang op1 × IsSafe lang op2
  IsSafe lang (Operation.divides op1 op2) = IsSafe lang op1 × IsSafe lang op2
  IsSafe lang (Operation.exp op1) = IsSafe lang op1
  IsSafe lang (Operation.floor op1) = IsSafe lang op1
  IsSafe lang (Operation.hour op1) = IsSafe lang op1
  IsSafe lang (Operation.length op1) = IsSafe lang op1
  IsSafe lang (Operation.ln op1) = IsSafe lang op1
  IsSafe lang (Operation.log2 op1) = IsSafe lang op1
  IsSafe lang (Operation.lower op1) = IsSafe lang op1
  IsSafe lang (Operation.ltrim op1 op2) = IsSafe lang op1 × IsSafe lang op2
  IsSafe lang (Operation.month op1) = IsSafe lang op1
  IsSafe lang (Operation.minus op1 op2) = IsSafe lang op1 × IsSafe lang op2
  IsSafe lang (Operation.minute op1) = IsSafe lang op1
  IsSafe lang (Operation.mod_op op1 op2) = IsSafe lang op1 × IsSafe lang op2
  IsSafe lang (Operation.multiplies op1 op2) = IsSafe lang op1 × IsSafe lang op2
  IsSafe lang (Operation.plus op1 op2) = IsSafe lang op1 × IsSafe lang op2
  IsSafe lang (Operation.replace op1 op2 op3) = IsSafe lang op1 × IsSafe lang op2 × IsSafe lang op3
  IsSafe lang (Operation.round op1 op2) = IsSafe lang op1 × IsSafe lang op2
  IsSafe lang (Operation.rtrim op1 op2) = IsSafe lang op1 × IsSafe lang op2
  IsSafe lang (Operation.second op1) = IsSafe lang op1
  IsSafe lang (Operation.sin op1) = IsSafe lang op1
  IsSafe lang (Operation.sqrt op1) = IsSafe lang op1
  IsSafe lang (Operation.tan op1) = IsSafe lang op1
  IsSafe lang (Operation.trim op1 op2) = IsSafe lang op1 × IsSafe lang op2
  IsSafe lang (Operation.unixepoch op1) = IsSafe lang op1
  IsSafe lang (Operation.upper op1) = IsSafe lang op1
  IsSafe lang (Operation.value val) = IsSafeValue lang val
  IsSafe lang (Operation.weekday op1) = IsSafe lang op1
  IsSafe lang (Operation.year op1) = IsSafe lang op1

  pub IsSafeAggregation : Dialect → Aggregation → Type 0
  IsSafeAggregation lang (Aggregation.avg val) = IsSafe lang val
  IsSafeAggregation lang (Aggregation.count val distinct) = OnSome (IsSafeColumn lang) val
  IsSafeAggregation lang (Aggregation.max val) = IsSafe lang val
  IsSafeAggregation lang (Aggregation.min val) = IsSafe lang val
  IsSafeAggregation lang (Aggregation.sum val) = IsSafe lang val

  pub AllSafe : Dialect → Operations → Type 0
  AllSafe lang Operations.nil = Unit
  AllSafe lang (Operations.cons op ops) = IsSafe lang op × AllSafe lang ops

unfoldable pub IsSafeCondition : Dialect → Condition → Type 0
IsSafeCondition lang (Condition.and cond1 cond2) =
    IsSafeCondition lang cond1 × IsSafeCondition lang cond2
IsSafeCondition lang (Condition.boolean_column_or_value col_or_val) =
    IsSafeColumnOrValue lang col_or_val
IsSafeCondition lang (Condition.equal op1 op2) = IsSafe lang op1 × IsSafe lang op2
IsSafeCondition lang (Condition.greater_equal op1 op2) = IsSafe lang op1 × IsSafe lang op2
IsSafeCondition lang (Condition.greater_than op1 op2) = IsSafe lang op1 × IsSafe lang op2
IsSafeCondition lang (Condition.is_in op patterns) =
    IsSafe lang op × All (IsSafeValue lang) patterns
IsSafeCondition lang (Condition.is_null op) = IsSafe lang op
IsSafeCondition lang (Condition.is_not_null op) = IsSafe lang op
IsSafeCondition lang (Condition.lesser_equal op1 op2) = IsSafe lang op1 × IsSafe lang op2
IsSafeCondition lang (Condition.lesser_than op1 op2) = IsSafe lang op1 × IsSafe lang op2
IsSafeCondition lang (Condition.like op pattern_text) =
    IsSafe lang op × IsSafeValue lang pattern_text
IsSafeCondition lang (Condition.not cond) = IsSafeCondition lang cond
IsSafeCondition lang (Condition.not_equal op1 op2) = IsSafe lang op1 × IsSafe lang op2
IsSafeCondition lang (Condition.not_in op patterns) =
    IsSafe lang op × All (IsSafeValue lang) patterns
IsSafeCondition lang (Condition.not_like op pattern_text) =
    IsSafe lang op × IsSafeValue lang pattern_text
IsSafeCondition lang (Condition.or cond1 cond2) =
    IsSafeCondition lang cond1 × IsSafeCondition lang cond2

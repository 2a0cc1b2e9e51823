-- ===== src/Dynamic/Names.antt =====
-- `rfl::enum_to_string` belongs to reflect-cpp, so it is a parameter. `IsDocumented` is what that
-- library says of it: the enumerator's name as the source spells it.
use sqlgen.Prelude.{◌≡◌, refl, Text, lit}
use sqlgen.Dynamic.Value.{TimeUnit}
use sqlgen.Dynamic.Select.{JoinType}
use sqlgen.Dynamic.Statement.{TableOrView}

pub record EnumNames : Type 0 where
  pub time_unit : TimeUnit → Text
  pub table_or_view : TableOrView → Text
  pub join_type : JoinType → Text

unfoldable pub time_unit_name : TimeUnit → Text
time_unit_name TimeUnit.milliseconds = lit "milliseconds"
time_unit_name TimeUnit.seconds = lit "seconds"
time_unit_name TimeUnit.minutes = lit "minutes"
time_unit_name TimeUnit.hours = lit "hours"
time_unit_name TimeUnit.days = lit "days"
time_unit_name TimeUnit.weeks = lit "weeks"
time_unit_name TimeUnit.months = lit "months"
time_unit_name TimeUnit.years = lit "years"

unfoldable pub table_or_view_name : TableOrView → Text
table_or_view_name TableOrView.table = lit "table"
table_or_view_name TableOrView.view = lit "view"

unfoldable pub join_type_name : JoinType → Text
join_type_name JoinType.inner_join = lit "inner_join"
join_type_name JoinType.left_join = lit "left_join"
join_type_name JoinType.right_join = lit "right_join"
join_type_name JoinType.full_join = lit "full_join"

pub record IsDocumented (names : EnumNames) : Type 0 where
  pub time_units : (u : TimeUnit) → names.time_unit u ≡ time_unit_name u
  pub tables_or_views : (w : TableOrView) → names.table_or_view w ≡ table_or_view_name w
  pub join_types : (j : JoinType) → names.join_type j ≡ join_type_name j

-- The names as the source spells them, for the tests.
abbrev pub spelled : EnumNames
spelled = record {
  time_unit = time_unit_name;
  table_or_view = table_or_view_name;
  join_type = join_type_name;
}

pub spelled-IsDocumented : IsDocumented spelled
spelled-IsDocumented = record {
  time_units = λ u. refl;
  tables_or_views = λ w. refl;
  join_types = λ j. refl;
}

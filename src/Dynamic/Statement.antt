-- ===== src/Dynamic/Statement.antt =====
-- dynamic/Statement.hpp and the statements that it unites.
use sqlgen.Prelude.{Bool, List, Option, Text}
use sqlgen.Dynamic.Types.{Column, Table}
use sqlgen.Dynamic.Value.{ColumnOrValue}
use sqlgen.Dynamic.Condition.{Condition}
use sqlgen.Dynamic.Select.{SelectFrom, Union}

pub data TableOrView : Type 0 where
  table view : TableOrView

pub record CreateAs : Type 0 where
  pub what : TableOrView
  pub table_or_view : Table
  pub query : SelectFrom
  pub or_replace : Bool
  pub if_not_exists : Bool

pub record CreateIndex : Type 0 where
  pub name : Text
  pub table : Table
  pub columns : List Text
  pub unique : Bool
  pub if_not_exists : Bool
  pub where_clause : Option Condition

pub record CreateTable : Type 0 where
  pub table : Table
  pub columns : List Column
  pub if_not_exists : Bool

pub record DeleteFrom : Type 0 where
  pub table : Table
  pub where_clause : Option Condition

pub record Drop : Type 0 where
  pub what : TableOrView
  pub if_exists : Bool
  pub cascade : Bool
  pub table : Table

pub record Insert : Type 0 where
  pub table : Table
  pub columns : List Text
  pub or_replace : Bool
  pub non_primary_keys : List Text
  pub constraints : List Text

pub record Assignment : Type 0 where
  pub col : Column
  pub to : ColumnOrValue

pub record Update : Type 0 where
  pub table : Table
  pub sets : List Assignment
  pub where_clause : Option Condition

pub record Write : Type 0 where
  pub table : Table
  pub columns : List Text

pub data Statement : Type 0 where
  create_as : CreateAs → Statement
  create_index : CreateIndex → Statement
  create_table : CreateTable → Statement
  delete_from : DeleteFrom → Statement
  drop : Drop → Statement
  insert : Insert → Statement
  select_from : SelectFrom → Statement
  union : Union → Statement
  update : Update → Statement
  write : Write → Statement

-- ===== src/Input/Haproxy.antt =====
-- mecury/plugins/input/haproxy/haproxy.go: importCsvResult, which makes a measurement of each row of
-- HAProxy's statistics. What `csv.ReadAll` returns is the argument, and what the accumulator is
-- called with the result.
pub mod Columns
pub mod Names
pub mod Named
pub mod Sent
mod Tests
use vgo.Prelude.{
  ℕ, suc, ◌^◌, Bytes, codes, List, [], ◌∷◌, ◌++◌, Option, none, some, ltb, ◌==◌, ◌&&◌,
  if◌then◌else◌,
}
use vgo.Prelude.Dict.{Dict, insert}
use vgo.Points.Number.{decimal_digits, decimal_value}
use vgo.Input.Haproxy.Columns.{columns}

-- `strconv.ParseUint(v, 10, 64)`, or an error.
unfoldable pub parse_uint : Bytes → Option ℕ
unfolding decimal_digits decimal_value
parse_uint v =
    if decimal_digits v && ltb (decimal_value 0 v) (2 ^ 64) then some (decimal_value 0 v) else none

-- The case of the switch for a column.
unfoldable pub name_of_column : ℕ → Dict ℕ → Option Bytes
name_of_column field [] = none
name_of_column field ((name, column) ∷ cases) =
    if column == field then some name else name_of_column field cases

unfoldable pub put_field : Option Bytes → Option ℕ → Dict ℕ → Dict ℕ
put_field (some name) (some ival) fields = insert name ival fields
put_field _ _ fields = fields

-- The loop over the columns of a row, from this one on.
unfoldable pub gather_columns : ℕ → List Bytes → Dict ℕ → Dict ℕ
unfolding parse_uint name_of_column put_field
gather_columns field [] fields = fields
gather_columns field (v ∷ row) fields =
    gather_columns (suc field) row (put_field (name_of_column field columns) (parse_uint v) fields)

-- What `acc.AddFields("haproxy", ...)` is called with, and how the call ends: with the error of the
-- CSV reader, if any, or with `none` in a panic.
pub record Measurement : Type 0 where
  pub tags : Dict Bytes
  pub fields : Dict ℕ

pub record Imported (Error : Type 0) : Type 0 where
  pub added : List Measurement
  pub result : Option (Option Error)

unfoldable pub import_row : Bytes → List Bytes → Option Measurement
unfolding gather_columns
import_row host [] = none
import_row host (pxname ∷ []) = none
import_row host (pxname ∷ svname ∷ row) = some (record {
  tags = (codes "server", host) ∷ (codes "proxy", pxname) ∷ (codes "sv", svname) ∷ [];
  fields = gather_columns 0 (pxname ∷ svname ∷ row) [];
})

-- Behind a row.
unfoldable pub with_row : {Error : Type 0} → Option Measurement → Imported Error → Imported Error
with_row none rest = record { added = []; result = none }
with_row (some m) rest = record { added = m ∷ rest.added; result = rest.result }

unfoldable pub import_csv_result :
    {Error : Type 0} → Bytes → List (List Bytes) → Option Error → Imported Error
unfolding import_row with_row
import_csv_result host [] err = record { added = []; result = some err }
import_csv_result host (row ∷ rows) err =
    with_row (import_row host row) (import_csv_result host rows err)

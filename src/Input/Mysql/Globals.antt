-- ===== src/Input/Mysql/Globals.antt =====
-- mecury/plugins/input/mysql/mysql.go: gatherGlobalVariables and gatherGlobalStatuses, which send the
-- fields that they gather twenty at a time.
pub mod Batches
use vgo.Prelude.{
  ℕ, ◌-◌, ◌^◌, ◌||◌, ◌==◌, Bytes, codes, Bool, true, false, List, [], ◌∷◌, ◌++◌, Option, none, some,
  leb, equal, if◌then◌else◌, length,
}
use vgo.Prelude.Dict.{Dict, insert}
use vgo.Prelude.Int.{ℤ, pos, negsuc}
use vgo.Prelude.Outcome.{Outcome, returned, panicked}
use vgo.Points.Number.{decimal_digits}
use vgo.Points.Parser.{parse_int}
use vgo.Input.Text.{to_lower, strip_prefix, overflows_uint64}
use vgo.Input.Mysql.{ReadRow, row, scan_error, Added, Gathered, parse_value}
use vgo.Input.Mysql.Tables.{mappings}

unfoldable pub call_of : {V : Type 0} → Bytes → Bytes → Dict V → Added V
call_of measurement servtag fields = record {
  measurement = measurement;
  fields = fields;
  tags = (codes "server", servtag) ∷ [];
}

module _ {V Error : Type 0} where
  -- A call before what the rest of the gathering does.
  unfoldable pub and_then : Added V → Gathered V Error → Gathered V Error
  and_then call rest = record { added = call ∷ rest.added; error = rest.error }

  unfoldable pub ends_with : Option Error → Gathered V Error
  ends_with error = record { added = []; error = error }

  -- `if len(fields) > 0`.
  unfoldable pub send_rest : Bytes → Bytes → Dict V → Gathered V Error
  unfolding ends_with and_then call_of
  send_rest measurement servtag [] = ends_with none
  send_rest measurement servtag (f ∷ fields) =
      and_then (call_of measurement servtag (f ∷ fields)) (ends_with none)

-- `if floatVal, ok := parseValue(val); ok`.
unfoldable pub put_parsed {ℓ} : {V : Type ℓ} → Bytes → Option V → Dict V → Dict V
put_parsed key none fields = fields
put_parsed key (some v) fields = insert key v fields

module _ {Float : Type 0} (one : Float) (parse_float : Bytes → Option Float) where
  unfoldable pub put_variable : Bytes → Bytes → Dict Float → Dict Float
  unfolding put_parsed parse_value to_lower
  put_variable key val fields = put_parsed (to_lower key) (parse_value one parse_float val) fields

module _ {Float Error : Type 0} (one : Float) (parse_float : Bytes → Option Float) where
  -- The loop of gatherGlobalVariables, from these fields on.
  unfoldable pub variables_loop :
      Bytes → Dict Float → List (ReadRow (Bytes × Bytes) Error) → Gathered Float Error
  unfolding send_rest put_variable and_then call_of ends_with
  variables_loop servtag fields [] = send_rest (codes "mysql_variables") servtag fields
  variables_loop servtag fields (scan_error e ∷ rows) = ends_with (some e)
  variables_loop servtag fields (row (key, val) ∷ rows) =
      let fields' = put_variable one parse_float key val fields in
      if leb 20 (length fields')
      then and_then (call_of (codes "mysql_variables") servtag fields')
          (variables_loop servtag [] rows)
      else variables_loop servtag fields' rows

  unfoldable pub gather_global_variables :
      Bytes → Option Error → List (ReadRow (Bytes × Bytes) Error) → Gathered Float Error
  unfolding variables_loop ends_with
  gather_global_variables servtag (some e) rows = ends_with (some e)
  gather_global_variables servtag none rows = variables_loop servtag [] rows

-- `i, _ := strconv.Atoi(...)`: the nearest int for a number out of range, or for digits that leave
-- uint64 before an invalid byte; zero for another text.
unfoldable pub nearest : Bool → ℤ → ℤ
nearest true extreme = extreme
nearest false extreme = pos 0

-- The digits are out of range: all of them, or those before an invalid byte.
unfoldable pub too_great : Bytes → Bool
unfolding decimal_digits overflows_uint64
too_great s = decimal_digits s || overflows_uint64 0 s

unfoldable pub not_int : Bytes → ℤ
unfolding nearest too_great
not_int [] = pos 0
not_int (c ∷ s) =
    if c == b'-'
    then nearest (too_great s) (negsuc (2 ^ 63 - 1))
    else if c == b'+'
    then nearest (too_great s) (pos (2 ^ 63 - 1))
    else nearest (too_great (c ∷ s)) (pos (2 ^ 63 - 1))

unfoldable pub or_nearest : Bytes → Option ℤ → ℤ
unfolding not_int
or_nearest text none = not_int text
or_nearest text (some n) = n

-- The loop over the mappings: the fields, and `found`.
unfoldable pub put_mapped : Bytes → Option Bytes → Bytes → Dict ℤ → Dict ℤ
unfolding or_nearest parse_int
put_mapped in_export none val fields = fields
put_mapped in_export (some rest) val fields =
    insert (in_export ++ rest) (or_nearest val (parse_int val)) fields

unfoldable pub map_status : List (Bytes × Bytes) → Bytes → Bytes → Dict ℤ → Dict ℤ
unfolding put_mapped strip_prefix
map_status [] name val fields = fields
map_status ((on_server, in_export) ∷ rest) name val fields =
    map_status rest name val (put_mapped in_export (strip_prefix on_server name) val fields)

unfoldable pub or_found : Option Bytes → Bool → Bool
or_found none found = found
or_found (some rest) found = true

unfoldable pub is_mapped : List (Bytes × Bytes) → Bytes → Bool
unfolding or_found strip_prefix
is_mapped [] name = false
is_mapped ((on_server, in_export) ∷ rest) name =
    or_found (strip_prefix on_server name) (is_mapped rest name)

-- The switch over the specific values.
unfoldable pub specific_name : Bytes → Option Bytes
specific_name name =
    if equal name (codes "Queries")
    then some (codes "queries")
    else if equal name (codes "Slow_queries")
    then some (codes "slow_queries")
    else if equal name (codes "Connections")
    then some (codes "connections")
    else if equal name (codes "Syncs")
    then some (codes "syncs")
    else none

-- The fields behind the switch, or `none` if ParseInt fails.
unfoldable pub put_specific : Option Bytes → Option ℤ → Dict ℤ → Option (Dict ℤ)
put_specific none value fields = some fields
put_specific (some field) none fields = none
put_specific (some field) (some n) fields = some (insert field n fields)

module _ {Error : Type 0} (parse_error : Bytes → Error) where
  -- The end of a round, from the fields behind the switch.
  unfoldable pub next_round :
      (Dict ℤ → Gathered ℤ Error) → Bytes → Option (Dict ℤ) → Gathered ℤ Error
  unfolding ends_with
  next_round rest val none = ends_with (some (parse_error val))
  next_round rest val (some fields) = rest fields

  unfoldable pub specific_or_found :
      (Dict ℤ → Gathered ℤ Error) → Bytes → Bytes → Dict ℤ → Gathered ℤ Error
  unfolding is_mapped next_round put_specific specific_name parse_int
  specific_or_found rest name val fields =
      if is_mapped mappings name
      then rest fields
      else next_round rest val (put_specific (specific_name name) (parse_int val) fields)

  -- The loop of gatherGlobalStatuses over the rows of SHOW GLOBAL STATUS.
  unfoldable pub statuses_loop :
      Bytes → Dict ℤ → List (ReadRow (Bytes × Bytes) Error) → Gathered ℤ Error
  unfolding send_rest map_status and_then call_of ends_with specific_or_found
  statuses_loop servtag fields [] = send_rest (codes "mysql") servtag fields
  statuses_loop servtag fields (scan_error e ∷ rows) = ends_with (some e)
  statuses_loop servtag fields (row (name, val) ∷ rows) =
      let fields' = map_status mappings name val fields in
      let rest = λ (m : Dict ℤ). statuses_loop servtag m rows in
      if leb 20 (length fields')
      then and_then (call_of (codes "mysql") servtag fields') (specific_or_found rest name val [])
      else specific_or_found rest name val fields'

  -- The connections of each user, from a query whose error is not looked at.
  unfoldable pub users_loop : Bytes → List (ReadRow (Bytes × ℤ) Error) → Gathered ℤ Error
  unfolding and_then ends_with
  users_loop servtag [] = ends_with none
  users_loop servtag (scan_error e ∷ rows) = ends_with (some e)
  users_loop servtag (row (user, connections) ∷ rows) =
      and_then
        (record {
          measurement = codes "mysql_users";
          fields = (codes "connections", connections) ∷ [];
          tags = (codes "server", servtag) ∷ (codes "user", user) ∷ [];
        })
        (users_loop servtag rows)

  -- Behind the first loop: nothing if it failed.
  unfoldable pub followed_by : Gathered ℤ Error → Gathered ℤ Error → Gathered ℤ Error
  followed_by first second = elim first.error [
    | none ↦ record { added = first.added ++ second.added; error = second.error }
    | some e ↦ first
  ]

  -- `gatherGlobalStatuses`; the rows of the users are `none` if their query fails.
  unfoldable pub with_users :
      Bytes
      → Bool
      → Option (List (ReadRow (Bytes × ℤ) Error))
      → Gathered ℤ Error
      → Outcome (Gathered ℤ Error)
  unfolding users_loop followed_by
  with_users servtag false users first = returned first
  with_users servtag true (some users) first =
      returned (followed_by first (users_loop servtag users))
  with_users servtag true none first = elim first.error [
    | none ↦ panicked
    | some e ↦ returned first
  ]

  unfoldable pub gather_global_statuses :
      Bytes
      → (gather_process_list : Bool) → Option Error
      → List (ReadRow (Bytes × Bytes) Error)
      → Option (List (ReadRow (Bytes × ℤ) Error))
      → Outcome (Gathered ℤ Error)
  unfolding with_users statuses_loop ends_with
  gather_global_statuses servtag gather_process_list (some e) rows users =
      returned (ends_with (some e))
  gather_global_statuses servtag gather_process_list none rows users =
      with_users servtag gather_process_list users (statuses_loop servtag [] rows)

-- ===== src/Alarm/State.antt =====
-- alarm/service/alert.go, output.go, and the message of process.go: the data of the service.
-- A `*Group`, `*Alert` or `*User` is reached only through the map that holds it, so the maps hold
-- the values; a missing key is Go's nil pointer. A `time.Time` is a number of nanoseconds.
use vgo.Prelude.{ℕ, Bytes, List, Option, none, some, get_elem?, set, length}
use vgo.Prelude.{ltb, if◌then◌else◌}
use vgo.Prelude.Dict.{Dict}
use vgo.Prelude.Int.{ℤ, pos, negsuc}

-- The levels 0 (warn) and 1 (critical) index each of the slices.
pub record Alert : Type 0 where
  pub type : ℤ
  -- float64 bit patterns
  pub value : List ℕ
  pub count : List ℤ
  pub now_count : List ℤ
  pub alarm_output : List Bytes
  pub duration : List ℤ
  pub last_time : List ℤ

pub record User : Type 0 where
  pub name : Bytes
  pub info : Dict Bytes

pub record Group : Type 0 where
  pub id : Bytes
  pub alerts : Dict Alert
  pub users : Dict User

abbrev pub Groups : Type 0
Groups = Dict Group

-- The plugins under alarm/plugins/output.
pub data Outputer : Type 0 where
  mail sms : Outputer

pub record Output : Type 0 where
  pub name : Bytes
  pub output : Outputer

-- `Alarm`, what an output is asked to send.
pub record Alarm : Type 0 where
  pub content : Bytes
  pub user : Bytes

-- `Output.Write`: the call that reaches the plugin.
abbrev pub Sent : Type 0
Sent = Outputer × Alarm

unfoldable pub write : Output → Alarm → Sent
write o alarm = (o.output, alarm)

-- `AlertData`, a report after easyjson has decoded it.
pub record AlertData : Type 0 where
  pub id : Bytes
  pub group_id : Bytes
  pub value : ℕ
  pub level : ℤ
  pub host_name : Bytes

-- `xs[i]` with an `int` index; `none` is the run-time panic.
unfoldable pub at {ℓ} : {A : Type ℓ} → List A → ℤ → Option A
at xs (pos n) = get_elem? xs n
at xs (negsuc n) = none

-- `xs[i] = v`.
unfoldable pub set_at {ℓ} : {A : Type ℓ} → List A → ℤ → A → Option (List A)
set_at xs (pos n) v = if ltb n (length xs) then some (set xs n v) else none
set_at xs (negsuc n) v = none

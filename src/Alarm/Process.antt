-- ===== src/Alarm/Process.antt =====
-- alarm/service/process.go: `process`, the handler of one report.
-- The decoded message, the clock and `Conf.Outputs` are arguments; `none` is a run-time panic (a
-- nil group, alert or output, or an index out of range), which ends the service.
pub mod Refine
pub mod Recorded
pub mod Window
use vgo.Prelude.{
  ℕ, Bytes, Bool, true, false, List, [], ◌∷◌, map, Option, none, some, if◌then◌else◌, ◌>>=◌,
}
use vgo.Prelude.Dict.{Dict, lookup, insert}
use vgo.Prelude.Int.{ℤ, pos, negsuc, ◌+ℤ◌, ◌-ℤ◌, ltb_ℤ, leb_ℤ}
use vgo.Prelude.Words.{wrap32}
use vgo.Alarm.State.{Alert, User, Group, Groups, Output, Alarm, Sent, write, AlertData, at, set_at}

-- `now.Sub(t)`, which saturates at the ends of int64.
unfoldable pub time_sub : ℤ → ℤ → ℤ
time_sub now t =
    let d = now -ℤ t in
    if ltb_ℤ (pos 9223372036854775807) d
    then pos 9223372036854775807
    else if ltb_ℤ d (negsuc 9223372036854775807)
    then negsuc 9223372036854775807
    else d

-- `u.Info[name]`: the zero value of a missing key is the empty string.
unfoldable pub info : User → Bytes → Bytes
info u name = elim (lookup name u.info) [ none ↦ [] | some address ↦ address ]

-- `for _, u := range group.Users { output.Write(…) }`. A nil `output` panics at its first use.
unfoldable pub notify : Option Output → Bytes → Bytes → Dict User → Option (List Sent)
unfolding write info
notify output name raw [] = some []
notify none name raw (_ ∷ _) = none
notify (some o) name raw ((_, u) ∷ users) = do
  rest ← notify (some o) name raw users
  some (write o (record { content = raw; user = info u name }) ∷ rest)

-- `now.Sub(alert.LastTime[level]) > alert.Duration[level]`.
unfoldable pub is_stale : Alert → ℤ → ℤ → Option Bool
is_stale alert level now = do
  last ← at alert.last_time level
  duration ← at alert.duration level
  some (ltb_ℤ duration (time_sub now last))

-- `alert.NowCount[level] = n; alert.LastTime[level] = now`, which ends each branch.
unfoldable pub record_count : Alert → ℤ → ℤ → ℤ → Option Alert
record_count alert level n now = do
  now_count ← set_at alert.now_count level n
  last_time ← set_at alert.last_time level now
  some (record alert { now_count = now_count; last_time = last_time })

-- A branch that only updates the counters.
abbrev pub silently : Option Alert → Option (Alert × List Sent)
silently m = m >>= λ alert. some (alert, [])

-- The branch that writes an alarm for each user and clears the count.
unfoldable pub fire : Dict Output → Bytes → Dict User → ℤ → ℤ → Alert → Option (Alert × List Sent)
fire outputs raw users level now alert = do
  name ← at alert.alarm_output level
  sent ← notify (lookup name outputs) name raw users
  alert' ← record_count alert level (pos 0) now
  some (alert', sent)

-- Inside the window: fire and reset, or count one more.
unfoldable pub count_report :
    Dict Output → Bytes → Dict User → ℤ → ℤ → Alert → Option (Alert × List Sent)
count_report outputs raw users level now alert = do
  n ← at alert.now_count level
  limit ← at alert.count level
  if leb_ℤ limit (wrap32 (n +ℤ pos 1))
      then fire outputs raw users level now alert
      else silently (record_count alert level (wrap32 (n +ℤ pos 1)) now)

unfoldable pub handle : Dict Output → Bytes → Dict User → ℤ → ℤ → Alert → Option (Alert × List Sent)
handle outputs raw users level now alert = do
  stale ← is_stale alert level now
  if stale
      then silently (record_count alert level (pos 1) now)
      else count_report outputs raw users level now alert

unfoldable pub process : Dict Output → ℤ → Bytes → AlertData → Groups → Option (Groups × List Sent)
process outputs now raw a groups = do
  group ← lookup a.group_id groups
  alert ← lookup a.id group.alerts
  (alert', sent) ← handle outputs raw group.users a.level now alert
  let group' = record group { alerts = insert a.id alert' group.alerts }
  some (insert a.group_id group' groups, sent)

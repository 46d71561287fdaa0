-- ===== src/Input/Redis.antt =====
-- mecury/plugins/input/redis/redis.go: what the plugin makes of the lines of INFO, which the scanner finds.
-- ParseFloat, its error and the quotient of two uint64s as a float64 are arguments. The map of tags, which
-- the accumulator may add to, is handed on as the code writes it.
pub mod Reported
mod Tests
use vgo.Prelude.{
  ℕ, ◌+◌, ◌-◌, ◌%◌, ◌^◌, Bytes, codes, Bool, true, false, ◌&&◌, ◌||◌, List, [], ◌∷◌, ◌++◌, Option,
  none, some, ◌==◌, equal, if◌then◌else◌, ◌⊎◌, inl, inr,
}
use vgo.Prelude.Dict.{Dict, lookup, insert, insert_all}
use vgo.Prelude.Outcome.{Outcome, returned, panicked, then_call}
use vgo.Input.Text.{holds_text, trim_space, overflows_uint64, cut, split}
use vgo.Input.Haproxy.{parse_uint}
use vgo.Input.Mysql.{Added, Gathered}

-- `Tracking`: the lines that are gathered, and the names of their fields.
abbrev pub tracking : Dict Bytes
tracking =
    (codes "uptime_in_seconds", codes "uptime")
    ∷ (codes "connected_clients", codes "clients")
    ∷ (codes "used_memory", codes "used_memory")
    ∷ (codes "used_memory_rss", codes "used_memory_rss")
    ∷ (codes "used_memory_peak", codes "used_memory_peak")
    ∷ (codes "used_memory_lua", codes "used_memory_lua")
    ∷ (codes "rdb_changes_since_last_save", codes "rdb_changes_since_last_save")
    ∷ (codes "total_connections_received", codes "total_connections_received")
    ∷ (codes "total_commands_processed", codes "total_commands_processed")
    ∷ (codes "instantaneous_ops_per_sec", codes "instantaneous_ops_per_sec")
    ∷ (codes "instantaneous_input_kbps", codes "instantaneous_input_kbps")
    ∷ (codes "instantaneous_output_kbps", codes "instantaneous_output_kbps")
    ∷ (codes "sync_full", codes "sync_full")
    ∷ (codes "sync_partial_ok", codes "sync_partial_ok")
    ∷ (codes "sync_partial_err", codes "sync_partial_err")
    ∷ (codes "expired_keys", codes "expired_keys")
    ∷ (codes "evicted_keys", codes "evicted_keys")
    ∷ (codes "keyspace_hits", codes "keyspace_hits")
    ∷ (codes "keyspace_misses", codes "keyspace_misses")
    ∷ (codes "pubsub_channels", codes "pubsub_channels")
    ∷ (codes "pubsub_patterns", codes "pubsub_patterns")
    ∷ (codes "latest_fork_usec", codes "latest_fork_usec")
    ∷ (codes "connected_slaves", codes "connected_slaves")
    ∷ (codes "master_repl_offset", codes "master_repl_offset")
    ∷ (codes "master_last_io_seconds_ago", codes "master_last_io_seconds_ago")
    ∷ (codes "repl_backlog_active", codes "repl_backlog_active")
    ∷ (codes "repl_backlog_size", codes "repl_backlog_size")
    ∷ (codes "repl_backlog_histlen", codes "repl_backlog_histlen")
    ∷ (codes "mem_fragmentation_ratio", codes "mem_fragmentation_ratio")
    ∷ (codes "used_cpu_sys", codes "used_cpu_sys")
    ∷ (codes "used_cpu_user", codes "used_cpu_user")
    ∷ (codes "used_cpu_sys_children", codes "used_cpu_sys_children")
    ∷ (codes "used_cpu_user_children", codes "used_cpu_user_children")
    ∷ (codes "role", codes "replication_role")
    ∷ []

pub data RedisValue (Float : Type 0) : Type 0 where
  count : ℕ → RedisValue Float
  number : Float → RedisValue Float

-- What `strconv.ParseUint` returns beside an error: 2^64 - 1 where the digits overflow, before any
-- invalid byte, and zero for another text.
unfoldable pub uint_or_nearest : Bytes → Option ℕ → ℕ
unfolding overflows_uint64
uint_or_nearest val (some n) = n
uint_or_nearest val none = if overflows_uint64 0 val then 2 ^ 64 - 1 else 0

-- The loop of gatherKeyspaceLine over its parts; `kv[1]` panics on a part without an equals sign.
-- A second equals sign ends the value.
unfoldable pub value_part : Bytes → Bytes
unfolding cut
value_part text = elim (cut b'=' text) [ none ↦ text | some kv ↦ kv.0 ]

unfoldable pub put_count : Bytes → Option ℕ → Dict ℕ → Dict ℕ
put_count key (some n) fields = insert key n fields
put_count key none fields = fields

unfoldable pub keyspace_part : Option (Bytes × Bytes) → Dict ℕ → Outcome (Dict ℕ)
unfolding put_count value_part parse_uint
keyspace_part none fields = panicked
keyspace_part (some (key, text)) fields =
    returned (put_count key (parse_uint (value_part text)) fields)

unfoldable pub keyspace_fields : List Bytes → Dict ℕ → Outcome (Dict ℕ)
unfolding keyspace_part
keyspace_fields [] fields = returned fields
keyspace_fields (part ∷ parts) fields =
    then_call (keyspace_part (cut b'=' part) fields) (keyspace_fields parts)

-- The state of gatherInfoOutput: what it has read, and the calls that it has made.
pub record Info (Float : Type 0) : Type 0 where
  pub keyspace_hits : ℕ
  pub keyspace_misses : ℕ
  pub tags : Dict Bytes
  pub fields : Dict (RedisValue Float)
  pub keyspaces : List (Added ℕ)

-- `gatherKeyspaceLine`.
unfoldable pub gather_keyspace_line :
    {Float : Type 0} → Bytes → Bytes → Info Float → Outcome (Info Float)
unfolding holds_text keyspace_fields split
gather_keyspace_line name line info =
    if holds_text line (codes "keys=")
    then then_call (keyspace_fields (split b',' line) []) (λ fields. returned (record info {
      keyspaces =
          info.keyspaces
          ++ record {
            measurement = codes "redis_keyspace";
            fields = fields;
            tags = insert (codes "database") name (insert_all info.tags []);
          }
            ∷ [];
    }))
    else returned info

-- How a line ends: the loop goes on, or the call returns an error.
pub data LineEnd (Float Error : Type 0) : Type 0 where
  goes_on : Info Float → LineEnd Float Error
  fails : Error → LineEnd Float Error

-- What is sent: the calls for the keyspaces, and the one for the server if there was no error.
pub record Report (Float Error : Type 0) : Type 0 where
  pub keyspaces : List (Added ℕ)
  pub server : Added (RedisValue Float) ⊎ Error

module _ {Float Error : Type 0} (parse_float : Bytes → Float ⊎ Error) where
  unfoldable pub put_float : Bytes → Info Float → Float ⊎ Error → LineEnd Float Error
  put_float metric info (inl f) =
      goes_on (record info { fields = insert metric (number f) info.fields })
  put_float metric info (inr e) = fails e

  unfoldable pub put_metric : Bytes → Bytes → Option ℕ → Info Float → LineEnd Float Error
  unfolding put_float
  put_metric metric val (some n) info =
      goes_on (record info { fields = insert metric (count n) info.fields })
  put_metric metric val none info = put_float metric info (parse_float val)

  -- The hits and the misses, also where the text is no number.
  unfoldable pub note_keyspace : Bytes → ℕ → Info Float → Info Float
  note_keyspace name n info =
      if equal name (codes "keyspace_hits")
      then record info { keyspace_hits = n }
      else if equal name (codes "keyspace_misses")
      then record info { keyspace_misses = n }
      else info

  unfoldable pub tracked_line : Bytes → Bytes → Bytes → Info Float → LineEnd Float Error
  unfolding note_keyspace uint_or_nearest put_metric parse_uint
  tracked_line name metric val info =
      let noted = note_keyspace name (uint_or_nearest val (parse_uint val)) info in
      if equal name (codes "role")
      then goes_on (record noted { tags = insert (codes "replication_role") val noted.tags })
      else put_metric metric val (parse_uint val) noted

  unfoldable pub named_line :
      Option Bytes → Bytes → Bytes → Info Float → Outcome (LineEnd Float Error)
  unfolding tracked_line gather_keyspace_line
  named_line (some metric) name val info = returned (tracked_line name metric val info)
  named_line none name val info =
      then_call (gather_keyspace_line name val info) (λ after. returned (goes_on after))

  unfoldable pub cut_line : Option (Bytes × Bytes) → Info Float → Outcome (LineEnd Float Error)
  unfolding named_line trim_space
  cut_line none info = returned (goes_on info)
  cut_line (some (name, text)) info = named_line (lookup name tracking) name (trim_space text) info

  -- A line that does not hold ERR: nothing for an empty one and a comment.
  unfoldable pub read_line : Bytes → Info Float → Outcome (LineEnd Float Error)
  unfolding cut_line cut
  read_line [] info = returned (goes_on info)
  read_line (c ∷ line) info =
      if c == b'#' then returned (goes_on info) else cut_line (cut b':' (c ∷ line)) info

  module _ (zero_rate : Float) (quotient : ℕ → ℕ → Float) where
    unfoldable pub hitrate : ℕ → ℕ → Float
    hitrate hits misses =
        if hits == 0 && misses == 0 then zero_rate else quotient hits ((hits + misses) % 2 ^ 64)

    unfoldable pub finish : Info Float → Report Float Error
    unfolding hitrate
    finish info = record {
      keyspaces = info.keyspaces;
      server = inl (record {
        measurement = codes "redis";
        fields =
            insert (codes "keyspace_hitrate")
              (number (hitrate info.keyspace_hits info.keyspace_misses)) info.fields;
        tags = info.tags;
      });
    }

    unfoldable pub after_line :
        (Info Float → Outcome (Report Float Error))
        → List (Added ℕ)
        → LineEnd Float Error
        → Outcome (Report Float Error)
    after_line rest sent (goes_on info) = rest info
    after_line rest sent (fails e) = returned (record { keyspaces = sent; server = inr e })

    unfoldable pub gather_lines : List Bytes → Info Float → Outcome (Report Float Error)
    unfolding read_line finish after_line holds_text
    gather_lines [] info = returned (finish info)
    gather_lines (line ∷ lines) info =
        let rest = gather_lines lines in
        if holds_text line (codes "ERR")
        then returned (finish info)
        else then_call (read_line line info) (after_line rest info.keyspaces)

    unfoldable pub gather_info_output : List Bytes → Dict Bytes → Outcome (Report Float Error)
    unfolding gather_lines
    gather_info_output lines tags = gather_lines lines (record {
      keyspace_hits = 0;
      keyspace_misses = 0;
      tags = tags;
      fields = [];
      keyspaces = [];
    })

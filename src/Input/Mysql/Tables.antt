-- ===== src/Input/Mysql/Tables.antt =====
-- mecury/plugins/input/mysql/mysql.go: the tables of the plugin.
use vgo.Prelude.{ℕ, Bytes, codes, List, [], ◌∷◌}
use vgo.Prelude.Dict.{Dict}

-- `mappings`: the prefix of a status on the server, and the one it is exported with.
abbrev pub mappings : List (Bytes × Bytes)
mappings =
    (codes "Aborted_", codes "aborted_")
    ∷ (codes "Bytes_", codes "bytes_")
    ∷ (codes "Com_", codes "commands_")
    ∷ (codes "Created_", codes "created_")
    ∷ (codes "Handler_", codes "handler_")
    ∷ (codes "Innodb_", codes "innodb_")
    ∷ (codes "Key_", codes "key_")
    ∷ (codes "Open_", codes "open_")
    ∷ (codes "Opened_", codes "opened_")
    ∷ (codes "Qcache_", codes "qcache_")
    ∷ (codes "Table_", codes "table_")
    ∷ (codes "Tokudb_", codes "tokudb_")
    ∷ (codes "Threads_", codes "threads_")
    ∷ (codes "Access_", codes "access_")
    ∷ (codes "Aria__", codes "aria_")
    ∷ (codes "Binlog__", codes "binlog_")
    ∷ (codes "Busy_", codes "busy_")
    ∷ (codes "Connection_", codes "connection_")
    ∷ (codes "Delayed_", codes "delayed_")
    ∷ (codes "Empty_", codes "empty_")
    ∷ (codes "Executed_", codes "executed_")
    ∷ (codes "Executed_", codes "executed_")
    ∷ (codes "Feature_", codes "feature_")
    ∷ (codes "Flush_", codes "flush_")
    ∷ (codes "Last_", codes "last_")
    ∷ (codes "Master_", codes "master_")
    ∷ (codes "Max_", codes "max_")
    ∷ (codes "Memory_", codes "memory_")
    ∷ (codes "Not_", codes "not_")
    ∷ (codes "Performance_", codes "performance_")
    ∷ (codes "Prepared_", codes "prepared_")
    ∷ (codes "Rows_", codes "rows_")
    ∷ (codes "Rpl_", codes "rpl_")
    ∷ (codes "Select_", codes "select_")
    ∷ (codes "Slave_", codes "slave_")
    ∷ (codes "Slow_", codes "slow_")
    ∷ (codes "Sort_", codes "sort_")
    ∷ (codes "Subquery_", codes "subquery_")
    ∷ (codes "Tc_", codes "tc_")
    ∷ (codes "Threadpool_", codes "threadpool_")
    ∷ (codes "wsrep_", codes "wsrep_")
    ∷ []

-- `generalThreadStates`: the states that are counted, all from zero.
abbrev pub general_thread_states : Dict ℕ
general_thread_states =
    (codes "after create", 0)
    ∷ (codes "altering table", 0)
    ∷ (codes "analyzing", 0)
    ∷ (codes "checking permissions", 0)
    ∷ (codes "checking table", 0)
    ∷ (codes "cleaning up", 0)
    ∷ (codes "closing tables", 0)
    ∷ (codes "converting heap to myisam", 0)
    ∷ (codes "copying to tmp table", 0)
    ∷ (codes "creating sort index", 0)
    ∷ (codes "creating table", 0)
    ∷ (codes "creating tmp table", 0)
    ∷ (codes "deleting", 0)
    ∷ (codes "executing", 0)
    ∷ (codes "execution of init_command", 0)
    ∷ (codes "end", 0)
    ∷ (codes "freeing items", 0)
    ∷ (codes "flushing tables", 0)
    ∷ (codes "fulltext initialization", 0)
    ∷ (codes "idle", 0)
    ∷ (codes "init", 0)
    ∷ (codes "killed", 0)
    ∷ (codes "waiting for lock", 0)
    ∷ (codes "logging slow query", 0)
    ∷ (codes "login", 0)
    ∷ (codes "manage keys", 0)
    ∷ (codes "opening tables", 0)
    ∷ (codes "optimizing", 0)
    ∷ (codes "preparing", 0)
    ∷ (codes "reading from net", 0)
    ∷ (codes "removing duplicates", 0)
    ∷ (codes "removing tmp table", 0)
    ∷ (codes "reopen tables", 0)
    ∷ (codes "repair by sorting", 0)
    ∷ (codes "repair done", 0)
    ∷ (codes "repair with keycache", 0)
    ∷ (codes "replication master", 0)
    ∷ (codes "rolling back", 0)
    ∷ (codes "searching rows for update", 0)
    ∷ (codes "sending data", 0)
    ∷ (codes "sorting for group", 0)
    ∷ (codes "sorting for order", 0)
    ∷ (codes "sorting index", 0)
    ∷ (codes "sorting result", 0)
    ∷ (codes "statistics", 0)
    ∷ (codes "updating", 0)
    ∷ (codes "waiting for tables", 0)
    ∷ (codes "waiting for table flush", 0)
    ∷ (codes "waiting on cond", 0)
    ∷ (codes "writing to net", 0)
    ∷ (codes "other", 0)
    ∷ []

-- `stateStatusMappings`.
abbrev pub state_status_mappings : Dict Bytes
state_status_mappings =
    (codes "user sleep", codes "idle")
    ∷ (codes "creating index", codes "altering table")
    ∷ (codes "committing alter table to storage engine", codes "altering table")
    ∷ (codes "discard or import tablespace", codes "altering table")
    ∷ (codes "rename", codes "altering table")
    ∷ (codes "setup", codes "altering table")
    ∷ (codes "renaming result table", codes "altering table")
    ∷ (codes "preparing for alter table", codes "altering table")
    ∷ (codes "copying to group table", codes "copying to tmp table")
    ∷ (codes "copy to tmp table", codes "copying to tmp table")
    ∷ (codes "query end", codes "end")
    ∷ (codes "update", codes "updating")
    ∷ (codes "updating main table", codes "updating")
    ∷ (codes "updating reference tables", codes "updating")
    ∷ (codes "system lock", codes "waiting for lock")
    ∷ (codes "user lock", codes "waiting for lock")
    ∷ (codes "table lock", codes "waiting for lock")
    ∷ (codes "deleting from main table", codes "deleting")
    ∷ (codes "deleting from reference tables", codes "deleting")
    ∷ []

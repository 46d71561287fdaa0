-- ===== src/Input/Haproxy/Columns.antt =====
-- mecury/plugins/input/haproxy/haproxy.go: the numbers of the columns of HAProxy's statistics, and the
-- names of the fields for the columns that are gathered.
use vgo.Prelude.{ℕ, codes, [], ◌∷◌, ◌++◌}
use vgo.Prelude.Dict.{Dict}

abbrev pub hf_pxname : ℕ
hf_pxname = 0

abbrev pub hf_svname : ℕ
hf_svname = 1

abbrev pub hf_qcur : ℕ
hf_qcur = 2

abbrev pub hf_qmax : ℕ
hf_qmax = 3

abbrev pub hf_scur : ℕ
hf_scur = 4

abbrev pub hf_smax : ℕ
hf_smax = 5

abbrev pub hf_stot : ℕ
hf_stot = 7

abbrev pub hf_bin : ℕ
hf_bin = 8

abbrev pub hf_bout : ℕ
hf_bout = 9

abbrev pub hf_dreq : ℕ
hf_dreq = 10

abbrev pub hf_dresp : ℕ
hf_dresp = 11

abbrev pub hf_ereq : ℕ
hf_ereq = 12

abbrev pub hf_econ : ℕ
hf_econ = 13

abbrev pub hf_eresp : ℕ
hf_eresp = 14

abbrev pub hf_wretr : ℕ
hf_wretr = 15

abbrev pub hf_wredis : ℕ
hf_wredis = 16

abbrev pub hf_act : ℕ
hf_act = 19

abbrev pub hf_bck : ℕ
hf_bck = 20

abbrev pub hf_downtime : ℕ
hf_downtime = 24

abbrev pub hf_throttle : ℕ
hf_throttle = 29

abbrev pub hf_lbtot : ℕ
hf_lbtot = 30

abbrev pub hf_rate : ℕ
hf_rate = 33

abbrev pub hf_rate_max : ℕ
hf_rate_max = 35

abbrev pub hf_check_duration : ℕ
hf_check_duration = 38

abbrev pub hf_hrsp_1xx : ℕ
hf_hrsp_1xx = 39

abbrev pub hf_hrsp_2xx : ℕ
hf_hrsp_2xx = 40

abbrev pub hf_hrsp_3xx : ℕ
hf_hrsp_3xx = 41

abbrev pub hf_hrsp_4xx : ℕ
hf_hrsp_4xx = 42

abbrev pub hf_hrsp_5xx : ℕ
hf_hrsp_5xx = 43

abbrev pub hf_req_rate : ℕ
hf_req_rate = 46

abbrev pub hf_req_rate_max : ℕ
hf_req_rate_max = 47

abbrev pub hf_req_tot : ℕ
hf_req_tot = 48

abbrev pub hf_cli_abrt : ℕ
hf_cli_abrt = 49

abbrev pub hf_srv_abrt : ℕ
hf_srv_abrt = 50

abbrev pub hf_qtime : ℕ
hf_qtime = 58

abbrev pub hf_ctime : ℕ
hf_ctime = 59

abbrev pub hf_rtime : ℕ
hf_rtime = 60

abbrev pub hf_ttime : ℕ
hf_ttime = 61

-- The cases of the switch over the columns, from `qcur` to `throttle`.
abbrev pub front_columns : Dict ℕ
front_columns =
    (codes "qcur", hf_qcur)
    ∷ (codes "qmax", hf_qmax)
    ∷ (codes "scur", hf_scur)
    ∷ (codes "smax", hf_smax)
    ∷ (codes "stot", hf_stot)
    ∷ (codes "bin", hf_bin)
    ∷ (codes "bout", hf_bout)
    ∷ (codes "dreq", hf_dreq)
    ∷ (codes "dresp", hf_dresp)
    ∷ (codes "ereq", hf_ereq)
    ∷ (codes "econ", hf_econ)
    ∷ (codes "eresp", hf_eresp)
    ∷ (codes "wretr", hf_wretr)
    ∷ (codes "wredis", hf_wredis)
    ∷ (codes "active_servers", hf_act)
    ∷ (codes "backup_servers", hf_bck)
    ∷ (codes "downtime", hf_downtime)
    ∷ (codes "throttle", hf_throttle)
    ∷ []

-- The rest of them to `ttime`.
abbrev pub back_columns : Dict ℕ
back_columns =
    (codes "lbtot", hf_lbtot)
    ∷ (codes "rate", hf_rate)
    ∷ (codes "rate_max", hf_rate_max)
    ∷ (codes "check_duration", hf_check_duration)
    ∷ (codes "http_response.1xx", hf_hrsp_1xx)
    ∷ (codes "http_response.2xx", hf_hrsp_2xx)
    ∷ (codes "http_response.3xx", hf_hrsp_3xx)
    ∷ (codes "http_response.4xx", hf_hrsp_4xx)
    ∷ (codes "http_response.5xx", hf_hrsp_5xx)
    ∷ (codes "req_rate", hf_req_rate)
    ∷ (codes "req_rate_max", hf_req_rate_max)
    ∷ (codes "req_tot", hf_req_tot)
    ∷ (codes "cli_abort", hf_cli_abrt)
    ∷ (codes "srv_abort", hf_srv_abrt)
    ∷ (codes "qtime", hf_qtime)
    ∷ (codes "ctime", hf_ctime)
    ∷ (codes "rtime", hf_rtime)
    ∷ (codes "ttime", hf_ttime)
    ∷ []

abbrev pub columns : Dict ℕ
columns = front_columns ++ back_columns

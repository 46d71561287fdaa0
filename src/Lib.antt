-- ===== src/Lib.antt =====
-- A verification development for vgo, a monitoring platform in Go: the collecting agent under
-- mecury, and the services under vgo.
--
-- The agent gathers measurements through its inputs. An input hands them to an accumulator, which
-- adds tags, filters and cleans the fields and sends a metric on a channel; the flusher takes it
-- off and puts it into the buffer of every output, and writes full buffers to the output's
-- plugin. The alarm service keeps groups of users and alerts, which a gRPC manager writes, and
-- handles reports that arrive over NATS: it counts them in a window and alarms the users. The
-- stream service publishes the metrics of its inputs to a ring buffer, from which a writer
-- computes them.
--
-- The files, and the code that they model:
--   Prelude         byte strings, Go maps as association lists, signed machine words
--   Alarm/State     vgo/alarm/service/alert.go, output.go: the data
--   Alarm/Process   vgo/alarm/service/process.go: `process`, one report; Refine and Window prove
--                   that it implements the abstract counter of Alarm/Counter, Recorded says what any
--                   report writes
--   Alarm/Manager   vgo/alarm/service/manager.go: AddGroup, AddUsers, AddAlerts; Held says what
--                   they leave, Levels what a report does, WellFormed and Reachable what holds after any
--                   sequence of them
--   Agent/Buffer    mecury/agent/buffer.go: the bounded channel
--   Agent/Output    mecury/agent/output.go and the flusher of agent.go
--   Agent/Filter    mecury/agent/filter.go and the filters of input.go
--   Agent/Accumulator  mecury/agent/accumulator.go
--   Agent/Json      mecury/agent/parser.go: FlattenJSON and the JSON parser; Paths says how the
--                   fields are named, Parsed what a metric is made of
--   Agent/Influx    mecury/agent/parser.go: the parser of the line protocol
--   Points/Escape   mecury/misc/points.go: the escapes of tags, measurements and string fields
--   Points/Scan     mecury/misc/points.go: scanTime and scanBoolean; Accepts says what they accept
--   Points/Number   mecury/misc/points.go: scanNumber, with ParseInt; ParseFloat is an argument
--   Points/Line, Key, Tags, Section  mecury/misc/points.go: scanLine, then scanKey with its scanners
--                   and its sort, then scanFields; Tags/Limit is about tags that need no escapes
--   Points/Parser   mecury/misc/points.go: parsePoint and ParsePointsWithPrecision
--   Points/TagMap   mecury/misc/points.go: MakeKey, HashKey and parseTags
--   Points/Fields   mecury/misc/points.go: Fields.MarshalBinary, newFieldsFromBinary and parseNumber;
--                   RoundTrip is about all fields, Values about one
--   Points/Build    mecury/misc/points.go: NewPoint, and the tags and fields of a point
--   Points/Time     mecury/misc/time.go and GetPrecisionMultiplier
--   Points/Binary   mecury/misc/points.go: MarshalBinary and UnmarshalBinary
--   Stream/Hosts    vgo/stream/service/host.go: the map from hosts to groups
--   Stream/Ring     vgo/stream/service/disruptor.go, writer.go: Publish and Consume; Mask is about
--                   the index, Queue about one call, Delivery about runs of calls
--   Input/Listener  mecury/plugins/input/tcp_listener/tcp_listener.go: the state of a listener and a round
--                   of each of its loops; Steps interleaves them, Counted is about the bounds, Delivery
--                   about where the lines go, Drain about the parser once `done` is closed
--   Input/Haproxy   mecury/plugins/input/haproxy/haproxy.go: importCsvResult; Columns has its columns,
--                   Sent follows a row through the accumulator
--   Input/Processes  mecury/plugins/input/system/processes.go: Gather, with gatherFromPS and, in Proc,
--                   gatherFromProc; Letters says which letter of ps counts in which field
--   Input/Mysql     mecury/plugins/input/mysql/mysql.go: Server is gatherServer, and Globals, Threads, Logs,
--                   Rows, Perf and Perf's children are its gatherers; Tables has the tables
--   Input/Redis     mecury/plugins/input/redis/redis.go: gatherInfoOutput and gatherKeyspaceLine; Reported is
--                   about when they return
--   Input/Text      functions of `strings`
--   Tests           beside each part: runs on concrete inputs, and the theorems at them
--
-- How state and operations correspond: a struct is a record, a method returns the new record, a
-- Go map is an association list in any order, a `time.Time` is a number of nanoseconds, a float64
-- its bit pattern. `none` stands for a run-time panic, an error or an operation that blocks for
-- ever, as each file says, or, in the parser of the line protocol, `panicked` stands for a panic. A
-- loop is a structural recursion, but for those of scanTags, scanFields, ParsePointsWithPrecision,
-- parseTags and newFieldsFromBinary, which skip several bytes at once: these have the length of the
-- text as fuel, and one or two more, which the modules called Ends are about. Itoa has a round for
-- each digit, and the number and one as fuel (Points/Fields/Integers). The glob library,
-- json.Unmarshal, the escape and FormatFloat of fields, the InfluxDB client, the sequences of
-- go-disruptor, ParseFloat, the binary form of times, the clock and the decoded messages are
-- arguments; so are, for the input plugins, the rows of the database and of the CSV reader, the output
-- of ps, the files of /proc, the lines of INFO, the parser of packets, and the type of floats.
-- Sequences of the ring are natural numbers below 2^63, where int64 does not wrap. The handlers of the
-- alarm service run one at a time: a write of the manager while a report is handled is not modelled.
-- The race of the listener's handlers for their count of drops is modelled: what a handler adds one to
-- may be any number. Patterns with brackets or braces have no law of the glob library, and float32
-- fields, which are read back as other float64s, are left out of the round trip.
--
-- Not modelled: the reading of TOML and JSON, NATS, gRPC and HTTP, the other plugins, the setters and
-- the printed forms of a point, the rest of the stream service, the center service, generated code
-- and the vendored libraries, to which mongo_stat.go and parse_dsn.go belong.
pub mod Points
pub mod Prelude
pub mod Agent
pub mod Alarm
pub mod Stream
pub mod Input

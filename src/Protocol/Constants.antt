-- ===== src/Protocol/Constants.antt =====
-- The request and response codes of internal/protocol/constants.go.
use go_dqlite.Prelude.{ℕ}

-- Request types.
abbrev pub request_leader : ℕ
request_leader = 0

abbrev pub request_client : ℕ
request_client = 1

abbrev pub request_heartbeat : ℕ
request_heartbeat = 2

abbrev pub request_open : ℕ
request_open = 3

abbrev pub request_prepare : ℕ
request_prepare = 4

abbrev pub request_exec : ℕ
request_exec = 5

abbrev pub request_query : ℕ
request_query = 6

abbrev pub request_finalize : ℕ
request_finalize = 7

abbrev pub request_exec_sql : ℕ
request_exec_sql = 8

abbrev pub request_query_sql : ℕ
request_query_sql = 9

abbrev pub request_interrupt : ℕ
request_interrupt = 10

abbrev pub request_add : ℕ
request_add = 12

abbrev pub request_assign : ℕ
request_assign = 13

abbrev pub request_remove : ℕ
request_remove = 14

abbrev pub request_dump : ℕ
request_dump = 15

abbrev pub request_cluster : ℕ
request_cluster = 16

abbrev pub request_transfer : ℕ
request_transfer = 17

abbrev pub request_describe : ℕ
request_describe = 18

abbrev pub request_weight : ℕ
request_weight = 19

-- Response types.
abbrev pub response_failure : ℕ
response_failure = 0

abbrev pub response_node : ℕ
response_node = 1

abbrev pub response_node_legacy : ℕ
response_node_legacy = 1

abbrev pub response_welcome : ℕ
response_welcome = 2

abbrev pub response_nodes : ℕ
response_nodes = 3

abbrev pub response_db : ℕ
response_db = 4

abbrev pub response_stmt : ℕ
response_stmt = 5

abbrev pub response_result : ℕ
response_result = 6

abbrev pub response_rows : ℕ
response_rows = 7

abbrev pub response_empty : ℕ
response_empty = 8

abbrev pub response_files : ℕ
response_files = 9

abbrev pub response_metadata : ℕ
response_metadata = 10

-- Protocol versions.
abbrev pub version_one : ℕ
version_one = 1

abbrev pub version_legacy : ℕ
version_legacy = 0x86104dd760433fe5

-- Formats of the Cluster and Describe requests.
abbrev pub cluster_format_v0 : ℕ
cluster_format_v0 = 0

abbrev pub cluster_format_v1 : ℕ
cluster_format_v1 = 1

abbrev pub request_describe_format_v0 : ℕ
request_describe_format_v0 = 0

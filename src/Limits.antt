-- ===== src/Limits.antt =====
-- limits.go: the hard maxima that the validation and the store read.
use policy_engine.Prelude.{ℕ, ◌*◌, ◌+◌}

abbrev pub max_identifier_bytes : ℕ
max_identifier_bytes = 1024

abbrev pub max_string_value_bytes : ℕ
max_string_value_bytes = 65536

abbrev pub max_namespace_bytes : ℕ
max_namespace_bytes = max_identifier_bytes

abbrev pub max_namespace_pattern_bytes : ℕ
max_namespace_pattern_bytes = max_identifier_bytes + 1

abbrev pub max_argument_items : ℕ
max_argument_items = 128

abbrev pub max_aggregate_input_bytes : ℕ
max_aggregate_input_bytes = 4 * 1048576

abbrev pub max_aggregate_output_bytes : ℕ
max_aggregate_output_bytes = 4 * 1048576

abbrev pub max_event_page_bytes : ℕ
max_event_page_bytes = 4 * 1048576

abbrev pub max_aggregate_work_items : ℕ
max_aggregate_work_items = 100000

abbrev pub max_page_request_items : ℕ
max_page_request_items = 1000

abbrev pub max_page_response_items : ℕ
max_page_response_items = 1000

abbrev pub max_event_page_items : ℕ
max_event_page_items = 1000

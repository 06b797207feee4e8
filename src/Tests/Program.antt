-- ===== src/Tests/Program.antt =====
-- Every definition of the model, to be unfolded by a test that runs it.
use flow_security_agent.Backends.{
  mock_call, mock_decide, mock_evaluate, mock_score, new_mock, new_tool, synthetic_execute,
  synthetic_output, tool_classes,
}
use flow_security_agent.Budget.{
  add_metrics, can_consume, consume, count_call, counter_is_full, fresh, reconcile_metrics,
}
use flow_security_agent.Contracts.Enums.{
  AgentAction-discrete, Capability-discrete, EvidenceSufficiency-discrete, EvidenceTrust-discrete,
  FailureCode-discrete, FinalDecisionType-discrete, GapDomain-discrete, GapType-discrete,
  RuntimePhase-discrete, ToolStatus-discrete, TraceEventType-discrete, UnknownState-discrete,
  action_value, capability_value, decision_value, gap_value, status_value, sufficiency_value,
  unknown_value,
}
use flow_security_agent.Contracts.Equality.{eq_dict, eq_items, eq_value, within_fields}
use flow_security_agent.Contracts.Evidence.{
  candidate_is_valid, domain_value, eq_item, fields_are_visible, fingerprint, is_observable_gap,
  is_visible, item_fields, item_is_valid, metrics_within_estimate, missing_is_valid,
  result_is_valid, status_is_valid, supporting_is_valid, trust_value, unknown_is_valid,
}
use flow_security_agent.Contracts.Experience.{
  class_memory_is_valid, experience_is_valid, feedback_is_valid, view_of_record,
}
use flow_security_agent.Contracts.Requests.{
  decision_is_valid, failed_result, request_is_valid, signature, tool_result_is_valid,
}
use flow_security_agent.Contracts.State.{is_available, to_supervisor_view}
use flow_security_agent.Contracts.Values.{get_field}
use flow_security_agent.Contracts.Visible.{
  check_fields, check_items, check_text, check_value, has_marker, is_prohibited_name,
}
use flow_security_agent.Contracts.Visible.Reading.{keys_in, texts_in}
use flow_security_agent.Contracts.Visible.Scan.{
  begins, contains, eq_codes, has_absolute_time, has_ipv4, matches, normalize, normalize_code,
  octets, prohibited_names, search_from, split_digits, time_pattern,
}
use flow_security_agent.Data.Grouping.{
  add_row, add_row_to_all, add_rows_to_all, add_to, build_key, count_label, count_labels,
  dominant_of, eq_group_key, evaluate_group_candidates, finalize_all, finalize_group, get_group,
  greater, grow_group, maximum_of, open_group, put_group, report_of, reports_of, start_all,
  when_any,
}
use flow_security_agent.Data.Grouping.Gaps.{
  add_gap, add_gap_to_all, add_gaps, collect_gap_profiles, count_gap, gap_report, gap_reports,
  get_previous, put_previous, start_profiles, violations_from,
}
use flow_security_agent.Data.Matching.{
  add_day, add_days, add_event, add_events, append_event, candidate_events, direct_key, eq_key,
  eq_optional, flow_key, get_bucket, goes_direct, goes_reverse, is_open, is_port, match_flow,
  match_many, match_result, matches_of, new_index, put_candidate, put_candidates, reverse_key,
  rule_of, utc_day,
}
use flow_security_agent.Data.Matching.Buckets.{at_ends, in_bucket, in_days}
use flow_security_agent.Data.Matching.Candidates.{is_candidate}
use flow_security_agent.Evaluation.{
  action_of, bump, count_of, count_open, decisions_of, distribution_from, events_of, failures_of,
  histogram_from, sum, summarize,
}
use flow_security_agent.Knowledge.{
  add_tail, chunk_texts, flush, has_text, is_break, is_heading, join, joined, parts_from, pieces,
  push_char, split_all, split_first, split_lines, split_long_unit, split_units, texts_from,
  units_from,
}
use flow_security_agent.Llm.Backends.{
  drop_field, executor, expert_estimate, expert_evaluate, expert_request, new_request, next_audit,
  output_of, run_call, run_estimate, set_decision_metrics, set_result_metrics, supervisor_decide,
  supervisor_estimate, supervisor_request, with_role,
}
use flow_security_agent.Llm.Contracts.{
  LlmFailureKind-discrete, add_metrics as add_metrics_1, begins_with_system, content_is_valid,
  holds_secret, is_given, is_instruction, is_retryable, is_system, is_untrusted, message_is_valid,
  messages_are_valid, or_zero, scale_metrics, to_metrics, total_suffices, usage_is_valid,
}
use flow_security_agent.Llm.Executor.{
  as_refusal, attempts_from, call, estimate_call, failure_metrics, identity_is_valid, is_free,
  judge, metrics_within, read_parsed, record_of, safe_transport_estimate,
}
use flow_security_agent.Llm.Executor.Accounts.{sends}
use flow_security_agent.Llm.Fake.{
  answer_of, fake_estimate, fake_send, metrics_sent, new_fake, take_event,
}
use flow_security_agent.Llm.Parsing.{
  audit_of, drop_closing, drop_json, drop_opening, expert_parse, expert_result, extract_decoded,
  extract_payload, extract_text, fenced, finish_payload, is_fence, is_repair, is_truncated, lower,
  requested, scan, single_object, supervisor_decision, supervisor_parse,
}
use flow_security_agent.Llm.Secrets.{
  entries_in, field_entries, fields_have_secret, has_secret_field, is_sensitive, item_entries,
  items_have_secret, redact_fields, redact_items, redact_mapping, sensitive_names,
}
use flow_security_agent.Memory.{
  add, add_class, casefold, count_common, distinct, fold_code, get_class, has_experience, has_term,
  haystack, insert, load_classes, precedes, preload, put_class, retrieve, scored_from, sort,
  terms_of,
}
use flow_security_agent.Orchestrator.Acquire.{
  absorb, acquire, advance, breaks_rag_domain, by_status, call_tool, execute, is_rag,
  note_tool_failure, record_call, reserve_tool, switch_off,
}
use flow_security_agent.Orchestrator.Checks.{
  asks_future, check_capability, check_evidence, check_terminal, contains_action, contains_domain,
  contains_text, future_markers, get_normalized, is_falsy, is_refused, is_true, lookup_signatures,
  matching_gaps, request_parameters_are_safe, validate_decision,
}
use flow_security_agent.Orchestrator.Context.{emit, fail}
use flow_security_agent.Orchestrator.Create.{
  create, create_checked, every_action, every_domain, has_capability, has_repeats,
  parameters_are_valid, signatures_of,
}
use flow_security_agent.Orchestrator.Evaluate.{evaluate, evaluate_reserved, score_unknown}
use flow_security_agent.Orchestrator.Finish.{
  choose, experience_of, final_decision, finish, finish_without_state, halt, outcome_text, reject,
  result_of, safety_stop, store, writable_feedback, write_experience,
}
use flow_security_agent.Orchestrator.Flow.{caught, reconcile, reserve}
use flow_security_agent.Orchestrator.Merge.{additions, find_id, has_fingerprint, merge_evidence}
use flow_security_agent.Orchestrator.Run.{
  act, caught_records, iterate, loop, retrieve_experiences, run, start, start_evaluated,
  verified_records, with_memory,
}
use flow_security_agent.Orchestrator.Summaries.{
  action_reason, action_summary, experience_ids, expert_summary, final_label_summary, final_summary,
  metrics_dump, scorer_summary, sorted_capabilities, supervisor_summary, tool_summary,
}
use flow_security_agent.Orchestrator.Supervise.{
  accept_decision, ask_decision, ask_supervisor, check_decision,
}
use flow_security_agent.Policies.{
  at_gap, decide, decision, default_gap_actions, estimate, first_proposal, gap_action, new_policy,
  parameters_of, propose, terminal_action,
}
use flow_security_agent.Prelude.Chars.{lstrip, rstrip, strip}
use flow_security_agent.Prelude.Order.{text_lt}
use flow_security_agent.Prelude.Sorting.{insert_by, sort_by}
use flow_security_agent.Prelude.Text.{push_word, show_nat, split, split_lead}
use flow_security_agent.Runner.{
  accepted, calls_of, entry_of, eq_identity, failures_in, has_repeated_id, hit_of, identity_of,
  is_about, load, outcome_of, path_for, read_entry, read_file, run_each, run_one, run_requests,
  save, success_of, successes_of, try_from, write_file,
}
use flow_security_agent.Runner.Shards.{bucket, select_shard}
use flow_security_agent.Variants.{
  basic_budget, full_variant, terminals, variant_config, variant_is_valid,
}

unfoldable pub program : Unit {0}
unfolding mock_call mock_decide mock_evaluate mock_score new_mock new_tool synthetic_execute
    synthetic_output tool_classes add_metrics can_consume consume count_call counter_is_full fresh
    reconcile_metrics AgentAction-discrete Capability-discrete EvidenceSufficiency-discrete
    EvidenceTrust-discrete FailureCode-discrete FinalDecisionType-discrete GapDomain-discrete
    GapType-discrete RuntimePhase-discrete ToolStatus-discrete TraceEventType-discrete
    UnknownState-discrete action_value capability_value decision_value gap_value status_value
    sufficiency_value unknown_value eq_dict eq_items eq_value within_fields candidate_is_valid
    domain_value eq_item fields_are_visible fingerprint is_observable_gap is_visible item_fields
    item_is_valid metrics_within_estimate missing_is_valid result_is_valid status_is_valid
    supporting_is_valid trust_value unknown_is_valid class_memory_is_valid experience_is_valid
    feedback_is_valid view_of_record decision_is_valid failed_result request_is_valid signature
    tool_result_is_valid is_available to_supervisor_view get_field check_fields check_items
    check_text check_value has_marker is_prohibited_name keys_in texts_in begins contains eq_codes
    has_absolute_time has_ipv4 matches normalize normalize_code octets prohibited_names search_from
    split_digits time_pattern add_row add_row_to_all add_rows_to_all add_to build_key count_label
    count_labels dominant_of eq_group_key evaluate_group_candidates finalize_all finalize_group
    get_group greater grow_group maximum_of open_group put_group report_of reports_of start_all
    when_any add_gap add_gap_to_all add_gaps collect_gap_profiles count_gap gap_report gap_reports
    get_previous put_previous start_profiles violations_from add_day add_days add_event add_events
    append_event candidate_events direct_key eq_key eq_optional flow_key get_bucket goes_direct
    goes_reverse is_open is_port match_flow match_many match_result matches_of new_index
    put_candidate put_candidates reverse_key rule_of utc_day at_ends in_bucket in_days is_candidate
    action_of bump count_of count_open decisions_of distribution_from events_of failures_of
    histogram_from sum summarize add_tail chunk_texts flush has_text is_break is_heading join joined
    parts_from pieces push_char split_all split_first split_lines split_long_unit split_units
    texts_from units_from drop_field executor expert_estimate expert_evaluate expert_request
    new_request next_audit output_of run_call run_estimate set_decision_metrics set_result_metrics
    supervisor_decide supervisor_estimate supervisor_request with_role LlmFailureKind-discrete
    add_metrics_1 begins_with_system content_is_valid holds_secret is_given is_instruction
    is_retryable is_system is_untrusted message_is_valid messages_are_valid or_zero scale_metrics
    to_metrics total_suffices usage_is_valid as_refusal attempts_from call estimate_call
    failure_metrics identity_is_valid is_free judge metrics_within read_parsed record_of
    safe_transport_estimate sends answer_of fake_estimate fake_send metrics_sent new_fake take_event
    audit_of drop_closing drop_json drop_opening expert_parse expert_result extract_decoded
    extract_payload extract_text fenced finish_payload is_fence is_repair is_truncated lower
    requested scan single_object supervisor_decision supervisor_parse entries_in field_entries
    fields_have_secret has_secret_field is_sensitive item_entries items_have_secret redact_fields
    redact_items redact_mapping sensitive_names add add_class casefold count_common distinct
    fold_code get_class has_experience has_term haystack insert load_classes precedes preload
    put_class retrieve scored_from sort terms_of absorb acquire advance breaks_rag_domain by_status
    call_tool execute is_rag note_tool_failure record_call reserve_tool switch_off asks_future
    check_capability check_evidence check_terminal contains_action contains_domain contains_text
    future_markers get_normalized is_falsy is_refused is_true lookup_signatures matching_gaps
    request_parameters_are_safe validate_decision emit fail create create_checked every_action
    every_domain has_capability has_repeats parameters_are_valid signatures_of evaluate
    evaluate_reserved score_unknown choose experience_of final_decision finish finish_without_state
    halt outcome_text reject result_of safety_stop store writable_feedback write_experience caught
    reconcile reserve additions find_id has_fingerprint merge_evidence act caught_records iterate
    loop retrieve_experiences run start start_evaluated verified_records with_memory action_reason
    action_summary experience_ids expert_summary final_label_summary final_summary metrics_dump
    scorer_summary sorted_capabilities supervisor_summary tool_summary accept_decision ask_decision
    ask_supervisor check_decision at_gap decide decision default_gap_actions estimate first_proposal
    gap_action new_policy parameters_of propose terminal_action lstrip rstrip strip text_lt
    insert_by sort_by push_word show_nat split split_lead accepted calls_of entry_of eq_identity
    failures_in has_repeated_id hit_of identity_of is_about load outcome_of path_for read_entry
    read_file run_each run_one run_requests save success_of successes_of try_from write_file bucket
    select_shard basic_budget full_variant terminals variant_config variant_is_valid
program = tt

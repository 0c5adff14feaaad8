-- ===== src/Gatus/Tests.antt =====
-- alert.go at concrete alerts and texts.
use gatus_qqbot.Base.{[], none, ◌≡◌, inl, refl}
use gatus_qqbot.Errors.{join_errors}
use gatus_qqbot.Gatus.{
  Alert, validate, all_valid, log_value, one_line, multi_line, with_prefix, truncate, format_lines,
  format, text_metadata, metadata_of, state_of, endpoint_of, endpoint_or, unbracket, unbracket_end,
}
use gatus_qqbot.Gatus.RoundTrip.{text_metadata-format}
use gatus_qqbot.Strings.{
  codes, valid_string, text_eq, is_empty, is_space, trim_left, trim_right, trim_space, fields,
  starts_word, extend_word, join, replace_all, replace_from, has_prefix, split, cons_first, cut,
  cons_before, to_upper, equal_fold,
}

abbrev sample : Alert
sample = record {
  state = codes " TRIGGERED";
  endpoint_name = codes "web\nsite ";
  endpoint_group = codes "prod";
  endpoint_url = [];
  description = codes "down\r\nEndpoint: forged";
  errors = codes "503";
}

sample-format :
    format sample (codes "[Gatus]") 0
    ≡ codes
        "[Gatus]\nTRIGGERED\nEndpoint: prod / web site\nDescription: down\nEndpoint: forged\nErrors: 503"
unfolding format format_lines with_prefix truncate one_line multi_line log_value trim_space
    trim_left trim_right is_space is_empty fields starts_word extend_word join replace_all
    replace_from has_prefix
sample-format = refl

sample_truncated : format sample [] 12 ≡ codes "TRIGGERED..."
unfolding format format_lines with_prefix truncate one_line multi_line log_value trim_space
    trim_left trim_right is_space is_empty fields starts_word extend_word join replace_all
    replace_from has_prefix
sample_truncated = refl

bracketed : text_metadata (codes "[resolved]\nendpoint : a  b\n") ≡ (codes "a b", codes "RESOLVED")
unfolding text_metadata metadata_of state_of endpoint_of endpoint_or unbracket unbracket_end
    one_line multi_line trim_space trim_left trim_right is_space is_empty fields starts_word
    extend_word join replace_all replace_from has_prefix split cons_first cut cons_before to_upper
    equal_fold text_eq
bracketed = refl

not_a_state : text_metadata (codes "hello\nEndpoint: a") ≡ ([], [])
unfolding text_metadata metadata_of state_of unbracket unbracket_end multi_line trim_space trim_left
    trim_right is_space is_empty replace_all replace_from has_prefix split cons_first to_upper
    text_eq
not_a_state = refl

sample_valid : validate sample ≡ none
unfolding validate all_valid valid_string trim_space trim_left trim_right is_space is_empty
    join_errors
sample_valid = refl

text_metadata-format_example :
    text_metadata (format sample [] 0) ≡ (one_line (log_value sample), one_line sample.state)
unfolding one_line fields starts_word extend_word is_space join
text_metadata-format_example = text_metadata-format sample sample_valid (inl refl)

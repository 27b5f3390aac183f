-- ===== src/Summary/Tests.antt =====
-- A dictionary of one file of 5 bytes. The texts stand for their bytes, and `lower` changes nothing.
use lif.Common.{false, [], ◌∷◌, ◌++◌, Bytes, ascii, replicate, none, ok, pos, bytes_eq, ◌≡◌, refl}
use lif.Bencode.Values.{Text, Value, int, bytes, dict, no_entries, entry, bytes_key, get}
use lif.Summary.{
  has_other, plain_size, equals_one, total, join_by, decode_text, decode_utf8_name, single_file,
  read_files, read_file_entries, build_search_text, new_metadata, summarize_named,
  summarize_info_dict,
}
use lif.Summary.Sound.{SummaryOutcome, summarize_info_dict-Outcome}

abbrev as_text : Bytes → Text
as_text b = b

abbrev hash : Bytes
hash = replicate 20 1

abbrev info : Value
info = dict (
    entry (bytes_key (ascii "length")) (int (pos 5)) (
      entry (bytes_key (ascii "name")) (bytes (ascii "a.txt"))
        (entry (bytes_key (ascii "piece length")) (int (pos 16384)) no_entries)))

abbrev file : Text
file = ascii "a.txt"

summarized_one :
    summarize_info_dict as_text as_text hash info 7 none
    ≡ ok (record {
      info_hash = hash;
      name = file;
      total_size = 5;
      piece_length = 16384;
      file_count = 1;
      files = record { path = file; size = 5 } ∷ [];
      is_private = false;
      fetched_at = 7;
      source_peer = none;
      search_text = file ++ 10 ∷ file;
    })
unfolding summarize_info_dict summarize_named decode_utf8_name decode_text get bytes_eq plain_size
    read_file_entries read_files single_file new_metadata build_search_text join_by equals_one total
summarized_one = refl

summarize_info_dict-Outcome_example :
    SummaryOutcome as_text as_text hash info (summarize_info_dict as_text as_text hash info 7 none)
unfolding has_other
summarize_info_dict-Outcome_example =
    summarize_info_dict-Outcome as_text as_text hash info 7 none refl refl

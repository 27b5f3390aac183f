-- ===== src/Summary.antt =====
-- dht_scraper/torrent_info_summary.py: the metadata record that is kept of a torrent's info dictionary.
-- bytes.decode("utf-8", errors="replace") and str.lower are parameters.
pub mod Sound
mod Tests
use lif.Common.{
  ℕ, suc, ◌+◌, min, List, [], ◌∷◌, ◌++◌, map, Bool, true, false, not, ◌&&◌, ◌||◌, Option, none,
  some, Bytes, ascii, ltb, leb, ◌==◌, length, take, pos, Result, ok, err, ◌>>◌, ◌>>=◌, guard,
  if◌then◌else◌,
}
use lif.Bencode.Values.{
  Error, value_error, assertion_error, Text, Value, null, bool, int, bytes, text, list, dict, Items,
  no_items, item, Entries, no_entries, entry, other, get,
}
use lif.PeerWire.Messages.{node_id_length}

abbrev pub max_listed_files : ℕ
max_listed_files = 200

pub record TorrentFile : Type 0 where
  pub path : Text
  pub size : ℕ

pub record TorrentMetadata : Type 0 where
  pub info_hash : Bytes
  pub name : Text
  pub total_size : ℕ
  pub piece_length : ℕ
  pub file_count : ℕ
  pub files : List TorrentFile
  pub is_private : Bool
  pub fetched_at : ℕ
  pub source_peer : Option (Bytes × ℕ)
  pub search_text : Text

-- The number of a value that is_plain_int accepts and that is not negative.
unfoldable pub plain_size : Option Value → Option ℕ
plain_size (some (int (pos n))) = some n
plain_size _ = none

-- bool(value), of a value that a dict may hold
unfoldable pub is_truthy : Option Value → Bool
is_truthy none = false
is_truthy (some null) = false
is_truthy (some (bool b)) = b
is_truthy (some (int (pos n))) = not (n == 0)
is_truthy (some (bytes b)) = ltb 0 (length b)
is_truthy (some (text t)) = ltb 0 (length t)
is_truthy (some (list no_items)) = false
is_truthy (some (dict no_entries)) = false
is_truthy _ = true

-- info.get(b"private") == 1
unfoldable pub equals_one : Option Value → Bool
equals_one (some (int (pos n))) = n == 1
equals_one (some (bool b)) = b
equals_one _ = false

-- "/".join(parts), and "\n".join(parts)
unfoldable pub join_by : ℕ → List Text → Text
join_by separator [] = []
join_by separator (t ∷ []) = t
join_by separator (t ∷ u ∷ ts) = t ++ separator ∷ join_by separator (u ∷ ts)

unfoldable pub total : List TorrentFile → ℕ
total [] = 0
total (f ∷ files) = f.size + total files

-- Is an object of a further type (`other`) in the value? None is in what `decode_bencode` returns, and
-- `decode_text` asserts that its value is none.
unfoldable mutual
  pub has_other : Value → Bool
  has_other (list xs) = items_have_other xs
  has_other (dict es) = entries_have_other es
  has_other other = true
  has_other null = false
  has_other (bool b) = false
  has_other (int n) = false
  has_other (bytes b) = false
  has_other (text t) = false

  pub items_have_other : Items → Bool
  items_have_other no_items = false
  items_have_other (item v xs) = has_other v || items_have_other xs

  pub entries_have_other : Entries → Bool
  entries_have_other no_entries = false
  entries_have_other (entry k v es) = has_other v || entries_have_other es

module _ (decode_replace : Bytes → Text) where
  unfoldable pub decode_text : Option Value → Text
  decode_text (some (bytes b)) = decode_replace b
  decode_text (some (text t)) = t
  decode_text _ = []

  abbrev pub or_text : Text → Text → Text
  or_text [] other_text = other_text
  or_text (c ∷ t) other_text = c ∷ t

  unfoldable pub decode_utf8_name : Entries → Text
  decode_utf8_name info =
      or_text (decode_text (get (ascii "name.utf-8") info)) (decode_text (get (ascii "name") info))

  unfoldable pub decode_parts : Items → List Text
  decode_parts no_items = []
  decode_parts (item v parts) = decode_text (some v) ∷ decode_parts parts

  abbrev pub path_parts : Entries → Option Value
  path_parts es =
      if is_truthy (get (ascii "path.utf-8") es)
      then get (ascii "path.utf-8") es
      else get (ascii "path") es

  unfoldable pub make_entry : Option ℕ → Option Value → Result Error TorrentFile
  make_entry (some size) (some (list parts)) =
      ok (record { path = join_by 47 (decode_parts parts); size = size })
  make_entry _ _ = err value_error

  unfoldable pub read_entry : Value → Result Error TorrentFile
  unfolding make_entry
  read_entry (dict es) = make_entry (plain_size (get (ascii "length") es)) (path_parts es)
  read_entry _ = err value_error

  -- The entries of `files`, in order.
  unfoldable pub read_entries : Items → Result Error (List TorrentFile)
  unfolding read_entry
  read_entries no_items = ok []
  read_entries (item v files) = do file ← read_entry v; rest ← read_entries files; ok (file ∷ rest)

  unfoldable pub single_file : Text → Option ℕ → Result Error (List TorrentFile)
  single_file name none = err value_error
  single_file name (some size) = ok (record { path = name; size = size } ∷ [])

  unfoldable pub read_files : Option Value → Entries → Text → Result Error (List TorrentFile)
  unfolding single_file read_entries plain_size
  read_files none info name = single_file name (plain_size (get (ascii "length") info))
  read_files (some null) info name = single_file name (plain_size (get (ascii "length") info))
  read_files (some (list no_items)) info name = err value_error
  read_files (some (list (item v files))) info name = read_entries (item v files)
  read_files (some _) info name = err value_error

  unfoldable pub read_file_entries : Entries → Text → Result Error (List TorrentFile)
  read_file_entries info name = read_files (get (ascii "files") info) info name

  module _ (lower : Text → Text) where
    unfoldable pub build_search_text : Text → List TorrentFile → Text
    build_search_text name files = lower (name ++ 10 ∷ join_by 10 (map (λ f. f.path) files))

    -- TorrentMetadata(...), with the assertions of its constructor.
    unfoldable pub new_metadata :
        Bytes
        → Text
        → ℕ
        → List TorrentFile
        → Bool
        → ℕ
        → Option (Bytes × ℕ)
        → Result Error TorrentMetadata
    new_metadata info_hash name piece_length entries is_private fetched_at source_peer =
        let files = take max_listed_files entries in
        if (length info_hash == node_id_length)
          && ltb 0 piece_length
          && leb 1 (length entries)
          && leb 1 (length files)
          && leb (length files) (min (length entries) max_listed_files)
        then ok (record {
          info_hash = info_hash;
          name = name;
          total_size = total entries;
          piece_length = piece_length;
          file_count = length entries;
          files = files;
          is_private = is_private;
          fetched_at = fetched_at;
          source_peer = source_peer;
          search_text = build_search_text name files;
        })
        else err assertion_error

    unfoldable pub summarize_named :
        Bytes → Entries → ℕ → Option (Bytes × ℕ) → Text → Option ℕ → Result Error TorrentMetadata
    summarize_named info_hash info fetched_at source_peer name none = err value_error
    summarize_named info_hash info fetched_at source_peer name (some piece_length) = do
      guard (ltb 0 (length name) && ltb 0 piece_length) value_error
      entries ← read_file_entries info name
      new_metadata info_hash name piece_length entries (equals_one (get (ascii "private") info))
          fetched_at source_peer

    unfoldable pub summarize_info_dict :
        Bytes → Value → ℕ → Option (Bytes × ℕ) → Result Error TorrentMetadata
    summarize_info_dict info_hash (dict info) fetched_at source_peer =
        summarize_named info_hash info fetched_at source_peer (decode_utf8_name info)
          (plain_size (get (ascii "piece length") info))
    summarize_info_dict info_hash _ fetched_at source_peer = err value_error

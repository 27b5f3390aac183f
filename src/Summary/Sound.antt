-- ===== src/Summary/Sound.antt =====
-- How `summarize_info_dict` of dht_scraper/torrent_info_summary.py ends.
use lif.Common.{
  ℕ, ◌≤◌, ◌<◌, min, List, [], ◌∷◌, Bool, true, false, ◌&&◌, Option, none, some, Bytes, ascii, ltb,
  leb, ◌==◌, ==_iff, length, take, Result, ok, err, ◌>>=◌, Bool-cases, inl, inr, ◌≡◌, refl, arith,
  length-take, le→leb, lt→ltb,
}
use lif.Bencode.Values.{
  Error, value_error, Text, Value, null, bool, int, bytes, text, list, dict, other, Items, no_items,
  item, Entries, get,
}
use lif.PeerWire.Messages.{node_id_length}
use lif.Summary.{
  max_listed_files, TorrentFile, TorrentMetadata, plain_size, equals_one, total, path_parts,
  make_entry, read_entry, read_entries, single_file, read_files, read_file_entries, new_metadata,
  has_other, summarize_named, summarize_info_dict, decode_utf8_name,
}

all_five :
    (a b c d e : Bool)
    → a ≡ true
    → b ≡ true
    → c ≡ true
    → d ≡ true
    → e ≡ true
    → (a && b && c && d && e) ≡ true
all_five a b c d e p q r s t = rw (p, q, r, s, t) refl

module _ (decode_replace : Bytes → Text) where
  -- ValueError, or at least one entry.
  pub data FilesOutcome : Result Error (List TorrentFile) → Type 0 where
    refused : FilesOutcome (err value_error)
    listed : (f : TorrentFile) (files : List TorrentFile) → FilesOutcome (ok (f ∷ files))

  make_entry_error :
      (s : Option ℕ) (v : Option Value) (e : Error)
      → make_entry decode_replace s v ≡ err e
      → e ≡ value_error
  unfolding make_entry
  make_entry_error none none e h = cc
  make_entry_error none (some v) e h = cc
  make_entry_error (some n) none e h = cc
  make_entry_error (some n) (some null) e h = cc
  make_entry_error (some n) (some (bool b)) e h = cc
  make_entry_error (some n) (some (int z)) e h = cc
  make_entry_error (some n) (some (bytes b)) e h = cc
  make_entry_error (some n) (some (text t)) e h = cc
  make_entry_error (some n) (some (list xs)) e h = absurd (cc h)
  make_entry_error (some n) (some (dict es)) e h = cc
  make_entry_error (some n) (some other) e h = cc

  read_entry_error : (v : Value) (e : Error) → read_entry decode_replace v ≡ err e → e ≡ value_error
  unfolding read_entry
  read_entry_error (dict es) e h =
      make_entry_error (plain_size (get (ascii "length") es)) (path_parts decode_replace es) e h
  read_entry_error null e h = cc
  read_entry_error (bool b) e h = cc
  read_entry_error (int z) e h = cc
  read_entry_error (bytes b) e h = cc
  read_entry_error (text t) e h = cc
  read_entry_error (list xs) e h = cc
  read_entry_error other e h = cc

  -- Every entry is read, or the first bad one refuses the whole.
  data AllRead : Items → Result Error (List TorrentFile) → Type 0 where
    bad : {xs : Items} → AllRead xs (err value_error)
    end : AllRead no_items (ok [])
    more :
        {v : Value} {xs : Items} (f : TorrentFile) (files : List TorrentFile)
        → AllRead (item v xs) (ok (f ∷ files))

  read_entries-AllRead : (xs : Items) → AllRead xs (read_entries decode_replace xs)
  unfolding read_entries
  read_entries-AllRead no_items = end
  read_entries-AllRead (item v xs) = go (read_entry decode_replace v) refl (read_entries-AllRead xs)
    where
      go :
          (r : Result Error TorrentFile)
          → read_entry decode_replace v ≡ r
          → AllRead xs (read_entries decode_replace xs)
          → AllRead
              (item v xs)
              (r >>= λ entry. read_entries decode_replace xs >>= λ rest. ok (entry ∷ rest))
      go (err e) h a = rw (read_entry_error v e h) bad
      go (ok f) h a = tail f xs (read_entries decode_replace xs) a
        where
          tail :
              (f : TorrentFile) (ys : Items) (r : Result Error (List TorrentFile))
              → AllRead ys r
              → AllRead (item v ys) (r >>= λ rest. ok (f ∷ rest))
          tail f ys _ bad = bad
          tail f _ _ end = more f []
          tail f _ _ (more g files) = more f (g ∷ files)

  single_file-Outcome :
      (name : Text) (s : Option ℕ) → FilesOutcome (single_file decode_replace name s)
  unfolding single_file
  single_file-Outcome name none = refused
  single_file-Outcome name (some n) = listed _ []

  listed-Outcome :
      (v : Value) (xs : Items) (r : Result Error (List TorrentFile))
      → AllRead (item v xs) r
      → FilesOutcome r
  listed-Outcome v xs _ bad = refused
  listed-Outcome v xs _ (more f files) = listed f files

  read_files-Outcome :
      (v : Option Value) (info : Entries) (name : Text)
      → FilesOutcome (read_files decode_replace v info name)
  unfolding read_files
  read_files-Outcome none info name =
      single_file-Outcome name (plain_size (get (ascii "length") info))
  read_files-Outcome (some null) info name =
      single_file-Outcome name (plain_size (get (ascii "length") info))
  read_files-Outcome (some (list no_items)) info name = refused
  read_files-Outcome (some (list (item v xs))) info name =
      listed-Outcome v xs (read_entries decode_replace (item v xs))
        (read_entries-AllRead (item v xs))
  read_files-Outcome (some (bool b)) info name = refused
  read_files-Outcome (some (int z)) info name = refused
  read_files-Outcome (some (bytes b)) info name = refused
  read_files-Outcome (some (text t)) info name = refused
  read_files-Outcome (some (dict es)) info name = refused
  read_files-Outcome (some other) info name = refused

  -- The record says what the dictionary `info` says, of which `entries` are the files.
  pub record Describes (info : Entries) (entries : List TorrentFile) (m : TorrentMetadata)
      : Type 0 where
    pub read : read_file_entries decode_replace info m.name ≡ ok entries
    pub name : m.name ≡ decode_utf8_name decode_replace info
    pub named : 0 < length m.name
    pub piece_length : plain_size (get (ascii "piece length") info) ≡ some m.piece_length
    pub pieces : 0 < m.piece_length
    pub file_count : m.file_count ≡ length entries
    pub some_files : 1 ≤ m.file_count
    pub total_size : m.total_size ≡ total entries
    pub files : m.files ≡ take max_listed_files entries
    pub is_private : m.is_private ≡ equals_one (get (ascii "private") info)

  module _ (lower : Text → Text) where
    -- A summary is refused with ValueError, or describes the dictionary that was given.
    pub data SummaryOutcome (info_hash : Bytes)
        : Value → Result Error TorrentMetadata → Type 0 where
      not_summarized : {v : Value} → SummaryOutcome info_hash v (err value_error)
      summarized :
          {info : Entries} (entries : List TorrentFile) (m : TorrentMetadata)
          → m.info_hash ≡ info_hash
          → Describes info entries m
          → SummaryOutcome info_hash (dict info) (ok m)

    with_entries :
        (info_hash : Bytes) (info : Entries) (fetched_at : ℕ) (source_peer : Option (Bytes × ℕ))
        (piece_length : ℕ)
        → length info_hash ≡ node_id_length
        → plain_size (get (ascii "piece length") info) ≡ some piece_length
        → 0 < piece_length
        → 0 < length (decode_utf8_name decode_replace info)
        → (r : Result Error (List TorrentFile))
        → read_file_entries decode_replace info (decode_utf8_name decode_replace info) ≡ r
        → FilesOutcome r
        → SummaryOutcome info_hash (dict info) (
            r >>= λ entries.
            new_metadata decode_replace lower info_hash
              (decode_utf8_name decode_replace info)
              piece_length
              entries
              (equals_one (get (ascii "private") info))
              fetched_at
              source_peer)
    unfolding new_metadata
    with_entries info_hash info fetched_at source_peer piece_length h p q n _ e refused =
        not_summarized
    with_entries info_hash info fetched_at source_peer piece_length h p q n _ e (listed f files) =
        let few = length-take max_listed_files (f ∷ files) in
        let listed_files : ℕ = length (take max_listed_files (f ∷ files)) in
        let entries : ℕ = length (f ∷ files) in
        let holds =
          all_five (length info_hash == node_id_length) (ltb 0 piece_length) (leb 1 entries)
            (leb 1 listed_files) (leb listed_files (min entries max_listed_files))
            ((==_iff (length info_hash) node_id_length).1 h) (lt→ltb 0 piece_length q)
            (le→leb 1 entries (omega arith)) (le→leb 1 listed_files (omega (arith, few)))
            (le→leb listed_files (min entries max_listed_files) (omega (arith, few))) in
        rw holds (
          summarized (f ∷ files) _ refl (record {
            read = e;
            name = refl;
            named = n;
            piece_length = p;
            pieces = q;
            file_count = refl;
            some_files = omega arith;
            total_size = refl;
            files = refl;
            is_private = refl;
          }))

    with_name :
        (info_hash : Bytes) (info : Entries) (fetched_at : ℕ) (source_peer : Option (Bytes × ℕ))
        (o : Option ℕ)
        → length info_hash ≡ node_id_length
        → plain_size (get (ascii "piece length") info) ≡ o
        → SummaryOutcome info_hash (dict info) (
            summarize_named decode_replace lower info_hash info fetched_at source_peer
              (decode_utf8_name decode_replace info)
              o)
    unfolding summarize_named read_file_entries
    with_name info_hash info fetched_at source_peer none h e = not_summarized
    with_name info_hash info fetched_at source_peer (some piece_length) h e =
        let name = decode_utf8_name decode_replace info in
        elim (Bool-cases (ltb 0 (length name) && ltb 0 piece_length)) [
          | inl b ↦ rw b (
              with_entries info_hash info fetched_at source_peer piece_length h e (ground arith)
                (ground arith) (read_file_entries decode_replace info name) refl
                (read_files-Outcome (get (ascii "files") info) info name))
          | inr b ↦ rw b not_summarized
        ]

    -- For a 20-byte hash, whatever value without objects of further types is given as the info dictionary: it is refused with ValueError, or the
    -- record describes it: its name is not empty, its piece length is above 0, its file count and total size
    -- are those of all entries, one at least, and its files are the first 200 of them.
    pub summarize_info_dict-Outcome :
        (info_hash : Bytes) (v : Value) (fetched_at : ℕ) (source_peer : Option (Bytes × ℕ))
        → length info_hash ≡ node_id_length
        → has_other v ≡ false
        → SummaryOutcome info_hash v
            (summarize_info_dict decode_replace lower info_hash v fetched_at source_peer)
    unfolding summarize_info_dict has_other
    summarize_info_dict-Outcome info_hash (dict info) fetched_at source_peer h n =
        with_name info_hash info fetched_at source_peer
          (plain_size (get (ascii "piece length") info)) h refl
    summarize_info_dict-Outcome info_hash null fetched_at source_peer h n = not_summarized
    summarize_info_dict-Outcome info_hash (bool b) fetched_at source_peer h n = not_summarized
    summarize_info_dict-Outcome info_hash (int z) fetched_at source_peer h n = not_summarized
    summarize_info_dict-Outcome info_hash (bytes b) fetched_at source_peer h n = not_summarized
    summarize_info_dict-Outcome info_hash (text t) fetched_at source_peer h n = not_summarized
    summarize_info_dict-Outcome info_hash (list xs) fetched_at source_peer h n = not_summarized
    summarize_info_dict-Outcome info_hash other fetched_at source_peer h n = absurd (cc n)

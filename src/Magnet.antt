-- ===== src/Magnet.antt =====
-- dht_scraper/magnet_link.py: the magnet link of a torrent. urllib.parse.quote with safe="" is a parameter.
use lif.Common.{
  ℕ, ◌+◌, ◌/◌, ◌%◌, List, [], ◌∷◌, ◌++◌, Bytes, ascii, ltb, ◌==◌, length, if◌then◌else◌, Result, ok,
  err,
}
use lif.Bencode.Values.{Error, assertion_error, Text}
use lif.PeerWire.Messages.{node_id_length}

abbrev pub magnet_prefix : Text
magnet_prefix = ascii "magnet:?xt=urn:btih:"

abbrev pub magnet_trackers : List Text
magnet_trackers =
    ascii "udp://93.158.213.92:1337/announce"
    ∷ ascii "udp://151.242.104.187:80/announce"
    ∷ ascii "udp://91.216.110.53:451/announce"
    ∷ ascii "udp://185.121.168.96:1337/announce"
    ∷ ascii "udp://43.250.54.126:6969/announce"
    ∷ ascii "udp://34.66.57.33:80/announce"
    ∷ ascii "udp://34.66.57.33:1337/announce"
    ∷ ascii "udp://109.201.134.183:80/announce"
    ∷ ascii "udp://45.137.199.107:6969/announce"
    ∷ ascii "udp://135.125.198.235:1984/announce"
    ∷ ascii "udp://211.75.210.221:80/announce"
    ∷ ascii "udp://209.141.59.25:6969/announce"
    ∷ ascii "udp://211.75.210.221:6969/announce"
    ∷ ascii "http://211.75.210.221:6969/announce"
    ∷ ascii "udp://83.102.180.21:80/announce"
    ∷ ascii "udp://31.56.179.159:6969/announce"
    ∷ ascii "udp://65.109.28.17:6969/announce"
    ∷ ascii "udp://95.217.80.20:6969/announce"
    ∷ ascii "udp://95.217.80.22:6969/announce"
    ∷ ascii "udp://65.109.28.33:6969/announce"
    ∷ []

abbrev pub hex_digit : ℕ → ℕ
hex_digit n = if ltb n 10 then 48 + n else 87 + n

-- info_hash.hex()
unfoldable pub hex : Bytes → Text
hex [] = []
hex (b ∷ rest) = hex_digit (b / 16) ∷ hex_digit (b % 16) ∷ hex rest

module _ (quote : Text → Text) where
  unfoldable pub tracker_parts : List Text → Text
  tracker_parts [] = []
  tracker_parts (t ∷ trackers) = ascii "&tr=" ++ (quote t ++ tracker_parts trackers)

  -- "&dn=" and the name, unless it is empty
  unfoldable pub name_part : Text → Text
  name_part [] = []
  name_part (c ∷ name) = ascii "&dn=" ++ quote (c ∷ name)

  unfoldable pub build_magnet_link : Bytes → Text → Result Error Text
  build_magnet_link info_hash name =
      if length info_hash == node_id_length
      then ok
          (magnet_prefix ++ (hex info_hash ++ (name_part name ++ tracker_parts magnet_trackers)))
      else err assertion_error

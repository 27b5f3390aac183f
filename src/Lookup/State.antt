-- ===== src/Lookup/State.antt =====
-- LookupManager and PeerLookup: their fields. Times are in thousandths of a second and tokens in
-- thousandths of a query, both exact; what the callbacks are told is appended to `events`.
use lif.Common.{
  ℕ, ◌+◌, ◌*◌, ◌-◌, min, max, List, [], ◌∷◌, Bool, true, false, Option, none, some, Bytes, ltb,
  length, if◌then◌else◌, Eq, byte_string_eq, nat_eq, pair_eq,
}
use lif.RecentMap.{find}
use lif.Catalog.Entries.{Peer}
use lif.Krpc.Addresses.{Node}

-- d[key] = value: a key that is there keeps its place.
module _ {K V : Type 0} ⦃e : Eq K⦄ where
  unfoldable pub assign : K → V → List (K × V) → List (K × V)
  assign k v [] = (k, v) ∷ []
  assign k v ((j, w) ∷ m) =
      let rest = assign k v m in if e.beq j k then (j, v) ∷ m else (j, w) ∷ rest

pub record LookupLimits : Type 0 where
  pub alpha : ℕ
  pub query_timeout : ℕ
  pub hint_timeout : ℕ
  pub deadline : ℕ
  pub max_queries : ℕ
  pub enough_peers : ℕ
  pub max_value_responses : ℕ
  pub max_active : ℕ
  pub queries_per_second : ℕ
  pub max_per_node : ℕ
  pub shortlist_size : ℕ
  pub max_peers : ℕ

-- `pending`: the address that was asked, and when the query expires.
pub record PeerLookup : Type 0 where
  pub info_hash : Bytes
  pub shortlist : List (Bytes × Node)
  pub queried : List Peer
  pub pending : List (Bytes × (Peer × ℕ))
  pub found_peers : List Peer
  pub queries_sent : ℕ
  pub value_responses : ℕ
  pub hint_transaction : Option Bytes
  pub deadline : ℕ
  pub finished : Bool

unfoldable pub new_lookup : Bytes → ℕ → PeerLookup
new_lookup info_hash deadline = record {
  info_hash = info_hash;
  shortlist = [];
  queried = [];
  pending = [];
  found_peers = [];
  queries_sent = 0;
  value_responses = 0;
  hint_transaction = none;
  deadline = deadline;
  finished = false;
}

-- send_query(transaction_id, node, info_hash), on_finished(info_hash, peers), on_peers(info_hash, peers)
pub data Event : Type 0 where
  query_sent : Bytes → Node → Bytes → Event
  lookup_finished : Bytes → List Peer → Event
  peers_found : Bytes → List Peer → Event

-- `reports_peers`: on_peers is not None.
pub record LookupManager : Type 0 where
  pub limits : LookupLimits
  pub reports_peers : Bool
  pub active : List (Bytes × PeerLookup)
  pub transactions : List (Bytes × Bytes)
  pub in_flight : List (Peer × ℕ)
  pub tokens : ℕ
  pub tokens_time : ℕ
  pub sequence : ℕ
  pub started_total : ℕ
  pub finished_total : ℕ
  pub with_peers_total : ℕ
  pub peers_found_total : ℕ
  pub queries_total : ℕ
  pub hint_queries : ℕ
  pub hint_answers : ℕ
  pub hint_values : ℕ
  pub events : List Event

unfoldable pub new_manager : LookupLimits → Bool → ℕ → LookupManager
new_manager limits reports_peers now = record {
  limits = limits;
  reports_peers = reports_peers;
  active = [];
  transactions = [];
  in_flight = [];
  tokens = 1000 * limits.queries_per_second;
  tokens_time = now;
  sequence = 0;
  started_total = 0;
  finished_total = 0;
  with_peers_total = 0;
  peers_found_total = 0;
  queries_total = 0;
  hint_queries = 0;
  hint_answers = 0;
  hint_values = 0;
  events = [];
}

-- A lookup that a method has at hand, and the manager. The lookup is an object that `active` refers to:
-- what a method does to it is done to that object, which `settle` writes down when the method is through.
pub record Work : Type 0 where
  pub lookup : PeerLookup
  pub manager : LookupManager

unfoldable pub put_active : PeerLookup → LookupManager → LookupManager
put_active lookup m = record m { active = assign lookup.info_hash lookup m.active }

-- `finish` has taken a finished lookup out of `active`.
unfoldable pub settle : Work → LookupManager
settle w = if w.lookup.finished then w.manager else put_active w.lookup w.manager

unfoldable pub free_slots : LookupManager → ℕ
free_slots m = m.limits.max_active - length m.active

unfoldable pub owns_transaction : Bytes → LookupManager → Bool
owns_transaction transaction_id m = elim (find transaction_id m.transactions) [
  | none ↦ false
  | some h ↦ true
]

unfoldable pub refill : ℕ → LookupManager → LookupManager
refill now m = record m {
  tokens =
      min (1000 * m.limits.queries_per_second)
        (m.tokens + (now - m.tokens_time) * m.limits.queries_per_second);
  tokens_time = max m.tokens_time now;
}

-- tokens < 1
abbrev pub is_broke : LookupManager → Bool
is_broke m = ltb m.tokens 1000

abbrev pub load : Peer → LookupManager → ℕ
load address m = elim (find address m.in_flight) [ none ↦ 0 | some n ↦ n ]

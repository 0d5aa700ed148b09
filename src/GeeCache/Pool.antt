-- ===== src/GeeCache/Pool.antt =====
-- gee-cache/day7-proto-buf/geecache/http.go: the pool of peers, which asks the owner of a key over
-- HTTP, and answers the requests of the others.
--
-- The address of a peer is its scheme and host, so that the path of a request is what follows it,
-- decoded by net/http. Protobuf messages stand for their contents; the checksum of the ring, the
-- groups of the process and the transport are parameters.
mod Requests
mod Tests
use days_golang_master.Base.{
  ℕ, zero, suc, ◌+◌, ◌-◌, ◌*◌, ◌/◌, ◌%◌, Text, codes, Option, none, some, List, [], ◌∷◌, ◌++◌, Run,
  done, panic, spin, ◌>>=◌, deref, ite, text_discrete, ℕ_discrete, dec_le, dec_lt, Bool, true,
  false, if◌then◌else◌, length, drop,
}
use days_golang_master.Base.Table
use days_golang_master.Base.Table.{Table}
use days_golang_master.GeeCache.ConsistentHash
use days_golang_master.GeeCache.ConsistentHash.{Ring}
use days_golang_master.GeeCache.Group.{Got, got, key_required, failed}

abbrev pub default_base_path : Text
default_base_path = codes "/_geecache/"

abbrev pub default_replicas : ℕ
default_replicas = 50

pub record Pool : Type 0 where
  pub self : Text
  pub base_path : Text
  -- nil until Set
  pub peers : Option Ring
  -- the base URL of each peer
  pub http_getters : Table Text Text

unfoldable pub new_pool : Text → Pool
new_pool self = record {
  self = self;
  base_path = default_base_path;
  peers = none;
  http_getters = [];
}

unfoldable pub getters_of : Text → List Text → Table Text Text → Table Text Text
getters_of base_path [] m = m
getters_of base_path (peer ∷ peers) m =
    getters_of base_path peers (Table.put text_discrete peer (peer ++ base_path) m)

-- Set
unfoldable pub set : (Text → ℕ) → List Text → Pool → Pool
set checksum peers p = record p {
  peers = some (ConsistentHash.add peers (ConsistentHash.new checksum default_replicas none));
  http_getters = getters_of p.base_path peers [];
}

-- PickPeer: the getter, which the map may lack, or false. A nil ring is dereferenced.
unfoldable pub pick_peer : Text → Pool → Run (Option (Option Text))
pick_peer key p = do
  ring ← deref p.peers
  peer ← ConsistentHash.get key ring
  done (
      ite (text_discrete peer []) none
        (ite (text_discrete peer p.self) none (some (Table.get text_discrete peer p.http_getters))))

-- url.QueryEscape: letters, digits and -_.~ stay, a space is a plus, and other bytes are two digits.
unfoldable pub is_unreserved : ℕ → Bool
is_unreserved b =
    if ite (dec_lt b b'0') false (ite (dec_le b b'9') true false)
    then true
    else if ite (dec_lt b b'A') false (ite (dec_le b b'Z') true false)
    then true
    else if ite (dec_lt b b'a') false (ite (dec_le b b'z') true false)
    then true
    else ite (ℕ_discrete b b'-') true (
        ite (ℕ_discrete b b'_') true
          (ite (ℕ_discrete b b'.') true (ite (ℕ_discrete b b'~') true false)))

unfoldable pub hex_digit : ℕ → ℕ
hex_digit d = ite (dec_lt d 10) (b'0' + d) (b'A' + (d - 10))

unfoldable pub escape_byte : ℕ → Text
escape_byte b =
    ite (ℕ_discrete b b' ') (b'+' ∷ [])
      (if is_unreserved b then b ∷ [] else b'%' ∷ hex_digit (b / 16) ∷ hex_digit (b % 16) ∷ [])

unfoldable pub query_escape : Text → Text
query_escape [] = []
query_escape (b ∷ s) = escape_byte b ++ query_escape s

-- The path of a URL as net/http decodes it: two digits behind a percent sign are a byte, and a plus
-- is a plus.
unfoldable pub unhex : ℕ → Option ℕ
unhex c = ite (dec_lt c b'0') none (
    ite (dec_le c b'9') (some (c - b'0')) (
      ite (dec_lt c b'A') none (
        ite (dec_le c b'F') (some (c - b'A' + 10))
          (ite (dec_lt c b'a') none (ite (dec_le c b'f') (some (c - b'a' + 10)) none)))))

unfoldable pub unescape_path : Text → Option Text
unescape_path [] = some []
unescape_path (b ∷ []) = ite (ℕ_discrete b b'%') none (some (b ∷ []))
unescape_path (b ∷ x ∷ []) =
    ite (ℕ_discrete b b'%') none
      (elim (unescape_path (x ∷ [])) [ none ↦ none | some t ↦ some (b ∷ t) ])
unescape_path (b ∷ x ∷ y ∷ s) =
    let rest = unescape_path s in
    let next = unescape_path (x ∷ y ∷ s) in
    ite (ℕ_discrete b b'%')
      (elim (unhex x) [
        | none ↦ none
        | some h ↦ elim (unhex y) [
          | none ↦ none
          | some l ↦ elim rest [ none ↦ none | some t ↦ some ((16 * h + l) ∷ t) ]
        ]
      ])
      (elim next [ none ↦ none | some t ↦ some (b ∷ t) ])

-- httpGetter.Get, the path of its URL behind the host.
unfoldable pub request_path : Text → Text → Text → Text
request_path base_path group key = base_path ++ (query_escape group ++ (b'/' ∷ query_escape key))

-- What ServeHTTP answers.
pub data Answer : Type 0 where
  bad_request : Answer
  no_such_group : Text → Answer
  internal_error : Got → Answer
  body : Text → Answer

-- The part of the path behind a prefix.
unfoldable pub cut_prefix : Text → Text → Option Text
cut_prefix [] s = some s
cut_prefix (b ∷ p) [] = none
cut_prefix (b ∷ p) (c ∷ s) = let rest = cut_prefix p s in ite (ℕ_discrete b c) rest none

-- strings.SplitN(s, "/", 2)
unfoldable pub split_two : Text → List Text
split_two [] = [] ∷ []
split_two (b ∷ s) =
    let rest = split_two s in
    ite (ℕ_discrete b b'/') ([] ∷ s ∷ []) (elim rest [ [] ↦ [] | t ∷ ts ↦ (b ∷ t) ∷ ts ])

abbrev pub answer_of : Got → Answer
answer_of (got v) = body v
answer_of e = internal_error e

-- The part of ServeHTTP behind the prefix; `get_group` is GetGroup with the Get of the group.
abbrev pub serve_parts : (Text → Option (Text → Got)) → List Text → Answer
serve_parts get_group (group_name ∷ key ∷ []) = elim (get_group group_name) [
  | none ↦ no_such_group group_name
  | some get ↦ answer_of (get key)
]
serve_parts get_group _ = bad_request

unfoldable pub serve_http : (Text → Option (Text → Got)) → Text → Pool → Run Answer
serve_http get_group path p = elim (cut_prefix p.base_path path) [
  | none ↦ panic
  | some rest ↦ done (serve_parts get_group (split_two rest))
]

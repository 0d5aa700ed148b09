-- ===== src/GeeCache/Pool/Tests.antt =====
-- Requests between peers with concrete groups and keys, and inputs for the theorems.
use days_golang_master.Base.{
  ◌≡◌, refl, Text, codes, Option, none, some, [], ◌∷◌, done, arith, text_discrete, ite, ℕ_discrete,
  dec_lt, dec_le,
}
use days_golang_master.GeeCache.Group.{Got, got}
use days_golang_master.GeeCache.Pool.{
  Pool, new_pool, body, bad_request, request_path, query_escape, escape_byte, hex_digit,
  is_unreserved, unescape_path, unhex, serve_http, serve_parts, answer_of, no_such_group,
  cut_prefix, split_two,
}
use days_golang_master.GeeCache.Pool.Requests.{serve_http-request_path}

-- A process with the group of scores.
abbrev scores : Text → Option (Text → Got)
scores name = ite (text_discrete name (codes "scores")) (some (λ key. got key)) none

escapes_space : query_escape (codes "a b/c") ≡ codes "a+b%2Fc"
unfolding query_escape escape_byte hex_digit is_unreserved ℕ_discrete dec_lt dec_le
escapes_space = refl

reads_slash : unescape_path (codes "a+b%2Fc") ≡ some (codes "a+b/c")
unfolding unescape_path unhex ℕ_discrete dec_lt dec_le
reads_slash = refl

serves_scores :
    serve_http scores (codes "/_geecache/scores/Tom") (new_pool (codes "http://localhost:8001"))
    ≡ done (body (codes "Tom"))
unfolding serve_http new_pool cut_prefix split_two ℕ_discrete text_discrete
serves_scores = refl

serves_no_key :
    serve_http scores (codes "/_geecache/scores") (new_pool (codes "http://localhost:8001"))
    ≡ done bad_request
unfolding serve_http new_pool cut_prefix split_two ℕ_discrete text_discrete
serves_no_key = refl

abbrev local : Pool
local = record {
  self = codes "http://localhost:8001";
  base_path = codes "/_geecache/";
  peers = none;
  http_getters = [];
}

serve_http-request_path_example :
    (path : Text) × (unescape_path
        (request_path (codes "/_geecache/") (codes "scores") (codes "T S"))
      ≡ some path)
    × (serve_http scores path local ≡ done (serve_parts scores (codes "scores" ∷ codes "T+S" ∷ [])))
    × ((get : Text → Got)
        → scores (codes "scores") ≡ some get
        → serve_http scores path local ≡ done (answer_of (get (codes "T+S"))))
    × (scores (codes "scores") ≡ none
        → serve_http scores path local ≡ done (no_such_group (codes "scores")))
unfolding ℕ_discrete
serve_http-request_path_example =
    serve_http-request_path scores local (codes "scores") (codes "T S") (omega arith) (omega arith)
      (omega arith) (omega arith)

-- ===== src/GeeCache/Pool/Requests.antt =====
-- The URLs of gee-cache/day7-proto-buf/geecache/http.go: what a peer reads from the request of
-- another.
use days_golang_master.Base.{
  ℕ, ◌+◌, ◌*◌, ◌/◌, ◌%◌, ◌<◌, ◌≡◌, ◌≢◌, refl, ap, ◌∙◌, inl, inr, Text, List, Option, none, some, [],
  ◌∷◌, ◌++◌, done, arith, All, ite, if_pos, if_neg, ℕ_discrete, true, map, append_assoc, append-nil,
  Bool-cases,
}
use days_golang_master.GeeCache.Group.{Got}
use days_golang_master.GeeCache.Pool.{
  Pool, hex_digit, unhex, is_unreserved, escape_byte, query_escape, unescape_path, cut_prefix,
  split_two, request_path, serve_http, serve_parts, answer_of, no_such_group,
}

unhex-hex_digit : (d : ℕ) → d < 16 → unhex (hex_digit d) ≡ some d
unfolding unhex hex_digit
unhex-hex_digit d h = ground arith

unescape_path_plain :
    (b : ℕ) (s t : Text)
    → b ≢ b'%'
    → unescape_path s ≡ some t
    → unescape_path (b ∷ s) ≡ some (b ∷ t)
unfolding unescape_path
unescape_path_plain b [] t n e = ground arith
unescape_path_plain b (x ∷ []) t n e = ground arith
unescape_path_plain b (x ∷ y ∷ s) t n e = ground arith

unescape_path_digits :
    (x y h l : ℕ) (s t : Text)
    → unhex x ≡ some h
    → unhex y ≡ some l
    → unescape_path s ≡ some t
    → unescape_path (b'%' ∷ x ∷ y ∷ s) ≡ some ((16 * h + l) ∷ t)
unfolding unescape_path
unescape_path_digits x y h l s t e f g = ground arith

unreserved_plain : (b : ℕ) → is_unreserved b ≡ true → b ≢ b'%'
unfolding is_unreserved
unreserved_plain b e p = ground (arith, e, p)

-- A space arrives as a plus.
abbrev pub plus_for_space : Text → Text
plus_for_space s = map (λ b. ite (ℕ_discrete b b' ') b'+' b) s

escape_byte_lem :
    (b : ℕ) (s t : Text)
    → b < 256
    → unescape_path s ≡ some t
    → unescape_path (escape_byte b ++ s) ≡ some (ite (ℕ_discrete b b' ') b'+' b ∷ t)
unfolding escape_byte
escape_byte_lem b s t h e = elim (ℕ_discrete b b' ') [
  | yes p ↦ rw (if_pos _ p, if_pos _ p) (unescape_path_plain b'+' s t (omega arith) e)
  | no n ↦ elim (Bool-cases (is_unreserved b)) [
    | inl u ↦ rw (if_neg _ n, if_neg _ n, u) (unescape_path_plain b s t (unreserved_plain b u) e)
    | inr u ↦
        rw (if_neg _ n, if_neg _ n, u)
          (unescape_path_digits (hex_digit (b / 16)) (hex_digit (b % 16)) (b / 16) (b % 16) s t
              (unhex-hex_digit (b / 16) (omega arith)) (unhex-hex_digit (b % 16) (omega arith)) e
            ∙ ap (λ x. some (x ∷ t)) (omega arith))
  ]
]

unescape_path_escaped :
    (a s t : Text)
    → All (λ b. b < 256) a
    → unescape_path s ≡ some t
    → unescape_path (query_escape a ++ s) ≡ some (plus_for_space a ++ t)
unfolding query_escape
unescape_path_escaped [] s t h e = e
unescape_path_escaped (b ∷ a) s t (p, h) e = rw (append_assoc (escape_byte b) (query_escape a) s) (
    escape_byte_lem b (query_escape a ++ s) (plus_for_space a ++ t) p
      (unescape_path_escaped a s t h e))

unescape_path-query_escape :
    (a : Text) → All (λ b. b < 256) a → unescape_path (query_escape a) ≡ some (plus_for_space a)
unfolding unescape_path
unescape_path-query_escape a h =
    rw (append-nil (query_escape a), append-nil (plus_for_space a)) at
      (unescape_path_escaped a [] [] h refl)

unescape_path-append :
    (a s t : Text)
    → All (λ b. b ≢ b'%') a
    → unescape_path s ≡ some t
    → unescape_path (a ++ s) ≡ some (a ++ t)
unescape_path-append [] s t h e = e
unescape_path-append (b ∷ a) s t (n, h) e =
    unescape_path_plain b (a ++ s) (a ++ t) n (unescape_path-append a s t h e)

unescape_path-request_path :
    (base_path group key : Text)
    → All (λ b. b ≢ b'%') base_path
    → All (λ b. b < 256) group
    → All (λ b. b < 256) key
    → unescape_path (request_path base_path group key)
      ≡ some (base_path ++ (plus_for_space group ++ (b'/' ∷ plus_for_space key)))
unfolding request_path
unescape_path-request_path base_path group key n g k = unescape_path-append base_path _ _ n (
    unescape_path_escaped group (b'/' ∷ query_escape key) (b'/' ∷ plus_for_space key) g (
      unescape_path_plain b'/' (query_escape key) (plus_for_space key) (omega arith)
        (unescape_path-query_escape key k)))

cut_prefix-append : (a s : Text) → cut_prefix a (a ++ s) ≡ some s
unfolding cut_prefix
cut_prefix-append [] s = refl
cut_prefix-append (b ∷ a) s = rw (if_pos _ refl) (cut_prefix-append a s)

-- A group's name without a slash is the first part.
split_two_lem : (a s : Text) → All (λ b. b ≢ b'/') a → split_two (a ++ (b'/' ∷ s)) ≡ a ∷ s ∷ []
unfolding split_two
split_two_lem [] s h = rw (if_pos (ℕ_discrete b'/' b'/') refl) refl
split_two_lem (b ∷ a) s (n, h) = rw (if_neg _ n, split_two_lem a s h) refl

plus_for_space-no_slash :
    (a : Text) → All (λ b. b ≢ b'/') a → All (λ b. b ≢ b'/') (plus_for_space a)
plus_for_space-no_slash [] h = tt
plus_for_space-no_slash (b ∷ a) (n, h) = (
  elim (ℕ_discrete b b' ') [ yes p ↦ rw (if_pos _ p) (omega arith) | no q ↦ rw (if_neg _ q) n ],
  plus_for_space-no_slash a h,
)

serve_http_at :
    (get_group : Text → Option (Text → Got)) (p : Pool) (path rest : Text) (parts : List Text)
    → cut_prefix p.base_path path ≡ some rest
    → split_two rest ≡ parts
    → serve_http get_group path p ≡ done (serve_parts get_group parts)
unfolding serve_http
serve_http_at get_group p path rest parts e f = ground (arith, e, f)

serve_parts-group :
    (get_group : Text → Option (Text → Got)) (group key : Text) (get : Text → Got)
    → get_group group ≡ some get
    → serve_parts get_group (group ∷ key ∷ []) ≡ answer_of (get key)
serve_parts-group get_group group key get e = rw (e, serve_parts) refl

serve_parts-no_group :
    (get_group : Text → Option (Text → Got)) (group key : Text)
    → get_group group ≡ none
    → serve_parts get_group (group ∷ key ∷ []) ≡ no_such_group group
serve_parts-no_group get_group group key e = rw (e, serve_parts) refl

-- Where the base path has no percent sign and the group's name no slash, the path that another peer
-- requests for a group and a key of bytes is decoded to one that the pool answers as the request for
-- that group and that key with a plus for every space: without spaces, for the same group and key. The
-- answer is what the group of that name has for that key, or that there is no such group.
pub serve_http-request_path :
    (get_group : Text → Option (Text → Got)) (p : Pool) (group key : Text)
    → All (λ b. b ≢ b'%') p.base_path
    → All (λ b. b < 256) group
    → All (λ b. b ≢ b'/') group
    → All (λ b. b < 256) key
    → (path : Text) × (unescape_path (request_path p.base_path group key) ≡ some path)
      × (serve_http get_group path p
          ≡ done (serve_parts get_group (plus_for_space group ∷ plus_for_space key ∷ [])))
      × ((get : Text → Got)
          → get_group (plus_for_space group) ≡ some get
          → serve_http get_group path p ≡ done (answer_of (get (plus_for_space key))))
      × (get_group (plus_for_space group) ≡ none
          → serve_http get_group path p ≡ done (no_such_group (plus_for_space group)))
serve_http-request_path get_group p group key n g slash k =
    let serves =
      serve_http_at get_group p _ _ _
        (cut_prefix-append p.base_path (plus_for_space group ++ (b'/' ∷ plus_for_space key)))
        (split_two_lem (plus_for_space group) (plus_for_space key)
          (plus_for_space-no_slash group slash)) in
    (
      p.base_path ++ (plus_for_space group ++ (b'/' ∷ plus_for_space key)),
      unescape_path-request_path p.base_path group key n g k,
      serves,
      λ get e.
          serves
          ∙ ap done (serve_parts-group get_group (plus_for_space group) (plus_for_space key) get e),
      λ e.
          serves
          ∙ ap done (serve_parts-no_group get_group (plus_for_space group) (plus_for_space key) e),
    )

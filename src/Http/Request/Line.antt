-- ===== src/Http/Request/Line.antt =====
-- parseRequestLine and getQuery of src/server/http_request.cpp on a request line as a client writes it.
use chat_room.Common.{
  ℕ, zero, suc, ◌+◌, ◌<◌, ◌≡◌, refl, ap, ◌∙◌, Bool, true, false, Option, none, some, [], ◌∷◌, ◌++◌,
  ◌==◌, ◌||◌, if◌then◌else◌, length, take, drop, arith, All, length-append,
}
use chat_room.Common.Text.{Bytes, codes, text_eq, is_empty}
use chat_room.Common.Dict
use chat_room.Common.Dict.{Dict}
use chat_room.Common.Keys.{text_key}
use chat_room.Http.Request.{HttpRequest, query_loop, get_query, split_url, parse_request_line}
use chat_room.Http.Request.Text.{find, starts_with}

-- The byte does not stand in the text.
abbrev pub Lacks : ℕ → Bytes → Type 0
Lacks c [] = Unit
Lacks c (x ∷ s) = ((c == x) ≡ false) × Lacks c s

find_sep : (c : ℕ) (s rest : Bytes) → Lacks c s → find (c ∷ []) (s ++ c ∷ rest) ≡ some (length s)
unfolding find starts_with
find_sep c [] rest h = ground arith
find_sep c (x ∷ s) rest h = rw (h.0, find_sep c s rest h.1) refl

find_lacking : (c : ℕ) (s : Bytes) → Lacks c s → find (c ∷ []) s ≡ none
unfolding find starts_with
find_lacking c [] h = refl
find_lacking c (x ∷ s) h = rw (h.0, find_lacking c s h.1) refl

take_front : (s rest : Bytes) → take (length s) (s ++ rest) ≡ s
take_front [] rest = refl
take_front (x ∷ s) rest = ap (λ t. x ∷ t) (take_front s rest)

drop_sep : (c : ℕ) (s rest : Bytes) → drop (length s + 1) (s ++ c ∷ rest) ≡ rest
drop_sep c [] rest = refl
drop_sep c (x ∷ s) rest =
    let shifted : suc (length s) + 1 ≡ suc (length s + 1) = omega arith in
    ap (λ (n : ℕ). drop n (x ∷ (s ++ c ∷ rest))) shifted ∙ drop_sep c s rest

-- The pairs of a query, as they are written: key=value&key=value.
unfoldable pub print_query : Dict Bytes Bytes → Bytes
print_query [] = []
print_query ((key, value) ∷ []) = key ++ 61 ∷ value
print_query ((key, value) ∷ next ∷ more) = key ++ 61 ∷ (value ++ 38 ∷ print_query (next ∷ more))

-- No key has a '=' and no value has a '&'.
abbrev pub IsPair : Bytes × Bytes → Type 0
IsPair p = Lacks 61 p.0 × Lacks 38 p.1

abbrev or_empty : Option Bytes → Bytes
or_empty none = []
or_empty (some value) = value

-- The first value of a key, or the empty text.
abbrev pub value_of : Bytes → Dict Bytes Bytes → Bytes
value_of key pairs = or_empty (Dict.lookup key pairs)

chosen_value :
    (b : Bool) (value other : Bytes) (more : Option Bytes)
    → other ≡ or_empty more
    → (if b then value else other) ≡ or_empty (if b then some value else more)
chosen_value true value other more e = refl
chosen_value false value other more e = e

query_loop-print_query :
    (n : ℕ) (key : Bytes) (pairs : Dict Bytes Bytes)
    → All IsPair pairs
    → length (print_query pairs) < n
    → query_loop n key (print_query pairs) ≡ value_of key pairs
unfolding query_loop print_query find Dict.lookup
query_loop-print_query zero key pairs h less = absurd (omega (arith, less))
query_loop-print_query (suc n) key [] h less = refl
query_loop-print_query (suc n) key ((k, v) ∷ []) h less =
    rw
      (
        query_loop,
        print_query,
        find_sep 61 k v h.0.0,
        drop_sep 61 k v,
        find_lacking 38 v h.0.1,
        take_front k (61 ∷ v),
        drop_sep 61 k v,
      )
      (chosen_value (text_eq k key) v [] none refl)
query_loop-print_query (suc n) key ((k, v) ∷ next ∷ more) h less =
    let rest = print_query (next ∷ more) in
    rw
      (
        query_loop,
        print_query,
        find_sep 61 k (v ++ 38 ∷ rest) h.0.0,
        drop_sep 61 k (v ++ 38 ∷ rest),
        find_sep 38 v rest h.0.1,
        take_front k (61 ∷ (v ++ 38 ∷ rest)),
        drop_sep 61 k (v ++ 38 ∷ rest),
        take_front v (38 ∷ rest),
        drop_sep 38 v rest,
      )
      (chosen_value (text_eq k key) v (query_loop n key rest) (Dict.lookup key (next ∷ more)) (
        query_loop-print_query n key (next ∷ more) h.1 (
          omega
            (arith, less, length-append k (61 ∷ (v ++ 38 ∷ rest)), length-append v (38 ∷ rest)))))

Lacks-append : (c : ℕ) (s t : Bytes) → Lacks c s → Lacks c t → Lacks c (s ++ t)
Lacks-append c [] t h g = g
Lacks-append c (x ∷ s) t h g = (h.0, Lacks-append c s t h.1 g)

-- A request line, as it is written: method, a space, path, '?', query, a space, version.
unfoldable pub print_request_line : Bytes → Bytes → Bytes → Bytes → Bytes
print_request_line method path query version = method ++ 32 ∷ ((path ++ 63 ∷ query) ++ 32 ∷ version)

abbrev pub is_version : Bytes → Bool
is_version version = text_eq version (codes "HTTP/1.1") || text_eq version (codes "HTTP/1.0")

split_url_lem :
    (path query : Bytes) (r : HttpRequest)
    → Lacks 63 path
    → is_empty path ≡ false
    → split_url (path ++ 63 ∷ query) r ≡ (true, record r { path = path; query = query })
unfolding split_url
split_url_lem path query r lacks some_path =
    rw
      (
        split_url,
        find_sep 63 path query lacks,
        take_front path (63 ∷ query),
        drop_sep 63 path query,
        some_path,
      )
      refl

parse_request_line_lem :
    (method path query version : Bytes) (r : HttpRequest)
    → Lacks 32 method
    → Lacks 32 path
    → Lacks 32 query
    → Lacks 63 path
    → is_empty path ≡ false
    → is_version version ≡ true
    → parse_request_line (print_request_line method path query version) r
      ≡ (true, record r { method = method; path = path; query = query; version = version })
unfolding parse_request_line print_request_line
parse_request_line_lem method path query version r m p q lacks some_path v =
    let url = path ++ 63 ∷ query in
    rw
      (
        parse_request_line,
        print_request_line,
        find_sep 32 method (url ++ 32 ∷ version) m,
        drop_sep 32 method (url ++ 32 ∷ version),
        find_sep 32 url version (Lacks-append 32 path (63 ∷ query) p (refl, q)),
        drop_sep 32 method (url ++ 32 ∷ version),
        drop_sep 32 url version,
        v,
        take_front url (32 ∷ version),
        print_request_line,
        take_front method (32 ∷ (url ++ 32 ∷ version)),
      )
      (split_url_lem path query (record r { method = method; version = version }) lacks some_path)

-- A request line whose query is printed from pairs of a key and a value is parsed to its method, path
-- and version, and getQuery of a key is then the value of the first pair with the key, or the empty
-- text where there is none. Method, path and query have no space, the path is not empty and has no
-- '?', no key has a '=', no value has a '&', and the version is HTTP/1.1 or HTTP/1.0.
pub get_query-parse_request_line :
    (method path version : Bytes) (pairs : Dict Bytes Bytes) (r : HttpRequest)
    → Lacks 32 method
    → Lacks 32 path
    → Lacks 32 (print_query pairs)
    → Lacks 63 path
    → is_empty path ≡ false
    → All IsPair pairs
    → is_version version ≡ true
    → (parsed : HttpRequest) × (parse_request_line
          (print_request_line method path (print_query pairs) version)
          r
        ≡ (true, parsed))
      × (parsed.method ≡ method)
      × (parsed.path ≡ path)
      × (parsed.version ≡ version)
      × ((key : Bytes) → get_query key parsed ≡ value_of key pairs)
unfolding get_query
get_query-parse_request_line method path version pairs r m p q lacks some_path h v = (
  record r { method = method; path = path; query = print_query pairs; version = version },
  parse_request_line_lem method path (print_query pairs) version r m p q lacks some_path v,
  refl,
  refl,
  refl,
  λ key. query_loop-print_query (suc (length (print_query pairs))) key pairs h (omega arith),
)

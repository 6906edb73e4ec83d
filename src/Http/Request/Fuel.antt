-- ===== src/Http/Request/Fuel.antt =====
-- The loops of src/server/http_request.cpp have enough fuel: more of it gives the same result.
use chat_room.Common.{
  ℕ, zero, suc, ◌+◌, ◌≤◌, ◌<◌, ◌≡◌, refl, ap, some, ◌++◌, if◌then◌else◌, length, take, drop, arith,
  Option-cases, inl, inr, length-append,
}
use chat_room.Common.Text.{Bytes, codes, text_eq}
use chat_room.Common.Dict.{Dict}
use chat_room.Http.Request.{
  HttpRequest, crlf, parse_header, header_loop, query_loop, get_query, parse_headers,
}
use chat_room.Http.Request.Text.{find, find_lem}

-- Behind what find has found there is less text.
shorter :
    (pat s : Bytes) (i : ℕ)
    → 1 ≤ length pat
    → find pat s ≡ some i
    → length (drop (i + length pat) s) < length s
shorter pat s i h e =
    let whole : length s ≡ length (take i s ++ pat ++ drop (i + length pat) s) =
      ap length (find_lem pat s i e) in
    omega (
      arith,
      h,
      whole,
      length-append (take i s ++ pat) (drop (i + length pat) s),
      length-append (take i s) pat,
    )

header_loop_fuel :
    (n m : ℕ) (block : Bytes) (headers : Dict Bytes Bytes)
    → length block < n
    → length block < m
    → header_loop n block headers ≡ header_loop m block headers
unfolding header_loop
header_loop_fuel zero m block headers h g = absurd (omega (arith, h))
header_loop_fuel (suc n) zero block headers h g = absurd (omega (arith, g))
header_loop_fuel (suc n) (suc m) block headers h g = elim (Option-cases (find crlf block)) [
  | inl e ↦ rw (header_loop, e) refl
  | inr (i, e) ↦
      let s : length (drop (i + 2) block) < length block = shorter crlf block i (omega arith) e in
      rw (header_loop, e)
        (header_loop_fuel n m (drop (i + 2) block) (parse_header (take i block) headers)
          (omega (arith, s, h)) (omega (arith, s, g)))
]

query_loop_fuel :
    (n m : ℕ) (k rest : Bytes)
    → length rest < n
    → length rest < m
    → query_loop n k rest ≡ query_loop m k rest
unfolding query_loop
query_loop_fuel zero m k rest h g = absurd (omega (arith, h))
query_loop_fuel (suc n) zero k rest h g = absurd (omega (arith, g))
query_loop_fuel (suc n) (suc m) k rest h g = elim (Option-cases (find (codes "=") rest)) [
  | inl e ↦ rw (query_loop, e) refl
  | inr (i, e) ↦ elim (Option-cases (find (codes "&") (drop (i + 1) rest))) [
    | inl f ↦ rw (query_loop, e, f) refl
    | inr (j, f) ↦
        let after = drop (i + 1) rest in
        let s : length after < length rest = shorter (codes "=") rest i (omega arith) e in
        let t : length (drop (j + 1) after) < length after =
          shorter (codes "&") after j (omega arith) f in
        rw (query_loop, e, f)
          (ap (λ v. if text_eq (take i rest) k then take j after else v)
            (query_loop_fuel n m k (drop (j + 1) after) (omega (arith, s, t, h))
              (omega (arith, s, t, g))))
  ]
]

-- The fuel that getQuery and parseHeaders start with is enough: any more gives the same.
pub loops_lem :
    (n : ℕ) (k block : Bytes) (r : HttpRequest)
    → length r.query < n
    → length block < n
    → (get_query k r ≡ query_loop n k r.query)
      × (parse_headers block r ≡ record r { headers = header_loop n block r.headers })
unfolding get_query parse_headers
loops_lem n k block r h g = (
  query_loop_fuel (suc (length r.query)) n k r.query (omega arith) h,
  ap (λ t. record r { headers = t })
      (header_loop_fuel (suc (length block)) n block r.headers (omega arith) g),
)

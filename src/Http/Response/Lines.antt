-- ===== src/Http/Response/Lines.antt =====
-- A response of src/server/http_response.cpp as its lines, and where the first empty line is.
use chat_room.Common.{
  ℕ, suc, ◌+◌, ◌-◌, ◌≤◌, false, Option, none, some, List, [], ◌∷◌, ◌++◌, ◌==◌, ==_iff,
  if◌then◌else◌, ◌≡◌, ◌≢◌, refl, ap, sym, ◌∙◌, inl, inr, Bool-cases, arith, length, length-append,
  All, append_assoc,
}
use chat_room.Common.Text.{Bytes, codes}
use chat_room.Common.Dict.{Dict}
use chat_room.Http.Request.{crlf}
use chat_room.Http.Request.Text.{find, starts_with, add_one}
use chat_room.Http.Response.{
  HttpResponse, decimal, has_name, header_lines, added_length, added_connection, to_string,
}

-- A line without a carriage return, and with something in it.
abbrev pub IsLine : Bytes → Type 0
IsLine l = (1 ≤ length l) × All (λ c. c ≢ 13) l

abbrev pub join_lines : List Bytes → Bytes
join_lines [] = []
join_lines (l ∷ ls) = l ++ (crlf ++ join_lines ls)

abbrev pub shifted : ℕ → Option ℕ → Option ℕ
shifted n none = none
shifted n (some i) = some (n + i)

pub shifted_zero : (o : Option ℕ) → o ≡ shifted 0 o
shifted_zero none = refl
shifted_zero (some i) = ap some (omega arith)

pub add_one-shifted : (n : ℕ) (o : Option ℕ) → add_one (shifted n o) ≡ shifted (suc n) o
add_one-shifted n none = refl
add_one-shifted n (some i) = ap some (omega arith)

pub shifted_two : (o : Option ℕ) → add_one (add_one o) ≡ shifted 2 o
shifted_two none = refl
shifted_two (some i) = ap some (omega arith)

-- The text "\r\n\r\n" does not begin inside of a line.
pub skip_line :
    (l rest : Bytes)
    → All (λ c. c ≢ 13) l
    → find (crlf ++ crlf) (l ++ rest) ≡ shifted (length l) (find (crlf ++ crlf) rest)
unfolding find starts_with
skip_line [] rest h = shifted_zero (find (crlf ++ crlf) rest)
skip_line (c ∷ l) rest h =
    let other : (13 == c) ≡ false = ground (arith, h.0, ==_iff 13 c) in
    rw (other, skip_line l rest h.1) (add_one-shifted (length l) (find (crlf ++ crlf) rest))

pub skip_end :
    (c : ℕ) (rest : Bytes)
    → c ≢ 13
    → find (crlf ++ crlf) (crlf ++ (c ∷ rest)) ≡ shifted 2 (find (crlf ++ crlf) (c ∷ rest))
unfolding find starts_with
skip_end c rest h =
    let other : (13 == c) ≡ false = ground (arith, h, ==_iff 13 c) in
    rw other (shifted_two (add_one (find (crlf ++ crlf) rest)))

pub found_end : (rest : Bytes) → find (crlf ++ crlf) (crlf ++ (crlf ++ rest)) ≡ some 0
unfolding find starts_with
found_end rest = refl

-- The head ends with its last line.
pub head_end :
    (l : Bytes) (ls : List Bytes) (body : Bytes)
    → IsLine l
    → All IsLine ls
    → find (crlf ++ crlf) (join_lines (l ∷ ls) ++ (crlf ++ body))
      ≡ some (length (join_lines (l ∷ ls)) - 2)
head_end l [] body h hs =
    ap (find (crlf ++ crlf)) (append_assoc l crlf (crlf ++ body))
    ∙ skip_line l (crlf ++ (crlf ++ body)) h.1
    ∙ ap (shifted (length l)) (found_end body)
    ∙ ap some (omega (arith, length-append l crlf))
head_end l ([] ∷ ls) body h hs = absurd (omega (arith, (hs.0).0))
head_end l ((c ∷ m) ∷ ls) body h hs =
    let rest = join_lines ((c ∷ m) ∷ ls) in
    ap (find (crlf ++ crlf)) (append_assoc l (crlf ++ rest) (crlf ++ body))
    ∙ skip_line l (crlf ++ (rest ++ (crlf ++ body))) h.1
    ∙ ap (shifted (length l)) (
        skip_end c (m ++ (crlf ++ join_lines ls) ++ (crlf ++ body)) ((hs.0).1).0
        ∙ ap (shifted 2) (head_end (c ∷ m) ls body hs.0 hs.1))
    ∙ ap some
        (omega (arith, length-append l (crlf ++ rest), length-append m (crlf ++ join_lines ls)))

-- The lines of a printed response.
abbrev pub length_line : HttpResponse → List Bytes
length_line r =
    if has_name (codes "content-length") r.headers
    then []
    else (codes "Content-Length: " ++ decimal (length r.body)) ∷ []

abbrev pub connection_line : HttpResponse → List Bytes
connection_line r =
    if has_name (codes "connection") r.headers
    then []
    else (codes "Connection: " ++ (if r.keep_alive then codes "keep-alive" else codes "close")) ∷ []

abbrev pub header_list : Dict Bytes Bytes → List Bytes
header_list [] = []
header_list ((k, v) ∷ headers) = (k ++ (58 ∷ v)) ∷ header_list headers

abbrev pub head_lines : HttpResponse → List Bytes
head_lines r = header_list r.headers ++ (length_line r ++ connection_line r)

abbrev pub first_line : HttpResponse → Bytes
first_line r = codes "HTTP/1.1 " ++ decimal r.status_code ++ (32 ∷ r.reason)

pub join_lines-append :
    (ls ms : List Bytes) → join_lines (ls ++ ms) ≡ join_lines ls ++ join_lines ms
join_lines-append [] ms = refl
join_lines-append (l ∷ ls) ms =
    ap (λ t. l ++ (crlf ++ t)) (join_lines-append ls ms)
    ∙ sym (append_assoc l (crlf ++ join_lines ls) (join_lines ms))

pub header_lines_lem :
    (headers : Dict Bytes Bytes) → header_lines headers ≡ join_lines (header_list headers)
unfolding header_lines
header_lines_lem [] = refl
header_lines_lem ((k, v) ∷ headers) =
    append_assoc (k ++ (58 ∷ v)) crlf (header_lines headers)
    ∙ ap (λ t. (k ++ (58 ∷ v)) ++ (crlf ++ t)) (header_lines_lem headers)

pub added_length_lem : (r : HttpResponse) → added_length r ≡ join_lines (length_line r)
added_length_lem r = elim (Bool-cases (has_name (codes "content-length") r.headers)) [
  | inl e ↦ rw e refl
  | inr e ↦ rw e refl
]

pub added_connection_lem : (r : HttpResponse) → added_connection r ≡ join_lines (connection_line r)
added_connection_lem r = elim (Bool-cases (has_name (codes "connection") r.headers)) [
  | inl e ↦ rw e refl
  | inr e ↦ rw e refl
]

-- The parts of a head, one behind the other.
pub regroup :
    (first a b c body : Bytes)
    → first ++ crlf ++ a ++ b ++ c ++ crlf ++ body
      ≡ first ++ (crlf ++ (a ++ (b ++ c))) ++ (crlf ++ body)
regroup first a b c body =
    append_assoc (first ++ crlf ++ a ++ b ++ c) crlf body
    ∙ ap (λ t. t ++ (crlf ++ body))
        (append_assoc (first ++ crlf ++ a) b c
          ∙ append_assoc (first ++ crlf) a (b ++ c)
          ∙ append_assoc first crlf (a ++ (b ++ c)))

-- A printed response is its lines, an empty line and the body.
pub to_string-lines :
    (r : HttpResponse) → to_string r ≡ join_lines (first_line r ∷ head_lines r) ++ (crlf ++ r.body)
unfolding to_string
to_string-lines r =
    ap (λ a. first_line r ++ crlf ++ a ++ added_length r ++ added_connection r ++ crlf ++ r.body)
      (header_lines_lem r.headers)
    ∙ ap
        (λ b.
          first_line r
          ++ crlf
          ++ join_lines (header_list r.headers)
          ++ b
          ++ added_connection r
          ++ crlf
          ++ r.body)
        (added_length_lem r)
    ∙ ap
        (λ c.
          first_line r
          ++ crlf
          ++ join_lines (header_list r.headers)
          ++ join_lines (length_line r)
          ++ c
          ++ crlf
          ++ r.body)
        (added_connection_lem r)
    ∙ regroup (first_line r) (join_lines (header_list r.headers)) (join_lines (length_line r))
        (join_lines (connection_line r)) r.body
    ∙ ap (λ t. first_line r ++ (crlf ++ t) ++ (crlf ++ r.body))
        (ap (λ t. join_lines (header_list r.headers) ++ t)
            (sym (join_lines-append (length_line r) (connection_line r)))
          ∙ sym (join_lines-append (header_list r.headers) (length_line r ++ connection_line r)))

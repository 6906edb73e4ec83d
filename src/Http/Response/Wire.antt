-- ===== src/Http/Response/Wire.antt =====
-- What a client reads of a response of src/server/http_response.cpp: the head up to the first empty line,
-- and the body behind it.
use chat_room.Common.{
  ℕ, ◌+◌, ◌-◌, ◌≤◌, ◌<◌, true, false, Option, none, some, [], ◌∷◌, ◌++◌, ◌≡◌, ◌≢◌, refl, ap, sym,
  ◌∙◌, inl, inr, Bool-cases, arith, length, length-append, drop, drop-append_more, All, All-append,
  append_assoc,
}
use chat_room.Common.Text.{Bytes, codes}
use chat_room.Common.Dict.{Dict}
use chat_room.Http.Request.{crlf}
use chat_room.Http.Request.Text.{find, is_digit, digits_value}
use chat_room.Http.Response.{
  HttpResponse, digits, decimal, has_name, header_lines, added_length, added_connection,
  status_line, to_string,
}
use chat_room.Http.Response.Digits.{digits-AreDigits, limit, digits_value-digits}
use chat_room.Http.Response.Lines.{
  IsLine, join_lines, head_end, length_line, connection_line, header_list, head_lines, first_line,
  to_string-lines,
}

abbrev pub NoReturn : Bytes → Type 0
NoReturn = All (λ c. c ≢ 13)

digits-NoReturn : (s : Bytes) → All (λ c. is_digit c ≡ true) s → NoReturn s
digits-NoReturn [] h = tt
digits-NoReturn (c ∷ s) h = (λ e. ground (arith, h.0, e), digits-NoReturn s h.1)

decimal-NoReturn : (n : ℕ) → NoReturn (decimal n)
unfolding decimal
decimal-NoReturn n = digits-NoReturn (digits 20 n) (digits-AreDigits 20 n)

-- A reason and headers without a carriage return.
pub record IsPlain (r : HttpResponse) : Type 0 where
  pub reason : NoReturn r.reason
  pub headers : All (λ h. NoReturn h.0 × NoReturn h.1) r.headers

header_list-AreLines :
    (headers : Dict Bytes Bytes)
    → All (λ h. NoReturn h.0 × NoReturn h.1) headers
    → All IsLine (header_list headers)
header_list-AreLines [] h = tt
header_list-AreLines ((k, v) ∷ headers) h = (
  (
    omega (arith, length-append k (58 ∷ v)),
    All-append (λ c. c ≢ 13) k (58 ∷ v) (h.0).0 (omega arith, (h.0).1),
  ),
  header_list-AreLines headers h.1,
)

abbrev body_at : Bytes → Option ℕ → Option Bytes
body_at text none = none
body_at text (some i) = some (drop (i + 4) text)

-- What a client takes for the body: what stands behind the first empty line.
abbrev pub body_of : Bytes → Option Bytes
body_of text = body_at text (find (crlf ++ crlf) text)

module _ (r : HttpResponse) (plain : IsPlain r) where
  first_line-IsLine : IsLine (first_line r)
  first_line-IsLine = (
    omega arith,
    All-append (λ c. c ≢ 13) (codes "HTTP/1.1 " ++ decimal r.status_code) (32 ∷ r.reason)
        (All-append (λ c. c ≢ 13) (codes "HTTP/1.1 ") (decimal r.status_code) (omega arith)
          (decimal-NoReturn r.status_code))
        (omega arith, plain.reason),
  )

  length_line-AreLines : All IsLine (length_line r)
  length_line-AreLines = elim (Bool-cases (has_name (codes "content-length") r.headers)) [
    | inl e ↦ rw e tt
    | inr e ↦ rw e (
      (
        omega arith,
        All-append (λ c. c ≢ 13) (codes "Content-Length: ") (decimal (length r.body)) (omega arith)
            (decimal-NoReturn (length r.body)),
      ),
      tt,
    )
  ]

  connection_line-AreLines : All IsLine (connection_line r)
  connection_line-AreLines = elim (Bool-cases (has_name (codes "connection") r.headers)) [
    | inl e ↦ rw e tt
    | inr e ↦ elim (Bool-cases r.keep_alive) [
      | inl f ↦ rw (e, f) ((omega arith, omega arith), tt)
      | inr f ↦ rw (e, f) ((omega arith, omega arith), tt)
    ]
  ]

  head_lines-AreLines : All IsLine (head_lines r)
  head_lines-AreLines =
      All-append IsLine (header_list r.headers) (length_line r ++ connection_line r)
        (header_list-AreLines r.headers plain.headers)
        (All-append IsLine (length_line r) (connection_line r) length_line-AreLines
          connection_line-AreLines)

  abbrev head : Bytes
  head = join_lines (first_line r ∷ head_lines r)

  behind_head : drop (length head - 2 + 4) (head ++ (crlf ++ r.body)) ≡ r.body
  behind_head =
      let long : 2 ≤ length head =
        omega (arith, length-append (first_line r) (crlf ++ join_lines (head_lines r))) in
      drop-append_more (length head - 2 + 4) head (crlf ++ r.body) (omega (arith, long))
      ∙ ap (λ n. drop n (crlf ++ r.body)) (two long)
    where
      two : 2 ≤ length head → length head - 2 + 4 - length head ≡ 2
      two long = omega (arith, long)

  body_of_lem : body_of (to_string r) ≡ some r.body
  body_of_lem =
      ap body_of (to_string-lines r)
      ∙ ap (body_at (head ++ (crlf ++ r.body)))
          (head_end (first_line r) (head_lines r) r.body first_line-IsLine head_lines-AreLines)
      ∙ ap some behind_head

  sized :
      has_name (codes "content-length") r.headers ≡ false
      → to_string r
        ≡ status_line r
          ++ header_lines r.headers
          ++ (codes "Content-Length: " ++ decimal (length r.body) ++ crlf)
          ++ (added_connection r ++ crlf ++ r.body)
  unfolding to_string
  sized none_named =
      let line = codes "Content-Length: " ++ decimal (length r.body) ++ crlf in
      let added : added_length r ≡ line = rw none_named refl in
      let before = status_line r ++ header_lines r.headers in
      let connection = added_connection r in
      ap (λ t. before ++ t ++ connection ++ crlf ++ r.body) added
      ∙ append_assoc (before ++ line ++ connection) crlf r.body
      ∙ append_assoc (before ++ line) connection (crlf ++ r.body)
      ∙ ap (λ t. before ++ line ++ t) (sym (append_assoc connection crlf r.body))

  -- A response whose reason and headers have no carriage return, and no header of which is named
  -- content-length in any case, with a body of less than 10^20 bytes: what stands behind the first
  -- empty line of the printed response is the body, and right behind the status line and the headers
  -- stands a Content-Length line, whose digits are read as the size of the body.
  pub body_of-to_string :
      has_name (codes "content-length") r.headers ≡ false
      → length r.body < limit 20
      → (body_of (to_string r) ≡ some r.body)
        × ((size : Bytes) × (after : Bytes) × (to_string r
              ≡ status_line r
                ++ header_lines r.headers
                ++ (codes "Content-Length: " ++ size ++ crlf)
                ++ after)
            × (digits_value 0 size ≡ length r.body))
  unfolding decimal
  body_of-to_string none_named short = (
    body_of_lem,
    (
      decimal (length r.body),
      added_connection r ++ crlf ++ r.body,
      sized none_named,
      digits_value-digits 20 _ short,
    ),
  )

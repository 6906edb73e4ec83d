-- ===== src/Http/Request/Parse.antt =====
-- What parse does to the buffer: it puts all back, or takes one request off the front.
use chat_room.Common.{
  ◌+◌, ◌^◌, ◌≤◌, ◌≡◌, sym, ap, ◌∙◌, Bool, true, false, [], ◌++◌, ltb, length, take, drop, arith,
  Bool-cases, Option-cases, inl, inr, length-drop, take-append-drop, drop-all, append_assoc,
}
use chat_room.Common.Text.{Bytes}
use chat_room.Buffer
use chat_room.Buffer.{Buffer, IsValid}
use chat_room.Buffer.View.{clear-IsValid, append-IsValid, view-append, retrieve_all_lem}
use chat_room.Http.Request.{
  HttpRequest, crlf, content_length, take_body, parse_head, parse_taken, parse, parse_request_line,
}
use chat_room.Http.Request.Text.{find, find_lem}

-- A result that took `head`, an empty line and a body off the front of a text, or nothing.
abbrev pub Keeps : Bytes → Bool × HttpRequest × Buffer → Type 0
Keeps snap (false, r, buf) = IsValid buf × (Buffer.view buf ≡ snap)
Keeps snap (true, r, buf) =
    IsValid buf × ((head : Bytes) × (snap ≡ head ++ (crlf ++ crlf) ++ r.body ++ Buffer.view buf))

module _ (buf : Buffer) (v : IsValid buf) (empty : Buffer.view buf ≡ []) where
  append-IsValid_empty : (bytes : Bytes) → length bytes ≤ 2 ^ 57 → IsValid (Buffer.append bytes buf)
  append-IsValid_empty bytes h = append-IsValid bytes buf v (rw empty (omega (arith, h)))

  view-append_empty :
      (bytes : Bytes) → length bytes ≤ 2 ^ 57 → Buffer.view (Buffer.append bytes buf) ≡ bytes
  view-append_empty bytes h =
      view-append bytes buf v (rw empty (omega (arith, h))) ∙ ap (λ t. t ++ bytes) empty

  module _ (snap : Bytes) (small : length snap ≤ 2 ^ 57) where
    put_back : (r : HttpRequest) → Keeps snap (false, r, Buffer.append snap buf)
    put_back r = (append-IsValid_empty snap small, view-append_empty snap small)

    take_body-Keeps :
        (head rest : Bytes) (r : HttpRequest)
        → snap ≡ head ++ (crlf ++ crlf) ++ rest
        → length rest ≤ 2 ^ 57
        → Keeps snap (take_body snap rest r buf)
    unfolding take_body
    take_body-Keeps head rest r e fits =
        let n = content_length r in
        elim (Bool-cases (ltb (length rest) n)) [
          | inl more ↦ rw more (put_back r)
          | inr enough ↦ elim (Bool-cases (ltb n (length rest))) [
            | inl left ↦
                rw (enough, left)
                  (
                    append-IsValid_empty (drop n rest) (omega (arith, length-drop n rest, fits)),
                    (
                      head,
                      e
                          ∙ ap (λ t. head ++ (crlf ++ crlf) ++ t)
                              (sym (take-append-drop n rest)
                                ∙ ap (λ t. take n rest ++ t)
                                    (sym (
                                      view-append_empty (drop n rest)
                                        (omega (arith, length-drop n rest, fits)))))
                          ∙ sym (
                              append_assoc (head ++ (crlf ++ crlf)) (take n rest)
                                (Buffer.view (Buffer.append (drop n rest) buf))),
                    ),
                  )
            | inr none_left ↦
                rw (enough, none_left)
                  (
                    v,
                    (
                      head,
                      e
                          ∙ ap (λ t. head ++ (crlf ++ crlf) ++ t)
                              (sym (take-append-drop n rest)
                                ∙ ap (λ t. take n rest ++ t)
                                    (drop-all n rest (ground (arith, none_left)) ∙ sym empty))
                          ∙ sym (
                              append_assoc (head ++ (crlf ++ crlf)) (take n rest)
                                (Buffer.view buf)),
                    ),
                  )
          ]
        ]

    parse_head-Keeps :
        (head rest : Bytes) (r : HttpRequest)
        → snap ≡ head ++ (crlf ++ crlf) ++ rest
        → length rest ≤ 2 ^ 57
        → Keeps snap (parse_head snap head rest r buf)
    unfolding parse_head
    parse_head-Keeps head rest r e fits = elim (Option-cases (find crlf head)) [
      | inl f ↦ rw f (elim (Bool-cases (parse_request_line head r).0) [
        | inl ok ↦ rw ok (take_body-Keeps head rest _ e fits)
        | inr bad ↦ rw bad (put_back (parse_request_line head r).1)
      ])
      | inr (i, f) ↦ rw f (elim (Bool-cases (parse_request_line (take i head) r).0) [
        | inl ok ↦ rw ok (take_body-Keeps head rest _ e fits)
        | inr bad ↦ rw bad (put_back (parse_request_line (take i head) r).1)
      ])
    ]

parse_taken-Keeps :
    (snap : Bytes) (buf : Buffer) (r : HttpRequest)
    → IsValid buf
    → Buffer.view buf ≡ []
    → length snap ≤ 2 ^ 57
    → Keeps snap (parse_taken snap buf r)
unfolding parse_taken
parse_taken-Keeps snap buf r v empty small = elim (Option-cases (find (crlf ++ crlf) snap)) [
  | inl f ↦ rw (parse_taken, f) (put_back buf v empty snap small (record r { ok = false }))
  | inr (i, f) ↦
      rw (parse_taken, f)
        (parse_head-Keeps buf v empty snap small (take i snap) (drop (i + 4) snap)
          (record r { ok = false }) (find_lem (crlf ++ crlf) snap i f)
          (omega (arith, length-drop (i + 4) snap, small)))
]

-- From a well-formed buffer of at most 2^57 bytes, parse leaves a well-formed buffer. Where it fails,
-- because the request is not complete or its first line is not one, the buffer holds what it held.
-- Where it succeeds, what the buffer held is a head, an empty line, the request's body, and what the
-- buffer holds then: no byte is lost, doubled or moved.
pub parse-Keeps :
    (buf : Buffer) (r : HttpRequest)
    → IsValid buf
    → length (Buffer.view buf) ≤ 2 ^ 57
    → Keeps (Buffer.view buf) (parse buf r)
unfolding parse
parse-Keeps buf r v small =
    let taken = retrieve_all_lem buf in
    rw (parse, taken.0, taken.1)
      (parse_taken-Keeps (Buffer.view buf) (Buffer.clear buf) r (clear-IsValid buf v) taken.2 small)

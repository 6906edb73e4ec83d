-- ===== src/Web/Server/Static.antt =====
-- Which files dispatch_ of src/server/http_server.cpp can serve.
use chat_room.Common.{
  Option, none, [], ◌∷◌, ◌++◌, ◌==◌, ==_iff, if◌then◌else◌, ◌≡◌, refl, sym, ap, ◌∙◌, inl, inr,
  Bool-cases, Option-cases, arith, append_assoc, append-nil,
}
use chat_room.Common.Text.{Bytes, codes, text_eq}
use chat_room.Http.Request.Text.{find, starts_with}
use chat_room.Web.Server.{after_last, served, html_suffix, file_response, static_response}

-- A path without a dot has no two dots once ".html" is behind it.
no_dots : (url : Bytes) → after_last 46 url ≡ none → find (codes "..") (url ++ codes ".html") ≡ none
unfolding find starts_with after_last
no_dots [] h = refl
no_dots (x ∷ url) h = elim (Option-cases (after_last 46 url)) [
  | inl e ↦ elim (Bool-cases (x == 46)) [
    | inl f ↦ ground (arith, h, e, f)
    | inr f ↦
        let rest : find (codes "..") (url ++ codes ".html") ≡ none = no_dots url e in
        ground (arith, rest, f, ==_iff x 46)
  ]
  | inr (t, e) ↦ ground (arith, h, e)
]

module _ (files other : Bytes → Option Bytes) (webroot : Bytes)
    (agree : (url : Bytes)
      → find (codes "..") url ≡ none
      → files (webroot ++ url) ≡ other (webroot ++ url)) where
  -- The file that is tried with ".html" is one of those.
  html-agree :
      (url : Bytes)
      → after_last 46 url ≡ none
      → files (webroot ++ url ++ codes ".html") ≡ other (webroot ++ url ++ codes ".html")
  html-agree url h =
      ap files (append_assoc webroot url (codes ".html"))
      ∙ agree (url ++ codes ".html") (no_dots url h)
      ∙ ap other (sym (append_assoc webroot url (codes ".html")))

  plain-agree :
      (url : Bytes)
      → find (codes "..") url ≡ none
      → files (webroot ++ url ++ []) ≡ other (webroot ++ url ++ [])
  plain-agree url h =
      ap files (append-nil (webroot ++ url))
      ∙ agree url h
      ∙ ap other (sym (append-nil (webroot ++ url)))

  html_suffix-agree :
      (url : Bytes)
      → html_suffix files (webroot ++ url) url ≡ html_suffix other (webroot ++ url) url
  unfolding html_suffix
  html_suffix-agree url = elim (Option-cases (after_last 46 url)) [
    | inl e ↦ rw (html_suffix, e, html-agree url e) refl
    | inr (t, e) ↦ rw (html_suffix, e) refl
  ]

  served-agree :
      (url : Bytes)
      → find (codes "..") url ≡ none
      → files (webroot ++ url ++ html_suffix other (webroot ++ url) url)
        ≡ other (webroot ++ url ++ html_suffix other (webroot ++ url) url)
  unfolding html_suffix
  served-agree url h = elim (Option-cases (after_last 46 url)) [
    | inl e ↦ elim (Option-cases (other (webroot ++ url ++ codes ".html"))) [
      | inl f ↦ rw (html_suffix, e, f) (plain-agree url h)
      | inr (c, f) ↦ rw (html_suffix, e, f) (html-agree url e)
    ]
    | inr (t, e) ↦ rw (html_suffix, e) (plain-agree url h)
  ]

  file_response-agree :
      (url : Bytes)
      → find (codes "..") url ≡ none
      → file_response files webroot url ≡ file_response other webroot url
  unfolding file_response
  file_response-agree url h = rw (html_suffix-agree url) (
      ap (λ file. served file (url ++ html_suffix other (webroot ++ url) url)) (served-agree url h))

  -- What the static part of dispatch_ answers depends only on the files whose path is the web root
  -- followed by a text without "..": two file systems that agree on those give the same answer to
  -- every path of a request.
  pub static_response-agree :
      (path : Bytes) → static_response files webroot path ≡ static_response other webroot path
  unfolding static_response
  static_response-agree path =
      let url = if text_eq path (codes "/") then codes "/index.html" else path in
      elim (Option-cases (find (codes "..") url)) [
        | inl e ↦ rw (static_response, e) (file_response-agree url e)
        | inr (i, e) ↦ rw (static_response, e) refl
      ]

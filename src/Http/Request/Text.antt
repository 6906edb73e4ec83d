-- ===== src/Http/Request/Text.antt =====
-- What src/server/http_request.cpp uses of std::string: find, tolower, and stoul; and its trim.
use chat_room.Common.{
  ℕ, zero, suc, ◌+◌, ◌-◌, ◌*◌, ◌%◌, ◌^◌, ◌≡◌, refl, ap, ◌∙◌, Bool, true, false, Option, none, some,
  [], ◌∷◌, ◌++◌, ◌==◌, ==_iff, if◌then◌else◌, ltb, leb, ◌&&◌, ◌||◌, length, take, drop, map, arith,
  Bool-cases, inl, inr,
}
use chat_room.Common.Text.{Bytes, is_empty}

unfoldable pub starts_with : Bytes → Bytes → Bool
starts_with [] s = true
starts_with (x ∷ pat) [] = false
starts_with (x ∷ pat) (y ∷ s) = x == y && starts_with pat s

abbrev pub add_one : Option ℕ → Option ℕ
add_one none = none
add_one (some i) = some (suc i)

-- s.find(pat): none is npos.
unfoldable pub find : Bytes → Bytes → Option ℕ
find pat [] = if is_empty pat then some 0 else none
find pat (x ∷ s) =
    let rest = add_one (find pat s) in if starts_with pat (x ∷ s) then some 0 else rest

-- std::tolower in the C locale.
abbrev to_lower : ℕ → ℕ
to_lower c = if leb 65 c && leb c 90 then c + 32 else c

-- toLower
unfoldable pub lower : Bytes → Bytes
lower s = map to_lower s

abbrev is_blank : ℕ → Bool
is_blank c = c == 32 || c == 9 || c == 13 || c == 10

-- From find_first_not_of(" \t\r\n") on.
unfoldable pub trim_left : Bytes → Bytes
trim_left [] = []
trim_left (c ∷ s) = let rest = trim_left s in if is_blank c then rest else c ∷ s

-- Up to find_last_not_of(" \t\r\n").
unfoldable pub trim_right : Bytes → Bytes
trim_right [] = []
trim_right (c ∷ s) = let rest = trim_right s in if is_empty rest && is_blank c then [] else c ∷ rest

-- trim
unfoldable pub trim : Bytes → Bytes
trim s = trim_right (trim_left s)

abbrev pub is_digit : ℕ → Bool
is_digit c = leb 48 c && leb c 57

-- The digits that a text begins with, after the digits of `n`.
unfoldable pub digits_value : ℕ → Bytes → ℕ
digits_value n [] = n
digits_value n (c ∷ s) =
    let rest = digits_value (n * 10 + (c - 48)) s in if is_digit c then rest else n

-- A number without a sign: none where there is no digit, or where it is 2^64 or more.
abbrev unsigned : Bytes → Option ℕ
unsigned [] = none
unsigned (c ∷ s) =
    if is_digit c && ltb (digits_value 0 (c ∷ s)) (2 ^ 64)
    then some (digits_value 0 (c ∷ s))
    else none

abbrev negated : Option ℕ → Option ℕ
negated none = none
negated (some n) = some ((2 ^ 64 - n) % 2 ^ 64)

abbrev signed : Bytes → Option ℕ
signed [] = none
signed (c ∷ s) =
    if c == 45 then negated (unsigned s) else if c == 43 then unsigned s else unsigned (c ∷ s)

-- isspace in the C locale.
abbrev is_space : ℕ → Bool
is_space c = c == 32 || (leb 9 c && leb c 13)

unfoldable pub skip_space : Bytes → Bytes
skip_space [] = []
skip_space (c ∷ s) = let rest = skip_space s in if is_space c then rest else c ∷ s

-- std::stoul: none where it throws invalid_argument or out_of_range.
unfoldable pub to_number : Bytes → Option ℕ
to_number s = signed (skip_space s)

pub starts_with_lem : (pat s : Bytes) → starts_with pat s ≡ true → s ≡ pat ++ drop (length pat) s
unfolding starts_with
starts_with_lem [] s h = refl
starts_with_lem (x ∷ pat) [] h = ground (arith, h)
starts_with_lem (x ∷ pat) (y ∷ s) h = ground (arith, h, ==_iff x y, starts_with_lem pat s)

-- Where find finds a text, the text stands there.
pub find_lem :
    (pat s : Bytes) (i : ℕ) → find pat s ≡ some i → s ≡ take i s ++ pat ++ drop (i + length pat) s
unfolding find
find_lem [] [] zero h = refl
find_lem [] [] (suc i) h = ground (arith, h)
find_lem (p ∷ pat) [] i h = ground (arith, h)
find_lem pat (x ∷ s) zero h = elim (Bool-cases (starts_with pat (x ∷ s))) [
  | inl e ↦
      let zero_more : length pat ≡ 0 + length pat = omega arith in
      starts_with_lem pat (x ∷ s) e ∙ ap (λ (t : ℕ). pat ++ drop t (x ∷ s)) zero_more
  | inr e ↦ ground (arith, h, e)
]
find_lem pat (x ∷ s) (suc i) h = elim (Bool-cases (starts_with pat (x ∷ s))) [
  | inl e ↦ ground (arith, h, e)
  | inr e ↦
      let found : find pat s ≡ some i = ground (arith, h, e) in
      let one_more : suc (i + length pat) ≡ suc i + length pat = omega arith in
      ap (λ t. x ∷ t) (find_lem pat s i found)
      ∙ ap (λ (t : ℕ). x ∷ take i s ++ pat ++ drop t (x ∷ s)) one_more
]

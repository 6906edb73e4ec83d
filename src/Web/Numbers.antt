-- ===== src/Web/Numbers.antt =====
-- std::stoll, as src/server/http_handler.cpp uses it.
use chat_room.Common.{ℕ, zero, suc, ◌^◌, Option, none, some, [], ◌∷◌, ◌==◌, if◌then◌else◌, ltb, leb}
use chat_room.Common.Text.{Bytes}
use chat_room.Common.Int.{ℤ, pos, negsuc}
use chat_room.Http.Request.Text.{is_digit, digits_value, skip_space}

-- The digits of a number: none where there is no digit.
abbrev magnitude : Bytes → Option ℕ
magnitude [] = none
magnitude (c ∷ s) = if is_digit c then some (digits_value 0 (c ∷ s)) else none

abbrev minus : ℕ → ℤ
minus zero = pos 0
minus (suc n) = negsuc n

abbrev in_range : Option ℕ → Option ℤ
in_range none = none
in_range (some n) = if ltb n (2 ^ 63) then some (pos n) else none

abbrev in_range_below : Option ℕ → Option ℤ
in_range_below none = none
in_range_below (some n) = if leb n (2 ^ 63) then some (minus n) else none

abbrev signed : Bytes → Option ℤ
signed [] = none
signed (c ∷ s) =
    if c == 45
    then in_range_below (magnitude s)
    else if c == 43
    then in_range (magnitude s)
    else in_range (magnitude (c ∷ s))

-- none where it throws invalid_argument or out_of_range.
unfoldable pub to_int64 : Bytes → Option ℤ
to_int64 s = signed (skip_space s)

-- ===== src/Json.antt =====
-- nlohmann::json, which is not this repository's code: what the servers call of it.
use chat_room.Common.{ℕ, Bool, Option, List}
use chat_room.Common.Text.{Bytes}
use chat_room.Common.Int.{ℤ}

pub record Json : Type 1 where
  pub Value : Type 0
  -- json::parse: none where it throws.
  pub parse : Bytes → Option Value
  -- j.value(key, default) for a std::string: the default where an object has no such key; none where
  -- it throws type_error, since j is no object or the member is no string.
  pub value : Value → Bytes → Bytes → Option Bytes
  -- j.contains(key), which is false where j is no object.
  pub contains : Value → Bytes → Bool
  -- j[key].get<std::string>(): none where it throws.
  pub get_text : Value → Bytes → Option Bytes
  -- j.dump(): none where it throws, for a string that is not UTF-8.
  pub dump : Value → Option Bytes
  -- A json that nothing was assigned to, and j[key] = v.
  pub null : Value
  pub set : Bytes → Value → Value → Value
  -- The conversions to json.
  pub text : Bytes → Value
  pub texts : List Bytes → Value
  pub number : ℕ → Value
  pub integer : ℤ → Value
  pub flag : Bool → Value
  -- A json array of the given elements.
  pub array : List Value → Value

-- ===== src/Tcp/Users.antt =====
-- src/tcp/user_manager.{h,cpp}: the connection of every name. A Connection* is a number, and the
-- null pointer is 0. The broadcasts are in Tcp/World, with the connections that they send to.
use chat_room.Common.{
  ℕ, Bool, true, false, Option, none, some, List, [], ◌∷◌, ◌==◌, if◌then◌else◌, length, map,
}
use chat_room.Common.Text.{Bytes}
use chat_room.Common.Dict
use chat_room.Common.Dict.{Dict}
use chat_room.Common.Keys.{text_key}

abbrev pub Users : Type 0
Users = Dict Bytes ℕ

-- UserManager::add
unfoldable pub add : Bytes → ℕ → Users → Bool × Users
add username conn users =
    if Dict.has username users then (false, users) else (true, Dict.insert username conn users)

-- UserManager::remove(const std::string&)
abbrev pub remove_name : Bytes → Users → Users
remove_name username users = Dict.erase username users

-- The name of the first entry with this connection.
unfoldable pub name_of : ℕ → Users → Option Bytes
name_of conn [] = none
name_of conn ((name, c) ∷ users) =
    let rest = name_of conn users in if c == conn then some name else rest

-- UserManager::remove(Connection*)
unfoldable pub remove : ℕ → Users → Users
remove conn users = elim (name_of conn users) [ none ↦ users | some name ↦ Dict.erase name users ]

-- UserManager::get: the null pointer where the name is unknown.
unfoldable pub get : Bytes → Users → ℕ
get username users = elim (Dict.lookup username users) [ none ↦ 0 | some conn ↦ conn ]

-- UserManager::usernames
unfoldable pub usernames : Users → List Bytes
usernames users = map (λ entry. entry.0) users

-- UserManager::size
abbrev pub size : Users → ℕ
size users = length users

-- ===== src/TokenStore.antt =====
-- src/server/token_store.{h,cpp}: session tokens. The mutex makes each method one step.
pub mod Fresh
pub mod Lasting
use chat_room.Common.{
  ℕ, zero, suc, ◌+◌, ◌*◌, ◌/◌, ◌^◌, bit_and, Option, none, some, List, [], ◌∷◌, ◌++◌, get_or, add64,
}
use chat_room.Common.Text.{Bytes, codes}
use chat_room.Common.Dict
use chat_room.Common.Dict.{Dict}
use chat_room.Common.Keys.{text_key}

pub record TokenStore : Type 0 where
  pub tok2user : Dict Bytes Bytes
  pub counter : ℕ

abbrev pub init : TokenStore
init = record { tok2user = []; counter = 0 }

abbrev pub hex : Bytes
hex = codes "0123456789abcdef"

-- for(i = 15; i >= 0; --i), with `n` digits left.
unfoldable pub hex_digits : ℕ → ℕ → Bytes
hex_digits zero x = []
hex_digits (suc i) x = get_or hex (bit_and (x / 2 ^ (i * 4)) 0xf) 0 ∷ hex_digits i x

-- makeToken
unfoldable pub make_token : ℕ → Bytes
unfolding hex_digits
make_token n = codes "tok_" ++ hex_digits 16 n

-- TokenStore::issue
unfoldable pub issue : Bytes → TokenStore → Bytes × TokenStore
issue username s =
    let next = add64 s.counter 1 in
    let tok = make_token next in
    (tok, record { tok2user = Dict.insert tok username s.tok2user; counter = next })

-- TokenStore::lookup: the empty string where there is no such token.
unfoldable pub lookup : Bytes → TokenStore → Bytes
lookup token s = elim (Dict.lookup token s.tok2user) [ none ↦ [] | some user ↦ user ]

-- TokenStore::revoke
unfoldable pub revoke : Bytes → TokenStore → TokenStore
revoke token s = record s { tok2user = Dict.erase token s.tok2user }

-- ===== src/Tests/Tokens.antt =====
-- The theorems on src/server/token_store.cpp at concrete stores.
use chat_room.Common.{◌≡◌, ◌≢◌, refl, ap, [], ◌∷◌, arith, length}
use chat_room.Common.Text.{Bytes, codes}
use chat_room.TokenStore.{TokenStore, init, issue, revoke, lookup, make_token}
use chat_room.TokenStore.Lasting.{lookup-run-issue}
use chat_room.TokenStore.Fresh.{
  issue_op, revoke_op, run, IsFresh, init-IsFresh, lookup-run-revoke, run-IsFresh,
}

abbrev alice : Bytes
alice = codes "alice"

abbrev one_session : TokenStore
one_session = (issue alice init).1

lookup-run-issue_example :
    (lookup
        (issue alice init).0
        (run (issue_op (codes "bob") ∷ revoke_op (codes "tok") ∷ []) one_session)
      ≡ alice)
    × ((issue alice (run (issue_op (codes "bob") ∷ revoke_op (codes "tok") ∷ []) one_session)).0
        ≢ (issue alice init).0)
unfolding issue make_token
lookup-run-issue_example =
    lookup-run-issue alice alice (issue_op (codes "bob") ∷ revoke_op (codes "tok") ∷ []) init
      (omega arith) (tt, (λ e. absurd (omega (arith, ap length e)), tt))

lookup-run-revoke_example :
    lookup (make_token 1) (run (issue_op alice ∷ []) (revoke (make_token 1) one_session)) ≡ []
unfolding issue
lookup-run-revoke_example =
    lookup-run-revoke (issue_op alice ∷ []) 1 one_session (omega arith) (omega arith)

run-IsFresh_example : IsFresh (run (issue_op alice ∷ revoke_op (make_token 1) ∷ []) init)
run-IsFresh_example =
    run-IsFresh (issue_op alice ∷ revoke_op (make_token 1) ∷ []) init init-IsFresh (omega arith)

first_token : make_token 1 ≡ codes "tok_0000000000000001"
unfolding make_token
first_token = refl

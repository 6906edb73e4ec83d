-- ===== src/TokenStore/Lasting.antt =====
-- A token of src/server/token_store.cpp names its user until it is revoked, and is not given out again.
use chat_room.Common.{
  ℕ, ◌+◌, ◌^◌, ◌≤◌, ◌<◌, ◌≡◌, ◌≢◌, refl, sym, ap, subst, ◌∙◌, List, [], ◌∷◌, arith, length, All,
  add64,
}
use chat_room.Common.Text.{Bytes, text_eq_iff, text_eq_refl}
use chat_room.Common.Dict.{lookup-insert}
use chat_room.Common.Keys.{text_key}
use chat_room.TokenStore.{TokenStore, make_token, issue, lookup, revoke}
use chat_room.TokenStore.Fresh.{
  Op, issue_op, revoke_op, run, issued, issue_counter, revoke_counter, lookup-issue_old,
  lookup-revoke, make_token_injective,
}

-- The call does not revoke the token.
abbrev pub Spares : Bytes → Op → Type 0
Spares token (issue_op user) = Unit
Spares token (revoke_op t) = t ≢ token

lookup-run :
    (ops : List Op) (k : ℕ) (s : TokenStore)
    → k ≤ s.counter
    → s.counter + length ops < 2 ^ 64
    → All (Spares (make_token k)) ops
    → lookup (make_token k) (run ops s) ≡ lookup (make_token k) s
lookup-run [] k s h b spared = refl
lookup-run (issue_op user ∷ ops) k s h b spared =
    let c : s.counter + 1 < 2 ^ 64 = omega (arith, b) in
    lookup-run ops k (issue user s).1 (rw (issue_counter user s c) (omega (arith, h)))
      (rw (issue_counter user s c) (omega (arith, b))) spared.1
    ∙ lookup-issue_old user k s h c
lookup-run (revoke_op t ∷ ops) k s h b spared =
    lookup-run ops k (revoke t s) (rw (revoke_counter t s) h)
      (rw (revoke_counter t s) (omega (arith, b))) spared.1
    ∙ lookup-revoke (make_token k) t s
    ∙ ground (arith, text_eq_iff t (make_token k), spared.0)

-- Every call but revoke counts.
run_counter :
    (ops : List Op) (s : TokenStore)
    → s.counter + length ops < 2 ^ 64
    → (s.counter ≤ (run ops s).counter) × ((run ops s).counter ≤ s.counter + length ops)
run_counter [] s b = (omega arith, omega arith)
run_counter (issue_op user ∷ ops) s b =
    let c = issue_counter user s (omega (arith, b)) in
    let r = run_counter ops (issue user s).1 (omega (arith, b, c)) in
    (omega (arith, r, c), omega (arith, r, c))
run_counter (revoke_op t ∷ ops) s b =
    let c = revoke_counter t s in
    let r = run_counter ops (revoke t s) (omega (arith, b, c)) in
    (omega (arith, r, c), omega (arith, r, c))

lookup-issue : (user : Bytes) (s : TokenStore) → lookup (issue user s).0 (issue user s).1 ≡ user
unfolding issue lookup
lookup-issue user s =
    let new = make_token (add64 s.counter 1) in
    rw (lookup, lookup-insert new new user s.tok2user, text_eq_refl new) refl

issue_token :
    (user : Bytes) (s : TokenStore)
    → s.counter + 1 < 2 ^ 64
    → (issue user s).0 ≡ make_token (s.counter + 1)
unfolding issue
issue_token user s b = ap make_token (issued s b)

-- A token that issue gives names its user after any later calls of issue and revoke that do not revoke
-- it, and the next token that issue then gives is another one, where the tokens given out before and
-- the later calls are fewer than 2^64 - 2 together.
pub lookup-run-issue :
    (user other : Bytes) (ops : List Op) (s : TokenStore)
    → s.counter + length ops + 2 < 2 ^ 64
    → All (Spares (issue user s).0) ops
    → (lookup (issue user s).0 (run ops (issue user s).1) ≡ user)
      × ((issue other (run ops (issue user s).1)).0 ≢ (issue user s).0)
lookup-run-issue user other ops s b spared =
    let t = issue_token user s (omega (arith, b)) in
    let c = issue_counter user s (omega (arith, b)) in
    let r = run_counter ops (issue user s).1 (omega (arith, b, c)) in
    let later = issue_token other (run ops (issue user s).1) (omega (arith, b, c, r)) in
    (
      ap (λ k. lookup k (run ops (issue user s).1)) t
          ∙ lookup-run ops (s.counter + 1) (issue user s).1 (omega (arith, c)) (omega (arith, b, c))
              (subst (λ k. All (Spares k) ops) t spared)
          ∙ ap (λ k. lookup k (issue user s).1) (sym t)
          ∙ lookup-issue user s,
      λ e.
          let same =
            make_token_injective ((run ops (issue user s).1).counter + 1) (s.counter + 1)
              (omega (arith, b, c, r)) (omega (arith, b)) (sym later ∙ e ∙ t) in
          absurd (omega (arith, same, r, c)),
    )

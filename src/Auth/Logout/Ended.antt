-- ===== src/Auth/Logout/Ended.antt =====
-- What a logout leaves.
use rize_backend.Base.{
  String, ◌≡◌, refl, sym, ap, ◌∙◌, inl, inr, true, false, ◌&&◌, some, List, [], ◌∷◌, In,
}
use rize_backend.Base.{str_eq}
use rize_backend.Base.Action.Ensures.{Ensures, pure_then, read_then}
use rize_backend.Base.Result.{ok}
use rize_backend.Auth.{revoke_family, Env, parse_id}
use rize_backend.Auth.Tables
use rize_backend.Auth.Tables.{
  RefreshToken, Tables, is_live, set_where, revoke_refresh_token_family_for_user,
}
use rize_backend.Auth.Tables.Live.{HasOneLive, revoked-HasOneLive, set_where-revoke}
use rize_backend.Auth.Rules.{or_missing-eq-ok, require-eq-ok, exec-Ensures}
use rize_backend.Auth.Logout.{logout}

-- An answered logout: the token's family belongs to the caller, and none of its tokens is live.
pub record IsEnded (env : Env) (user_id refresh_token : String) (t u : Tables) : Type 0 where
  pub uid : String
  pub caller : parse_id env user_id ≡ ok uid
  pub current : RefreshToken
  pub found :
      Tables.get_refresh_token_by_hash (env.hash_token (env.trim refresh_token)) t.tokens
      ≡ some current
  pub own : str_eq current.user_id uid ≡ true
  pub none_live :
      (x : RefreshToken)
      → In x u.tokens
      → str_eq x.family_id current.family_id ≡ true
      → str_eq x.user_id uid ≡ true
      → is_live x ≡ false
  pub others :
      (x : RefreshToken)
      → In x t.tokens
      → str_eq x.family_id current.family_id ≡ false
      → In x u.tokens

others_kept :
    (env : Env) (family uid : String) (tokens : List RefreshToken) (x : RefreshToken)
    → In x tokens
    → str_eq x.family_id family ≡ false
    → In x (revoke_refresh_token_family_for_user env.db_now family uid tokens)
unfolding set_where
others_kept env family uid [] x m n = absurd m
others_kept env family uid (y ∷ tokens) x (inl e) n =
    let here : str_eq y.family_id family ≡ false =
      ap (λ (z : RefreshToken). str_eq z.family_id family) (sym e) ∙ n in
    inl (rw here e)
others_kept env family uid (y ∷ tokens) x (inr m) n = inr (others_kept env family uid tokens x m n)

module _ (env : Env) (user_id refresh_token : String) (t : Tables) where
  -- An answered logout found the presented token, a token of the caller, leaves no token of that
  -- token's family and user live, and keeps the rows of every other family. One that returns an
  -- error leaves the tables as they were.
  pub logout-IsEnded :
      Ensures
        (λ _ u. IsEnded env user_id refresh_token t u)
        (λ _ u. u ≡ t)
        (logout env user_id refresh_token)
        t
  unfolding logout
  logout-IsEnded =
      pure_then _
        (λ _ _.
          pure_then _
            (λ uid caller.
              read_then _
                (λ current found.
                  pure_then _
                    (λ _ own.
                      exec-Ensures env revoke_family _ _ (λ _. refl)
                        (record {
                          uid = uid;
                          caller = caller;
                          current = current;
                          found = or_missing-eq-ok _ _ _ _ _ found;
                          own = require-eq-ok _ _ _ own;
                          none_live = λ x m f u.
                              set_where-revoke env.db_now
                                (λ y. str_eq y.family_id current.family_id && str_eq y.user_id uid)
                                (λ y. refl) t.tokens x m (rw (f, u) refl);
                          others = λ x m n. others_kept env current.family_id uid t.tokens x m n;
                        }))
                    (λ _ _. refl))
                (λ _ _. refl))
            (λ _ _. refl))
        (λ _ _. refl)

  pub logout-HasOneLive :
      HasOneLive t.tokens
      → Ensures
          (λ _ u. HasOneLive u.tokens)
          (λ _ u. HasOneLive u.tokens)
          (logout env user_id refresh_token)
          t
  unfolding logout
  logout-HasOneLive h =
      pure_then _
        (λ _ _.
          pure_then _
            (λ uid _.
              read_then _
                (λ current _.
                  pure_then _
                    (λ _ _.
                      exec-Ensures env revoke_family _ _ (λ _. h)
                        (revoked-HasOneLive env.db_now t.tokens h _))
                    (λ _ _. h))
                (λ _ _. h))
            (λ _ _. h))
        (λ _ _. h)

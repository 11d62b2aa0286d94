-- ===== src/Tests/Tokens.antt =====
-- Revoked tokens.
use go_rest_api_service_temp.Base.{◌≡◌, refl, true, none, some, [], ◌∷◌}
use go_rest_api_service_temp.Revoked.{
  RevokedAccessTokens, new_revoked_access_tokens, is_revoked, add, revoke, tick, run_revoked,
}
use go_rest_api_service_temp.Revoked.Refusal.{add-is_revoked}

add-is_revoked_example :
    is_revoked
      (run_revoked
        (add new_revoked_access_tokens "a" 50)
        (tick none 1 2 ∷ revoke "b" 9 ∷ tick (some []) 48 49 ∷ []))
      "a"
    ≡ true
add-is_revoked_example =
    add-is_revoked new_revoked_access_tokens "a" 50
      (tick none 1 2 ∷ revoke "b" 9 ∷ tick (some []) 48 49 ∷ []) refl refl

abbrev two : RevokedAccessTokens
two = record {
  remote = "z" ∷ [];
  local = ("a", 50) ∷ ("b", 9) ∷ [];
  last_reload = 1;
  reload_failures = 0;
}

-- ===== src/Store/Registration/Examples.antt =====
-- Tests of the registration tokens of internal/store/credits.go.
use local_ai_proxy.Prelude.{refl, Bool, true, false, none, List, [], ◌∷◌, arith, ℕ_key, String_key}
use local_ai_proxy.Prelude.Int.{pos, ◌≤ℤ◌}
use local_ai_proxy.Prelude.Dict.{lookup}
use local_ai_proxy.Store.Directory.{no_directory, RegistrationToken}
use local_ai_proxy.Store.Sql.{World}
use local_ai_proxy.Store.Registration.Tokens.{opened_with}
use local_ai_proxy.Store.Registration.Calls.{opens_service, Moment, run, run-opened_with}

abbrev single_use : RegistrationToken
single_use = record {
  token_hash = "t";
  credit_grant = pos 7;
  max_uses = pos 1;
  uses = pos 0;
  expires_at = none;
  revoked = false;
}

abbrev one_token : World
one_token = record {
  db = record {
    accounts = [];
    balances = [];
    holds = [];
    transactions = [];
    hold_seq = 0;
    nodes = [];
    node_seq = 0;
    requests = [];
    request_seq = 0;
    directory = record no_directory { tokens = (1, single_use) ∷ []; token_seq = 1 };
  };
  now = 5;
  faults = [];
}

abbrev later : List Bool → Moment
later faults = record { at = 6; faults = faults }

-- Two services use the token, and a third call fails on the way.
run-opened_with_example :
    pos (
      opened_with 1
        (run
          ((later [], opens_service "t" "k2" (pos 60))
            ∷ (later [], opens_service "t" "k1" (pos 60))
            ∷ (later (false ∷ true ∷ []), opens_service "t" "k1" (pos 60))
            ∷ [])
          one_token).db.directory.events)
    ≤ℤ pos 1
unfolding lookup opened_with
run-opened_with_example =
    run-opened_with 1 single_use
      ((later [], opens_service "t" "k2" (pos 60))
        ∷ (later [], opens_service "t" "k1" (pos 60))
        ∷ (later (false ∷ true ∷ []), opens_service "t" "k1" (pos 60))
        ∷ [])
      one_token (refl, tt) refl (omega arith) (omega arith)

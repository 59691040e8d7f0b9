-- ===== src/Store/Directory.antt =====
-- internal/store/schema.sql and the structs of internal/store: the tables of the people and the
-- programs that use the proxy, with the sequences behind their ids. Columns that are only shown
-- (names, prefixes, dates of creation) are left out.
use local_ai_proxy.Prelude.{ℕ, Bool, Option, String, List, []}
use local_ai_proxy.Prelude.Int.{ℤ}
use local_ai_proxy.Prelude.Dict.{Dict}

pub record User : Type 0 where
  pub email : String
  pub password_hash : String
  pub role : String
  pub is_active : Bool
  pub account_id : Option ℕ

pub record Session : Type 0 where
  pub user_id : ℕ
  pub token_hash : String
  pub expires_at : ℕ

-- A row of `api_keys`.
pub record KeyRow : Type 0 where
  pub key_hash : String
  pub rate_limit : ℤ
  pub revoked : Bool
  pub user_id : Option ℕ
  pub account_id : Option ℕ
  pub session_token_limit : Option ℤ
  pub trust_user_headers : Bool

pub record RegistrationToken : Type 0 where
  pub token_hash : String
  pub credit_grant : ℤ
  pub max_uses : ℤ
  pub uses : ℤ
  pub expires_at : Option ℕ
  pub revoked : Bool

-- A row of `federated_identities`.
pub record IdentityRow : Type 0 where
  pub source : String
  pub external_id : String
  pub account_id : ℕ
  pub email : String
  pub display_name : String

pub record RegistrationEvent : Type 0 where
  pub kind : String
  pub account_id : Option ℕ
  pub user_id : Option ℕ
  pub token_id : Option ℕ
  pub source : String

-- `events` has the newest row first.
pub record Directory : Type 0 where
  pub users : Dict ℕ User
  pub sessions : Dict ℕ Session
  pub keys : Dict ℕ KeyRow
  pub tokens : Dict ℕ RegistrationToken
  pub identities : Dict ℕ IdentityRow
  pub events : List RegistrationEvent
  pub account_seq : ℕ
  pub user_seq : ℕ
  pub session_seq : ℕ
  pub key_seq : ℕ
  pub token_seq : ℕ
  pub identity_seq : ℕ

-- What a rollback leaves: the tables from before, the sequences from after.
abbrev pub restore : Directory → Directory → Directory
restore before after = record before {
  account_seq = after.account_seq;
  user_seq = after.user_seq;
  session_seq = after.session_seq;
  key_seq = after.key_seq;
  token_seq = after.token_seq;
  identity_seq = after.identity_seq;
}

abbrev pub no_directory : Directory
no_directory = record {
  users = [];
  sessions = [];
  keys = [];
  tokens = [];
  identities = [];
  events = [];
  account_seq = 0;
  user_seq = 0;
  session_seq = 0;
  key_seq = 0;
  token_seq = 0;
  identity_seq = 0;
}

-- ===== src/Session/Examples.antt =====
-- A user of the organisation "admin".
use neural_vyuha_prime.Common.{none, some, []}
use neural_vyuha_prime.Session.{Account, Session}

abbrev root : Account
root = record {
  login = "root";
  organisation = "admin";
  permissions = [];
  token = none;
  home_state = none;
}

abbrev signed_in : Session
signed_in = record { token = some "t1"; current_user = some root; user_cache = [] }

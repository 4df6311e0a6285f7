-- ===== src/Sentinel/Tests.antt =====
-- The authentication on a database in memory: one account, its sessions and its PIN, and the theorems
-- at these databases. In place of the cryptographic functions stand some that can be computed.
use api_v.Base.{
  ℕ, ◌≡◌, refl, true, false, not, ◌&&◌, none, some, List, [], ◌∷◌, Text, codes, same, same_iff, ltb,
  ok, err, unauthorized, arith, Every,
}
use api_v.Database.Memory.{memory, memory-IsLawful}
use api_v.Sentinel.{
  client_role, client_app, PhoneRow, UserRow, SecretRow, TokenRow, UserEntity, Client, Store,
  IsLawfulClient, find_by_id, find_by_phone,
}
use api_v.Sentinel.Sessions.{Renewed, check_refresh, refresh, logout, create, thirty_days_after}
use api_v.Sentinel.Sessions.Steps.{here, next, step_logout, IsDistinct}
use api_v.Sentinel.Sessions.Once.{used_once, logged_out}
use api_v.Sentinel.Sessions.Rotation.{IsRotated, refresh-IsRotated, check_refresh-refresh}
use api_v.Sentinel.Pins.{
  check_pin, check_login, check_account, check_change, check_created_pin, check_reset_pin,
  check_changed_pin, change_pin, one_hour_after,
}
use api_v.Sentinel.Pins.Rules.{passes, is_acceptable, new_pin_rules}
use api_v.Sentinel.Pins.Tries.{IsEntity, IsChecked, check_pin-IsChecked}
use api_v.Sentinel.Pins.Guessing.{IsKnown, logins, fifth_wrong_pin-blocks}
use api_v.Sentinel.Pins.Changing.{IsPinOf, change_pin-IsPinOf}

abbrev server : Client
server = record {
  phones = memory (λ p. p.id);
  users = memory (λ u. u.id);
  secrets = memory (λ s. s.client_id);
  tokens = memory (λ t. t.id);
  digest = λ text. text;
  compare = λ pin hash. same (36 ∷ pin) hash;
  salted = λ salt pin. 36 ∷ pin;
}

server-IsLawfulClient : IsLawfulClient server
server-IsLawfulClient = record {
  phones = memory-IsLawful (λ p. p.id);
  users = memory-IsLawful (λ u. u.id);
  secrets = memory-IsLawful (λ s. s.client_id);
  tokens = memory-IsLawful (λ t. t.id);
  compare-salted = λ salt pin. (same_iff (36 ∷ pin) (36 ∷ pin)).1 refl;
}

abbrev number : Text
number = codes "+2250700000000"

abbrev awa : UserRow
awa = record {
  id = 0;
  phone_id = 0;
  phone = number;
  role = client_role;
  is_verified = true;
  is_active = true;
  deleted_at = none;
}

abbrev pin : Text
pin = codes "7391"

abbrev secret : SecretRow
secret = record { client_id = 0; secret_hash = 36 ∷ pin; fail_count = 0; blocked_until = none }

abbrev session : TokenRow
session = record {
  id = 0;
  user_id = 0;
  token_hash = codes "first";
  device_info = none;
  ip_address = none;
  platform = some (codes "ANDROID");
  is_revoked = false;
  expires_at = 1000;
  last_used_at = 0;
}

abbrev phone : PhoneRow
phone = record {
  id = 0;
  number = number;
  client_user_id = some 0;
  professional_user_id = none;
  deleted_at = none;
}

abbrev database : Store server
database = record {
  phones = record { size = 1; slot = λ i. some phone };
  users = record { size = 1; slot = λ i. some awa };
  secrets = record { size = 1; slot = λ i. some secret };
  tokens = record { size = 1; slot = λ i. some session };
}

abbrev account : UserEntity
account = record { user = awa; client_secret = some secret }

handlers : Unit {0}
unfolding find_by_id find_by_phone check_refresh refresh create logout check_pin check_account
    check_login check_changed_pin check_change change_pin same
handlers = tt

abbrev answer : Renewed
answer = record { sub = 0; phone = number; role = client_role; refresh_token = codes "second" }

refresh-first : (refresh server 900 (codes "first") (codes "second") database).0 ≡ ok answer
unfolding handlers
refresh-first = refl

database-IsDistinct : IsDistinct server database
unfolding IsDistinct
database-IsDistinct i j t u h k s = ground arith

used_once_example :
    refresh server 950
      (codes "first")
      (codes "third")
      (logout server false 0 none (refresh server 900 (codes "first") (codes "second") database).1)
    ≡ (
      err (unauthorized "Session expirée. Reconnectez-vous."),
      logout server false 0 none (refresh server 900 (codes "first") (codes "second") database).1,
    )
used_once_example =
    used_once server server-IsLawfulClient database
      (logout server false 0 none (refresh server 900 (codes "first") (codes "second") database).1)
      900 950 (codes "first") (codes "second") (codes "third") answer database-IsDistinct
      refresh-first (next here (step_logout false 0 none))

logged_out_example :
    refresh server 950 (codes "first") (codes "second") (logout server true 0 none database)
    ≡ (err (unauthorized "Session expirée. Reconnectez-vous."), logout server true 0 none database)
logged_out_example =
    logged_out server server-IsLawfulClient database (logout server true 0 none database) 0 session
      none 950 (codes "first") (codes "second") database-IsDistinct refl refl here

refresh-IsRotated_example :
    IsRotated server 900
      (codes "first")
      (codes "second")
      database
      answer
      (refresh server 900 (codes "first") (codes "second") database).1
refresh-IsRotated_example =
    refresh-IsRotated server server-IsLawfulClient 900 (codes "first") (codes "second") database
      answer refresh-first

check_refresh-refresh_example :
    (n : TokenRow) × (u : UserEntity) × (check_refresh server 2000 answer.refresh_token
        (refresh server 900 (codes "first") (codes "second") database).1
      ≡ ok (n, u))
    × (u.user.id ≡ answer.sub)
    × (n.expires_at ≡ thirty_days_after 900)
check_refresh-refresh_example =
    check_refresh-refresh server server-IsLawfulClient 900 2000 (codes "first") (codes "second")
      database answer database-IsDistinct refresh-first (omega arith)

new_pin_rules_example :
    (passes (check_created_pin (codes "7391") (codes "7391"))
      ≡ is_acceptable (codes "7391") (codes "7391"))
    × (passes (check_reset_pin (codes "7391") (codes "7391"))
        ≡ is_acceptable (codes "7391") (codes "7391"))
    × (passes (check_changed_pin (codes "2468") (codes "7391") (codes "7391"))
        ≡ (is_acceptable (codes "7391") (codes "7391") && not (same (codes "2468") (codes "7391"))))
new_pin_rules_example = new_pin_rules (codes "2468") (codes "7391") (codes "7391")

account-IsEntity : IsEntity server database account secret
account-IsEntity = record { secret = refl; stored = refl }

account-IsKnown : IsKnown server database number client_app account secret
unfolding handlers
account-IsKnown = record { named = refl; entity = account-IsEntity; active = refl; usable = refl }

check_pin-IsChecked_example :
    IsChecked server 7
      (server.compare pin secret.secret_hash)
      database
      account
      secret
      (check_pin server (unauthorized "PIN incorrect.") 7 pin account database)
check_pin-IsChecked_example =
    check_pin-IsChecked server server-IsLawfulClient (unauthorized "PIN incorrect.") 7 pin account
      secret database account-IsEntity

abbrev guesses : List (ℕ × Text)
guesses = (1, codes "0001") ∷ (2, codes "0002") ∷ (3, codes "0003") ∷ (4, codes "0004") ∷ []

all_wrong : Every (λ t. server.compare t.1 secret.secret_hash ≡ false) guesses
unfolding same
all_wrong = (refl, (refl, (refl, (refl, tt))))

last_wrong : server.compare (codes "0005") secret.secret_hash ≡ false
unfolding same
last_wrong = refl

fifth_wrong_pin-blocks_example :
    (passes
        (check_login server 100 number client_app pin
          (logins server number client_app guesses database)).0
      ≡ server.compare pin secret.secret_hash)
    × (passes
          (check_login server 100 number client_app pin
            (check_login server 5 number client_app
              (codes "0005")
              (logins server number client_app guesses database)).1).0
        ≡ (not (ltb 100 (one_hour_after 5)) && server.compare pin secret.secret_hash))
fifth_wrong_pin-blocks_example =
    fifth_wrong_pin-blocks server server-IsLawfulClient number client_app guesses 5 100
      (codes "0005") pin database account secret account-IsKnown refl refl refl all_wrong last_wrong

change_pin-first : (change_pin server 7 3 0 pin (codes "8642") (codes "8642") database).0 ≡ ok tt
unfolding handlers
change_pin-first = refl

change_pin-IsPinOf_example :
    IsPinOf server
      (change_pin server 7 3 0 pin (codes "8642") (codes "8642") database).1
      0
      (codes "8642")
change_pin-IsPinOf_example =
    change_pin-IsPinOf server server-IsLawfulClient 7 3 0 pin (codes "8642") (codes "8642") database
      change_pin-first

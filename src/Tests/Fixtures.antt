-- ===== src/Tests/Fixtures.antt =====
-- A browser, a server that answers every request with a 401, and a cache.
use mantis_dns.Base.{true, false, none, some, List, [], ◌∷◌, ◌≡◌, refl}
use mantis_dns.Base.Text.{Text, codes, trim_start}
use mantis_dns.Base.Json.{Json, null, bool, num, str, arr, obj}
use mantis_dns.Base.Json.Codec.{write, json_text, read_json, read_json-json_text}
use mantis_dns.Base.Platform.{Platform, IsFaithful}
use mantis_dns.Api.Client.{answered, complete, Window}
use mantis_dns.Api.Client.Typed.{returned}
use mantis_dns.Api.Client.Run.{Network}
use mantis_dns.Api.Client.Cookie.Jar.{document_cookie}
use mantis_dns.Auth.Roles.{AuthUser, operator}

abbrev pub platform : Platform
platform = record {
  parse = read_json;
  parse_error = λ t. codes "unexpected token";
  stringify = json_text;
  decode_uri = λ t. some t;
  uri_error = λ t. codes "URI malformed";
  resolve_url = λ url base. url;
  set_params = λ url params. url;
}

trim_start-json_text : (v : Json) → trim_start (json_text v) ≡ json_text v
unfolding trim_start write
trim_start-json_text null = refl
trim_start-json_text (bool true) = refl
trim_start-json_text (bool false) = refl
trim_start-json_text (num n) = refl
trim_start-json_text (str s) = refl
trim_start-json_text (arr vs) = refl
trim_start-json_text (obj ms) = refl

pub platform-IsFaithful : IsFaithful platform
unfolding read_json
platform-IsFaithful = record {
  parse-stringify = read_json-json_text;
  trim_start-stringify = trim_start-json_text;
  parse_empty = refl;
}

abbrev pub jar : List (Text × Text)
jar =
    (codes "x_mantis_csrf", codes "no")
    ∷ (codes "mantis_csrf", codes "t0k")
    ∷ (codes "theme", codes "dark")
    ∷ []

abbrev pub page : Window
page = record {
  origin = some (codes "https://dns.example");
  pathname = codes "/tenants/7";
  cookie = document_cookie jar;
  vite_api_url = none;
}

abbrev pub refusing : Network
refusing = record {
  fetch = λ wire. answered (record {
    status = 401;
    status_text = codes "Unauthorized";
    body = complete (codes "Not authenticated");
  });
  exchange = λ req headers.
      returned
        (record { payload = none; error = some (str (codes "Not authenticated")); status = 401 });
}

abbrev pub accepting : Network
accepting = record {
  fetch = λ wire.
      answered (record { status = 204; status_text = codes "No Content"; body = complete [] });
  exchange = λ req headers. returned (record { payload = none; error = none; status = 204 });
}

abbrev pub alice : AuthUser
alice = record { id = "u1"; email = "alice@example.com"; role = operator; tenant_id = none }

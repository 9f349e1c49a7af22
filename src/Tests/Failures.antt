-- ===== src/Tests/Failures.antt =====
-- The errors that a user reads, at concrete inputs.
use mantis_dns.Base.{some, [], ◌∷◌, ◌++◌, map, ◌≡◌, refl, arith}
use mantis_dns.Base.Text.{Text, codes, join}
use mantis_dns.Base.Json.{Json, str, null, obj, arr, of_list, end, keyed}
use mantis_dns.Base.Json.Codec.{json_text}
use mantis_dns.Api.Errors.{prefix_of}
use mantis_dns.Api.Errors.Laws.{detail_body, entry, entry_text}
use mantis_dns.Api.Client.{Response, complete, settle}
use mantis_dns.Api.Client.Typed.{unwrap}
use mantis_dns.Api.Client.Failures.{shown, failed, shown-settle_validation, unwrap-validation}
use mantis_dns.Tests.Fixtures.{platform, platform-IsFaithful}

abbrev conflict : Response
conflict = record {
  status = 409;
  status_text = codes "Conflict";
  body = complete (json_text (detail_body (str (codes "subnet in use"))));
}

abbrev bad_name : Json × Text
bad_name = (null, codes "name too long")

abbrev bad_zone : Json × Text
bad_zone = (null, codes "no such zone")

abbrev invalid : Response
invalid = record {
  status = 422;
  status_text = codes "Unprocessable Entity";
  body = complete (json_text (detail_body (arr (of_list (map entry (bad_name ∷ bad_zone ∷ []))))));
}

shown-settle_validation_example :
    shown platform (settle platform invalid)
    ≡ some (
        prefix_of 422
        ++ codes ": "
        ++ join (codes "; ") (map entry_text (bad_name ∷ bad_zone ∷ [])))
unfolding prefix_of join
shown-settle_validation_example =
    shown-settle_validation platform platform-IsFaithful invalid bad_name (bad_zone ∷ [])
      (omega arith) (omega arith) refl refl (refl, refl)

unwrap-validation_example :
    unwrap platform (failed 422 (detail_body (arr (of_list (map obj (end ∷ []))))))
    ≡ unwrap platform (
        failed 422
          (detail_body (arr (of_list (map obj (keyed "msg" (str (codes "too long")) end ∷ []))))))
unwrap-validation_example =
    unwrap-validation platform 422 (end ∷ []) (keyed "msg" (str (codes "too long")) end ∷ []) refl

-- ===== src/Accounts/Settings.antt =====
-- apps/ui/src/pages/SettingsPage.tsx: the syslog sinks and the change of a password.
use mantis_dns.Base.{
  ℕ, String, Bool, true, not, ◌&&◌, Option, none, some, [], ◌++◌, all, length, if◌then◌else◌, leb,
}
use mantis_dns.Base.Text.{Text, codes, is_empty, text_eq, trim}
use mantis_dns.Base.Json.{Json, bool, num, str, obj, keyed, end}
use mantis_dns.Base.Platform.{Platform}
use mantis_dns.Api.Outcome.{Outcome, value, thrown}
use mantis_dns.Api.Errors.{format_error}
use mantis_dns.Api.Mutations.{
  MutationHook, create_siem_syslog_sink, update_siem_syslog_sink, change_password,
}

pub record SinkForm : Type 0 where
  pub name : Text
  pub host : Text
  pub port : ℕ
  pub transport : Text
  pub format : Text
  pub facility : ℕ
  pub app_name : Text
  pub batch_size : ℕ
  pub flush_interval_s : ℕ
  pub filter_decision : Text
  pub enabled : Bool

abbrev pub initial_sink : SinkForm
initial_sink = record {
  name = [];
  host = [];
  port = 514;
  transport = codes "tls";
  format = codes "cef";
  facility = 16;
  app_name = codes "mantis-dns";
  batch_size = 200;
  flush_interval_s = 30;
  filter_decision = codes "all";
  enabled = true;
}

-- `/^[!-~]+$/`.
abbrev pub is_printable : Text → Bool
is_printable s = not (is_empty s) && all (λ c. leb b'!' c && leb c b'~') s

-- `validate`.
unfoldable pub sink_valid : SinkForm → Bool
unfolding trim
sink_valid v =
    leb 2 (length (trim v.name))
    && not (is_empty (trim v.host))
    && leb 1 v.port
    && leb v.port 65535
    && is_printable v.app_name

unfoldable sink_json : SinkForm → Json
sink_json v = obj (
    keyed "name" (str v.name) (
      keyed "host" (str v.host) (
        keyed "port" (num v.port) (
          keyed "transport" (str v.transport) (
            keyed "format" (str v.format) (
              keyed "facility" (num v.facility) (
                keyed "app_name" (str v.app_name) (
                  keyed "batch_size" (num v.batch_size) (
                    keyed "flush_interval_s" (num v.flush_interval_s) (
                      keyed "filter_decision" (str v.filter_decision)
                        (keyed "enabled" (bool v.enabled) end)))))))))))

unfoldable submit_sink : SinkForm → Option MutationHook
unfolding sink_valid sink_json
submit_sink v = if sink_valid v then some (create_siem_syslog_sink (sink_json v)) else none

-- `SiemSyslogOut`, less what the handlers do not read.
pub record Sink : Type 0 where
  pub id : String
  pub name : Text
  pub transport : Text
  pub enabled : Bool

unfoldable toggle_sink : Sink → MutationHook
toggle_sink s = update_siem_syslog_sink (s.id, obj (keyed "enabled" (bool (not s.enabled)) end))

-- The answer to a test.
record TestResult : Type 0 where
  pub success : Bool
  pub error : Text

-- The message and the colour after a test.
unfoldable test_notice : Platform → Sink → Outcome TestResult → Text × String
unfolding format_error
test_notice p s (thrown e) = (format_error p e, "red")
test_notice p s (value r) = (
  if r.success
      then if text_eq s.transport (codes "udp")
        then s.name ++ codes ": sent (UDP — delivery not confirmed)"
        else s.name ++ codes ": sent"
      else s.name ++ codes ": failed — " ++ r.error,
  if r.success then "green" else "red",
)

pub record PasswordForm : Type 0 where
  pub current_password : Text
  pub new_password : Text
  pub confirm_password : Text

-- `validate`.
unfoldable pub password_valid : PasswordForm → Bool
password_valid v =
    not (is_empty v.current_password)
    && leb 12 (length v.new_password)
    && text_eq v.confirm_password v.new_password

unfoldable submit_password : PasswordForm → Option MutationHook
unfolding password_valid
submit_password v =
    if password_valid v
    then some (
        change_password (
          obj (
            keyed "current_password" (str v.current_password)
              (keyed "new_password" (str v.new_password) end))))
    else none

-- ===== src/Tests/Policies.antt =====
-- Policies of MTA-STS.
use smtp_server.Base.{◌≡◌, refl, [], ◌∷◌, some, inr, arith, Bytes, true, false, bytes_eq}
use smtp_server.MtaSts.Text.{trim}
use smtp_server.MtaSts.Policy.{MxPattern, Policy, equals, starts_with, enforce, parse, verify}
use smtp_server.MtaSts.Policy.Printed.{PatternFits, policy_text, parse-policy_text}
use smtp_server.MtaSts.Policy.Total.{IsAnswer, parse-IsAnswer}
use smtp_server.Tests.Samples.{codes}

abbrev unchanged : Bytes → Bytes
unchanged text = text

abbrev mail_host : MxPattern
mail_host = equals (codes "mail.example.com")

abbrev net_hosts : MxPattern
net_hosts = starts_with (codes "example.net")

mail_host-PatternFits : PatternFits unchanged mail_host
unfolding trim
mail_host-PatternFits = (omega arith, refl, refl, refl, refl)

net_hosts-PatternFits : PatternFits unchanged net_hosts
unfolding trim
net_hosts-PatternFits = (omega arith, refl, refl, refl)

parse-policy_text_example :
    parse unchanged (policy_text enforce (mail_host ∷ net_hosts ∷ [])) (codes "abc")
    ≡ some (
        inr (record {
          id = codes "abc";
          mode = enforce;
          mx = mail_host ∷ net_hosts ∷ [];
          max_age = 86_400;
        }))
parse-policy_text_example =
    parse-policy_text unchanged (codes "abc") enforce mail_host (net_hosts ∷ [])
      (mail_host-PatternFits, (net_hosts-PatternFits, tt))

abbrev policy : Policy
policy = record {
  id = codes "abc";
  mode = enforce;
  mx = mail_host ∷ net_hosts ∷ [];
  max_age = 604_800;
}

-- The first policy of the tests of the source.
reads_sample :
    parse unchanged
      (codes
        "version: STSv1\nmode: enforce\nmx: mail.example.com\nmx: *.example.net\nmax_age: 604800")
      (codes "abc")
    ≡ some (inr policy)
unfolding parse
reads_sample = refl

verify_under : verify policy (codes "mx1.example.net") ≡ true
unfolding verify bytes_eq
verify_under = refl

verify_deeper : verify policy (codes "a.mx1.example.net") ≡ false
unfolding verify bytes_eq
verify_deeper = refl

parse-IsAnswer_example :
    IsAnswer (codes "abc") (parse unchanged (codes "mode: enforce\nmx: *.\nversion") (codes "abc"))
parse-IsAnswer_example =
    parse-IsAnswer unchanged (codes "mode: enforce\nmx: *.\nversion") (codes "abc")

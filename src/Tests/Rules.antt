-- ===== src/Tests/Rules.antt =====
-- Rules of the configuration.
use smtp_server.Base.{◌≡◌, refl, true, false, some}
use smtp_server.Base.Decimal.{decimal}
use smtp_server.Core.Envelope.{
  Envelope, v4, v6, recipient_domain, mx, listener, local_ip, ip_to_string,
}
use smtp_server.Core.Conditions.Mask.{mask_v4, matches, bit_and}
use smtp_server.Core.Conditions.Eval.{string, uint, ip_addr_mask, regex, equal, test, eval}
use smtp_server.Core.Conditions.Compile.{
  Leaf, end, leaf, group, Rule, grouped, any_of, all_of, none_of, siblings, parse_condition,
}
use smtp_server.Core.Conditions.Emit.{emit}
use smtp_server.Core.Conditions.Layout.{parse_condition-emit}
use smtp_server.Core.Conditions.Meaning.{
  IsOrderly, rule_holds, eval-parse_condition, middle_group-ignored,
}
use smtp_server.Base.{◌==◌, arith}
use smtp_server.Core.Conditions.Prefix.{shifted, ones, leading, matches-leading}
use smtp_server.Tests.Samples.{codes}

-- The envelope of the configuration's tests.
abbrev incoming : Envelope
incoming = record {
  local_ip = v4 3_232_237_827;
  remote_ip = v6 51_923_840_001_122_334_455_667_788;
  sender_domain = codes "foo.net";
  sender = codes "bill@foo.net";
  rcpt_domain = codes "example.org";
  rcpt = codes "user@example.org";
  helo_domain = codes "hi-domain.net";
  authenticated_as = codes "john@foobar.org";
  mx = codes "mx.somedomain.com";
  listener_id = 123;
  priority = 65_532;
}

abbrev to_example : Leaf
to_example = record {
  key = recipient_domain;
  value = string (equal (codes "example.org"));
  op_is_not = false;
}

abbrev from_smtp : Leaf
from_smtp = record { key = listener; value = uint 123; op_is_not = false }

abbrev to_other_mx : Leaf
to_other_mx = record { key = mx; value = regex (λ _. false); op_is_not = false }

abbrev in_network : Leaf
in_network = record {
  key = local_ip;
  value = ip_addr_mask (mask_v4 3_232_237_824 4_294_967_040);
  op_is_not = false;
}

in_network_holds : test incoming local_ip in_network.value ≡ some true
unfolding test matches bit_and
in_network_holds = refl

printed_address : ip_to_string (v4 3_232_237_827) ≡ codes "192.168.9.3"
unfolding ip_to_string decimal
printed_address = refl

printed_short : ip_to_string (v6 1) ≡ codes "::1"
unfolding ip_to_string decimal
printed_short = refl

-- `all-of = [to example.org, from smtp, none-of = [other mx, in the network]]`
abbrev nested : Rule
nested =
    grouped all_of (
      leaf to_example (leaf from_smtp (group none_of (leaf to_other_mx (leaf in_network end)) end)))

nested-IsOrderly : IsOrderly incoming (siblings nested)
unfolding test
nested-IsOrderly =
    (refl, refl, ((λ e. cc), ((λ e. cc), (refl, refl, ((λ e. cc), ((λ e. cc), tt))))))

eval-parse_condition_example : eval (parse_condition nested) incoming ≡ rule_holds incoming nested
eval-parse_condition_example = eval-parse_condition incoming nested nested-IsOrderly

parse_condition-emit_example : parse_condition nested ≡ emit false false (siblings nested)
parse_condition-emit_example = parse_condition-emit nested

middle_group-ignored_example :
    eval
      (parse_condition (
        grouped any_of
          (group all_of (leaf to_example (leaf from_smtp end)) (leaf to_other_mx end))))
      incoming
    ≡ eval (parse_condition (grouped any_of (leaf to_other_mx end))) incoming
unfolding test
middle_group-ignored_example =
    middle_group-ignored incoming any_of all_of (leaf to_example (leaf from_smtp end)) to_other_mx
      end refl ((λ e. cc), ((λ e. cc), tt)) (λ e. cc)

matches-leading_example :
    matches (mask_v4 3_232_237_824 (shifted 8 (ones 24))) (v4 3_232_237_827)
    ≡ (leading 8 3_232_237_824 == leading 8 3_232_237_827)
matches-leading_example =
    matches-leading 8 24 3_232_237_824 3_232_237_827 refl (omega arith) (omega arith)

-- ===== src/Tests/Hist.antt =====
-- History values with numbers written as marks.
use done_rest.Prelude.{ℕ, zero, suc, ◌≡◌, inr, refl, true, false, some, [], ◌∷◌, arith}
use done_rest.Transport.Split.{Avoids}
use done_rest.Hist.{ThingValue}
use done_rest.Hist.Retention.{RetentionRuleSet}
use done_rest.Hist.Encoding.{
  Decimal, IsEncodable, encode_value, decode_value, thing_addr, value, decode_value-encode_value,
}
use done_rest.Hist.Adding.{AddHistory}
use done_rest.Tests.Cursors.{marks, size, size-marks}

pub marks-Avoids : (n : ℕ) → Avoids b'/' (marks n)
marks-Avoids zero = tt
marks-Avoids (suc n) = (omega arith, marks-Avoids n)

abbrev pub unary : Decimal
unary = record {
  format_int = marks;
  parse_int = size;
  parse-format = size-marks;
  format-Avoids = marks-Avoids;
}

abbrev pub reading : ThingValue
reading = record {
  agent_id = "agent";
  thing_id = "thing";
  name = "temperature";
  payload = "21";
  created_msec = 3;
  sender_id = "agent";
  value_type = "event";
}

pub reading-IsEncodable : IsEncodable reading
reading-IsEncodable = record {
  agent_free = omega arith;
  thing_free = omega arith;
  name_free = omega arith;
  sender_free = omega arith;
  timed = omega arith;
  typed = inr (inr refl);
}

abbrev rules : RetentionRuleSet
rules =
    (
      "temperature",
      record {
        agent_id = "other";
        thing_id = "";
        name = "temperature";
        retain = false;
        max_age = 0;
      }
          ∷ record {
            agent_id = "";
            thing_id = "thing";
            name = "temperature";
            retain = true;
            max_age = 0;
          }
          ∷ [],
    )
    ∷ []

abbrev history : AddHistory
history = record { store = []; retention_mgr = some rules; added = [] }

decode_value-encode_value_example :
    decode_value unary
      (thing_addr reading)
      (encode_value unary 9 reading).0
      (encode_value unary 9 reading).1
    ≡ value reading
decode_value-encode_value_example = decode_value-encode_value unary 9 reading reading-IsEncodable

abbrev nameless : ThingValue
nameless = record reading { name = "" }

-- ===== src/Hist/Encoding.antt =====
-- The keys of the stored values: encodeValue of AddHistory.go and decodeValue of HistoryCursor.go.
use Prim.Native.Char.{Char}
use Prim.Native.String.{◌++◌ as append_text}
use done_rest.Prelude.{
  ℕ, ◌<◌, ◌≡◌, ◌⊎◌, inl, inr, refl, ap, ◌∙◌, String, List, [], ◌∷◌, arith, ltb, ◌==◌, if◌then◌else◌,
  Bool-cases,
}
use done_rest.Transport.{message_type_action, message_type_config, message_type_event}
use done_rest.Transport.Split.{split, Avoids, split-Avoids, split-append}
use done_rest.Transport.Subjects.{first_or_empty}
use done_rest.Hist.{ThingValue}

-- strconv's FormatInt and ParseInt with base 10: a number is read back, and its text has no slash.
pub record Decimal : Type 0 where
  pub format_int : ℕ → String
  pub parse_int : String → ℕ
  pub parse-format : (n : ℕ) → parse_int (format_int n) ≡ n
  pub format-Avoids : (n : ℕ) → Avoids b'/' (format_int n)

abbrev pub slash : Char
slash = "/"

unfoldable pub type_letter : String → String
type_letter value_type =
    if value_type == message_type_action
    then "a"
    else if value_type == message_type_config
    then "c"
    else "e"

-- timestamp/name/{a|e|c}/sender
unfoldable pub value_key : Decimal → ℕ → ThingValue → String
unfolding type_letter
value_key dec ts tv = append_text (dec.format_int ts) (
    String.◌∷◌ slash (
      append_text tv.name (
        String.◌∷◌ slash
          (append_text (type_letter tv.value_type) (String.◌∷◌ slash tv.sender_id)))))

-- The time of the key is that of the value, or the present one.
unfoldable pub encode_value : Decimal → ℕ → ThingValue → String × String
unfolding value_key
encode_value dec now tv =
    (value_key dec (if ltb 0 tv.created_msec then tv.created_msec else now) tv, tv.payload)

-- A key of two parts makes the code read a third one that is not there.
pub data Decoded : Type 0 where
  invalid panics : Decoded
  value : ThingValue → Decoded

unfoldable pub letter_type : String → String
letter_type letter =
    if letter == "a"
    then message_type_action
    else if letter == "c"
    then message_type_config
    else message_type_event

-- With the parts of the bucket's ID.
decode_address : ℕ → String → String → String → String → List String → Decoded
decode_address created name letter sender_id payload (agent_id ∷ thing_id ∷ rest) = value (record {
  agent_id = agent_id;
  thing_id = thing_id;
  name = name;
  payload = payload;
  created_msec = created;
  sender_id = sender_id;
  value_type = letter_type letter;
})
decode_address created name letter sender_id payload _ = invalid

decode_parts : Decimal → String → String → List String → Decoded
unfolding decode_address
decode_parts dec bucket_id payload (ts ∷ name ∷ letter ∷ rest) =
    decode_address (dec.parse_int ts) name letter (first_or_empty rest) payload
      (split b'/' bucket_id)
decode_parts dec bucket_id payload (ts ∷ name ∷ []) = panics
decode_parts dec bucket_id payload _ = invalid

unfoldable pub decode_value : Decimal → String → String → String → Decoded
unfolding decode_parts
decode_value dec bucket_id key payload = decode_parts dec bucket_id payload (split b'/' key)

unfoldable pub thing_addr : ThingValue → String
thing_addr tv = append_text tv.agent_id (String.◌∷◌ slash tv.thing_id)

-- A value whose parts have no slash, with a time and one of the three types.
pub record IsEncodable (tv : ThingValue) : Type 0 where
  pub agent_free : Avoids b'/' tv.agent_id
  pub thing_free : Avoids b'/' tv.thing_id
  pub name_free : Avoids b'/' tv.name
  pub sender_free : Avoids b'/' tv.sender_id
  pub timed : 0 < tv.created_msec
  pub typed :
      (tv.value_type ≡ message_type_action)
      ⊎ ((tv.value_type ≡ message_type_config) ⊎ (tv.value_type ≡ message_type_event))

type_letter-Avoids : (t : String) → Avoids b'/' (type_letter t)
unfolding type_letter
type_letter-Avoids t = elim (Bool-cases (t == message_type_action)) [
  | inl action ↦ rw (action, type_letter) (omega arith)
  | inr other ↦ elim (Bool-cases (t == message_type_config)) [
    | inl config ↦ rw (other, config, type_letter) (omega arith)
    | inr event ↦ rw (other, event, type_letter) (omega arith)
  ]
]

letter_type-type_letter :
    (t : String)
    → (t ≡ message_type_action) ⊎ ((t ≡ message_type_config) ⊎ (t ≡ message_type_event))
    → letter_type (type_letter t) ≡ t
unfolding letter_type type_letter
letter_type-type_letter t (inl action) = rw action refl
letter_type-type_letter t (inr (inl config)) = rw config refl
letter_type-type_letter t (inr (inr event)) = rw event refl

created-encode_value :
    (now : ℕ) (tv : ThingValue)
    → IsEncodable tv
    → (if ltb 0 tv.created_msec then tv.created_msec else now) ≡ tv.created_msec
created-encode_value now tv h = ground (arith, h.timed)

split-thing_addr :
    (tv : ThingValue) → IsEncodable tv → split b'/' (thing_addr tv) ≡ tv.agent_id ∷ tv.thing_id ∷ []
unfolding thing_addr
split-thing_addr tv h =
    split-append slash tv.agent_id tv.thing_id h.agent_free
    ∙ ap (λ (x : List String). tv.agent_id ∷ x) (split-Avoids b'/' tv.thing_id h.thing_free)

pub split-encode_value :
    (dec : Decimal) (now : ℕ) (tv : ThingValue)
    → IsEncodable tv
    → split b'/' (encode_value dec now tv).0
      ≡ dec.format_int tv.created_msec ∷ tv.name ∷ type_letter tv.value_type ∷ tv.sender_id ∷ []
unfolding encode_value value_key
split-encode_value dec now tv h =
    ap (λ (ts : ℕ). split b'/' (value_key dec ts tv)) (created-encode_value now tv h)
    ∙ split-append slash (dec.format_int tv.created_msec) _ (dec.format-Avoids _)
    ∙ ap (λ (x : List String). dec.format_int tv.created_msec ∷ x)
        (split-append slash tv.name _ h.name_free
          ∙ ap (λ (x : List String). tv.name ∷ x)
              (split-append slash (type_letter tv.value_type) _ (type_letter-Avoids tv.value_type)
                ∙ ap (λ (x : List String). type_letter tv.value_type ∷ x)
                    (split-Avoids b'/' tv.sender_id h.sender_free)))

-- A value that is stored is read back as it was: decoding the key and the data that a value is
-- encoded to, in the bucket of its Thing, gives that value, if its IDs and its name have no slash,
-- it has a time, and its type is action, config or event.
pub decode_value-encode_value :
    (dec : Decimal) (now : ℕ) (tv : ThingValue)
    → IsEncodable tv
    → decode_value dec (thing_addr tv) (encode_value dec now tv).0 (encode_value dec now tv).1
      ≡ value tv
unfolding decode_value encode_value first_or_empty
decode_value-encode_value dec now tv h =
    ap (decode_parts dec (thing_addr tv) tv.payload) (split-encode_value dec now tv h)
    ∙ ap
        (decode_address (dec.parse_int (dec.format_int tv.created_msec)) tv.name
          (type_letter tv.value_type) tv.sender_id tv.payload)
        (split-thing_addr tv h)
    ∙ rw (dec.parse-format tv.created_msec, letter_type-type_letter tv.value_type h.typed) refl
